-- ===== src/SignerDb/History.antt =====
-- The history of a signer's database of src/storage.cpp, in which the signer may be deleted.
use libnunchuk.Base.{◌≡◌, refl, ◌∙◌}
use libnunchuk.Base.Text.{Text}
use libnunchuk.SignerDb.{SignerDb, init_signer, delete_signer}
use libnunchuk.SignerDb.Sound.{IsWf}
use libnunchuk.SignerDb.Steps.{Step, done, more, Steps-IsWf}

-- Calls as in `Step`, and DeleteSigner, after which the tables are missing until InitSigner.
pub data History (db : SignerDb) : SignerDb → Type 0 where
  begins : History db db
  calls : {db2 db3 : SignerDb} → History db db2 → Step db2 db3 → History db db3
  deletes :
      {db2 : SignerDb} (name fingerprint : Text)
      → History db db2
      → History db (init_signer name fingerprint (delete_signer db2))

-- Every sequence of calls of InitSigner, AddXPub at an int index, AddXPub at a path with the type
-- "custom", UseIndex, and DeleteSigner with InitSigner behind it, on a well-formed database, keeps the
-- paths of the table different and its rows those of wallets or of the type "custom", and it keeps
-- the chain.
pub History-IsWf :
    (db db2 : SignerDb) → IsWf db → History db db2 → IsWf db2 × (db2.chain ≡ db.chain)
unfolding init_signer delete_signer
History-IsWf db _ h begins = (h, refl)
History-IsWf db db3 h (calls {db2 = db2} past s) =
    let (h2, e) = History-IsWf db db2 h past in
    let (h3, e3) = Steps-IsWf db2 db3 h2 (more done s) in (h3, e3 ∙ e)
History-IsWf db _ h (deletes {db2 = db2} name fingerprint past) =
    ((tt, tt), (History-IsWf db db2 h past).1)
