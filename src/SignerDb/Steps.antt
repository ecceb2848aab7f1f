-- ===== src/SignerDb/Steps.antt =====
-- The life of a signer's database: the operations as steps, and what every step keeps.
use libnunchuk.Base.{
  ◌≡◌, refl, sym, ap, subst, ◌∙◌, List, some, ◌==◌, Bool, true, false, map, Bool-cases, inl, inr,
}
use libnunchuk.Base.Int.{ℤ, negsuc}
use libnunchuk.Base.Lists.{All}
use libnunchuk.Base.Text.{Text, codes, text_eq, text_eq_iff}
use libnunchuk.Base.Decimal.{IsInt}
use libnunchuk.Types.{AddressType, Chain, WalletType, ok, ok->>=}
use libnunchuk.Bip32.{get_bip32_path, get_bip32_type}
use libnunchuk.SignerDb.{
  Row, SignerDb, init_signer, unused, upsert, add_xpub_at, add_xpub, use_row, changes, use_index,
  find_row,
}
use libnunchuk.SignerDb.Rows.{
  DistinctPaths, inserted, find_row-upsert, find_row-upsert_other, find_row-use, find_row-use_other,
  find_row-path, upsert-DistinctPaths, use-DistinctPaths,
}
use libnunchuk.SignerDb.Sound.{IsSound, IsWf, upsert-IsSound, use-IsSound}

-- The calls that change a signer's database, but for DeleteSigner, which History has. An index is an
-- `int`. AddXPub at a path is called with the type "custom" alone, as NunchukStorage does.
pub data Step (db db2 : SignerDb) : Type 0 where
  init : (name fingerprint : Text) → db2 ≡ init_signer name fingerprint db → Step db db2
  add_custom :
      (path xpub : Text) → (true, db2) ≡ add_xpub_at path xpub (codes "custom") db → Step db db2
  add :
      (w : WalletType) (a : AddressType) (index : ℤ) (xpub : Text) (b : Bool)
      → IsInt index
      → add_xpub w a index xpub db ≡ ok (b, db2)
      → Step db db2
  use_one :
      (w : WalletType) (a : AddressType) (index : ℤ) (b : Bool)
      → use_index w a index db ≡ ok (b, db2)
      → Step db db2

pub data Steps (db : SignerDb) : SignerDb → Type 0 where
  done : Steps db db
  more : {db2 db3 : SignerDb} → Steps db db2 → Step db2 db3 → Steps db db3

-- What the two statements leave, whichever call makes them.
pub data Change (db db2 : SignerDb) : Type 0 where
  same_rows : db2.chain ≡ db.chain → db2.bip32 ≡ db.bip32 → Change db db2
  inserts :
      (path xpub type : Text)
      → ((x : Text)
          → IsSound db.chain (record { path = path; xpub = x; type = type; used = negsuc 0 }))
      → db2.chain ≡ db.chain
      → db2.bip32 ≡ upsert path xpub type db.bip32
      → Change db db2
  uses :
      (path : Text) → db2.chain ≡ db.chain → db2.bip32 ≡ map (use_row path) db.bip32 → Change db db2

-- What a call of UseIndex that does not throw answers and leaves.
pub use_index-result :
    (w : WalletType) (a : AddressType) (index : ℤ) (db db2 : SignerDb) (b : Bool)
    → use_index w a index db ≡ ok (b, db2)
    → (path : Text) × (get_bip32_path db.chain w a index ≡ ok path)
      × (b ≡ (changes path db.bip32 == 1))
      × (db2 ≡ record db { bip32 = map (use_row path) db.bip32 })
unfolding use_index
use_index-result w a index db db2 b e =
    let (path, e1, e2) = ok->>= (get_bip32_path db.chain w a index) _ (b, db2) e in
    (path, e1, cc, cc)

pub add_xpub-result :
    (w : WalletType) (a : AddressType) (index : ℤ) (xpub : Text) (db db2 : SignerDb) (b : Bool)
    → add_xpub w a index xpub db ≡ ok (b, db2)
    → (path : Text) × (type : Text) × (get_bip32_path db.chain w a index ≡ ok path)
      × (get_bip32_type w a ≡ ok type)
      × (b ≡ true)
      × (db2 ≡ record db { bip32 = upsert path xpub type db.bip32 })
unfolding add_xpub add_xpub_at
add_xpub-result w a index xpub db db2 b e =
    let (path, e1, e2) = ok->>= (get_bip32_path db.chain w a index) _ (b, db2) e in
    let (type, e3, e4) = ok->>= (get_bip32_type w a) _ (b, db2) e2 in (path, type, e1, e3, cc, cc)

step-Change : {db db2 : SignerDb} → Step db db2 → Change db db2
unfolding add_xpub_at init_signer
step-Change {db = db} (init name fingerprint e) =
    same_rows (ap (λ d. d.chain) e) (ap (λ d. d.bip32) e)
step-Change {db = db} (add_custom path xpub e) =
    inserts path xpub (codes "custom") (λ x. inl refl) (ap (λ d. d.1.chain) e)
      (ap (λ d. d.1.bip32) e)
step-Change {db = db} (add w a index xpub b int e) =
    let (path, type, e1, e2, _, e3) = add_xpub-result w a index xpub db _ b e in
    inserts path xpub type
      (λ x. inr (record {
        wallet = w;
        address = a;
        index = index;
        index-IsInt = int;
        path_is = e1;
        type_is = e2;
      }))
      (ap (λ d. d.chain) e3) (ap (λ d. d.bip32) e3)
step-Change {db = db} (use_one w a index b e) =
    let (path, e1, _, e2) = use_index-result w a index db _ b e in
    uses path (ap (λ d. d.chain) e2) (ap (λ d. d.bip32) e2)

-- A table in place of one that it equals.
rows_subst :
    (P : Chain → List Row → Type 0) (db db2 : SignerDb) (rows : List Row)
    → db2.chain ≡ db.chain
    → db2.bip32 ≡ rows
    → P db.chain rows
    → P db2.chain db2.bip32
rows_subst P db db2 rows e1 e2 h =
    subst (λ c. P c db2.bip32) (sym e1) (subst (λ t. P db.chain t) (sym e2) h)

abbrev WfRows : Chain → List Row → Type 0
WfRows chain rows = DistinctPaths rows × All (IsSound chain) rows

Change-IsWf : {db db2 : SignerDb} → Change db db2 → IsWf db → IsWf db2
Change-IsWf {db = db} {db2 = db2} (same_rows e1 e2) h = rows_subst WfRows db db2 _ e1 e2 h
Change-IsWf {db = db} {db2 = db2} (inserts path xpub type new e1 e2) h =
    rows_subst WfRows db db2 _ e1 e2 (
      upsert-DistinctPaths path xpub type db.bip32 h.0,
      upsert-IsSound db.chain path xpub type db.bip32 new h.1,
    )
Change-IsWf {db = db} {db2 = db2} (uses path e1 e2) h =
    rows_subst WfRows db db2 _ e1 e2
      (use-DistinctPaths path db.bip32 h.0, use-IsSound db.chain path db.bip32 h.1)

-- Every sequence of these calls on a well-formed database keeps the paths of the table different and its
-- rows those of wallets or "custom", and it keeps the chain.
pub Steps-IsWf : (db db2 : SignerDb) → IsWf db → Steps db db2 → IsWf db2 × (db2.chain ≡ db.chain)
Steps-IsWf db _ h done = (h, refl)
Steps-IsWf db db3 h (more {db2 = db2} s t) =
    let (h2, e) = Steps-IsWf db db2 h s in
    (Change-IsWf (step-Change t) h2, change-chain (step-Change t) ∙ e)
  where
    change-chain : {db db2 : SignerDb} → Change db db2 → db2.chain ≡ db.chain
    change-chain (same_rows e1 e2) = e1
    change-chain (inserts path xpub type new e1 e2) = e1
    change-chain (uses path e1 e2) = e1

-- There is a row at the path, and its index is used.
abbrev pub IsTaken : Text → List Row → Type 0
IsTaken path rows = (r : Row) × (find_row path rows ≡ some r) × (unused r ≡ false)

upsert-IsTaken :
    (p xpub type path : Text) (rows : List Row)
    → IsTaken path rows
    → IsTaken path (upsert p xpub type rows)
upsert-IsTaken p xpub type path rows (r, found, taken) = elim (Bool-cases (text_eq p path)) [
  | inl e ↦
      let same : p ≡ path = (text_eq_iff p path).0 e in
      let found_p : find_row p rows ≡ some r = ap (λ q. find_row q rows) same ∙ found in
      (
        record r { xpub = xpub },
        ap (λ q. find_row q (upsert p xpub type rows)) (sym same)
            ∙ find_row-upsert p xpub type rows
            ∙ ap (λ o. some (inserted p xpub type o)) found_p,
        taken,
      )
  | inr e ↦ (r, find_row-upsert_other p xpub type path rows e ∙ found, taken)
]

-- A row that UseIndex sets is used, and a used row stays so.
used_row : (path : Text) (r : Row) → text_eq r.path path ≡ true → unused (use_row path r) ≡ false
used_row path r e = elim (Bool-cases (unused r)) [
  | inl u ↦ rw e (rw u refl)
  | inr u ↦ rw e (rw u u)
]

pub use-IsTaken :
    (path : Text) (rows : List Row) (r : Row)
    → find_row path rows ≡ some r
    → IsTaken path (map (use_row path) rows)
use-IsTaken path rows r found = (
  use_row path r,
  find_row-use path rows r found,
  used_row path r (find_row-path path rows r found),
)

use-IsTaken_any :
    (p path : Text) (rows : List Row) → IsTaken path rows → IsTaken path (map (use_row p) rows)
use-IsTaken_any p path rows (r, found, taken) = elim (Bool-cases (text_eq p path)) [
  | inl e ↦
      let same : path ≡ p = sym ((text_eq_iff p path).0 e) in
      subst (λ q. IsTaken path (map (use_row q) rows)) same (use-IsTaken path rows r found)
  | inr e ↦ (r, find_row-use_other p path rows e ∙ found, taken)
]

Change-IsTaken :
    (path : Text) {db db2 : SignerDb}
    → Change db db2
    → IsTaken path db.bip32
    → IsTaken path db2.bip32
Change-IsTaken path {db = db} {db2 = db2} (same_rows e1 e2) h = subst (IsTaken path) (sym e2) h
Change-IsTaken path {db = db} (inserts p xpub type new e1 e2) h =
    subst (IsTaken path) (sym e2) (upsert-IsTaken p xpub type path db.bip32 h)
Change-IsTaken path {db = db} (uses p e1 e2) h =
    subst (IsTaken path) (sym e2) (use-IsTaken_any p path db.bip32 h)

-- A used index stays used, whatever is called.
pub Steps-IsTaken :
    (path : Text) (db db2 : SignerDb)
    → Steps db db2
    → IsTaken path db.bip32
    → IsTaken path db2.bip32
Steps-IsTaken path db _ done h = h
Steps-IsTaken path db db3 (more {db2 = db2} s t) h =
    Change-IsTaken path (step-Change t) (Steps-IsTaken path db db2 s h)
