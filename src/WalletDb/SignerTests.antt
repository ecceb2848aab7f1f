-- ===== src/WalletDb/SignerTests.antt =====
-- An example of the table SIGNER of src/storage.cpp.
use libnunchuk.Base.{◌≡◌, refl, [], ◌∷◌, true}
use libnunchuk.Base.Int.{pos}
use libnunchuk.Base.Text.{codes, c_string}
use libnunchuk.Types.{SingleSigner, ok}
use libnunchuk.WalletDb.Signers.{row_of, add_signer, get_signers, set_signer_name}
use libnunchuk.WalletDb.SignersKept.{small, add_signer-get_signers}

abbrev example_signer : SingleSigner
example_signer = record {
  name = codes "s";
  xpub = codes "x";
  public_key = [];
  derivation_path = codes "m/1";
  master_fingerprint = codes "AB12";
  master_signer_id = codes "AB12";
  last_health_check = pos 0;
}

adds_signer : add_signer example_signer [] ≡ ok (true, row_of example_signer ∷ [])
unfolding add_signer
adds_signer = refl

add_signer-get_signers_example :
    (get_signers (row_of example_signer ∷ []) ≡ small example_signer ∷ [])
    × (get_signers (set_signer_name example_signer (codes "t") (row_of example_signer ∷ [])).1
        ≡ small (record example_signer { name = codes "t" }) ∷ [])
unfolding get_signers c_string
add_signer-get_signers_example =
    add_signer-get_signers example_signer (codes "t") true [] (row_of example_signer ∷ [])
      adds_signer (refl, tt) (refl, (refl, (refl, (refl, tt)))) (refl, tt)
