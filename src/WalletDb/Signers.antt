-- ===== src/WalletDb/Signers.antt =====
-- The table SIGNER of NunchukWalletDb in src/storage.cpp. The JSON of a key is the record that it is made
-- of, and two keys are the same text where the records are equal.
use libnunchuk.Base.{List, [], ◌∷◌, ◌++◌, map, Bool, true, ◌&&◌, if◌then◌else◌}
use libnunchuk.Base.Int.{ℤ}
use libnunchuk.Base.Lists.{any}
use libnunchuk.Base.Search.{lower}
use libnunchuk.Base.Text.{Text, text_eq, c_string}
use libnunchuk.Types.{SingleSigner, Result, ok, throw, sql_error}

pub record SignerKey : Type 0 where
  pub xpub : Text
  pub public_key : Text
  pub derivation_path : Text
  pub master_fingerprint : Text

pub record SignerRow : Type 0 where
  pub key : SignerKey
  pub name : Text
  pub master_id : Text
  pub last_health_check : ℤ

abbrev pub to_lower : Text → Text
to_lower s = map lower s

abbrev pub key_eq : SignerKey → SignerKey → Bool
key_eq a b =
    text_eq a.xpub b.xpub
    && (text_eq a.public_key b.public_key
        && (text_eq a.derivation_path b.derivation_path
            && text_eq a.master_fingerprint b.master_fingerprint))

unfoldable pub get_single_signer_key : SingleSigner → SignerKey
get_single_signer_key signer = record {
  xpub = signer.xpub;
  public_key = signer.public_key;
  derivation_path = signer.derivation_path;
  master_fingerprint = to_lower signer.master_fingerprint;
}

abbrev pub row_of : SingleSigner → SignerRow
row_of signer = record {
  key = get_single_signer_key signer;
  name = signer.name;
  master_id = to_lower signer.master_signer_id;
  last_health_check = signer.last_health_check;
}

abbrev pub has_key : SignerKey → SignerRow → Bool
has_key key row = key_eq row.key key

-- KEY is the primary key.
unfoldable pub add_signer : SingleSigner → List SignerRow → Result (Bool × List SignerRow)
unfolding get_single_signer_key
add_signer signer rows =
    if any (has_key (get_single_signer_key signer)) rows
    then throw sql_error
    else ok (true, rows ++ row_of signer ∷ [])

unfoldable pub set_rows : (SignerRow → SignerRow) → SignerKey → List SignerRow → List SignerRow
set_rows f key [] = []
set_rows f key (row ∷ rows) =
    let rest = set_rows f key rows in (if has_key key row then f row else row) ∷ rest

abbrev pub named : Text → SignerRow → SignerRow
named value row = record row { name = value }

abbrev pub mastered : Text → SignerRow → SignerRow
mastered value row = record row { master_id = value }

unfoldable pub set_signer_name : SingleSigner → Text → List SignerRow → Bool × List SignerRow
unfolding get_single_signer_key set_rows
set_signer_name signer value rows =
    let key = get_single_signer_key signer in
    (any (has_key key) rows, set_rows (named value) key rows)

unfoldable pub set_signer_master_id : SingleSigner → Text → List SignerRow → Bool × List SignerRow
unfolding get_single_signer_key set_rows
set_signer_master_id signer value rows =
    let key = get_single_signer_key signer in
    (any (has_key key) rows, set_rows (mastered value) key rows)

abbrev pub signer_of_row : SignerRow → SingleSigner
signer_of_row row = record {
  name = c_string row.name;
  xpub = row.key.xpub;
  public_key = row.key.public_key;
  derivation_path = row.key.derivation_path;
  master_fingerprint = to_lower row.key.master_fingerprint;
  master_signer_id = c_string row.master_id;
  last_health_check = row.last_health_check;
}

-- The rows come in the order of their insertion. The columns NAME and MASTER_ID are read as C strings;
-- JSON writes a zero byte of a key as an escape.
unfoldable pub get_signers : List SignerRow → List SingleSigner
get_signers [] = []
get_signers (row ∷ rows) = signer_of_row row ∷ get_signers rows
