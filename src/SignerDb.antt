-- ===== src/SignerDb.antt =====
-- NunchukSignerDb of src/storage.cpp: the keys that a master signer has given, in the table BIP32,
-- and which of the wallets' indices are used. A statement of SQL is the change or the list of rows
-- that it asks for; the order in which SQLite visits the rows of a table is a parameter.
pub mod Rows
pub mod Sound
mod Index
mod Cached
mod Steps
mod History
mod Xpub
mod Tests
use libnunchuk.Base.{
  ℕ, zero, suc, ◌+◌, List, [], ◌∷◌, Option, none, some, ◌==◌, Bool, true, false, not, ◌&&◌, map,
  if◌then◌else◌,
}
use libnunchuk.Base.Int.{ℤ, pos, negsuc, eqb_ℤ, ltb_ℤ}
use libnunchuk.Base.Text.{Text, codes, text_eq, c_string}
use libnunchuk.Types.{AddressType, Chain, WalletType, Result, ok, throw, ◌>>=◌, SingleSigner}
use libnunchuk.Bip32.{get_bip32_path, get_bip32_type, get_index_from_path}

-- The columns PATH, XPUB, TYPE and USED of BIP32.
pub record Row : Type 0 where
  pub path : Text
  pub xpub : Text
  pub type : Text
  pub used : ℤ

-- The database of a signer: its key-value tables by what stands at NAME, FINGERPRINT and
-- LAST_HEALTH_CHECK, and the table BIP32.
pub record SignerDb : Type 0 where
  pub id : Text
  pub chain : Chain
  pub name : Text
  pub fingerprint : Text
  pub last_health_check : ℤ
  pub bip32 : List Row

-- The tables are dropped: InitSigner makes them again, empty.
unfoldable pub delete_signer : SignerDb → SignerDb
delete_signer db = record db { name = []; fingerprint = []; last_health_check = pos 0; bip32 = [] }

unfoldable pub init_signer : Text → Text → SignerDb → SignerDb
init_signer name fingerprint db = record db { name = name; fingerprint = fingerprint }

-- Whether the column USED holds -1.
abbrev pub unused : Row → Bool
unused r = eqb_ℤ r.used (negsuc 0)

-- INSERT ... VALUES (path, xpub, type, -1) ON CONFLICT(PATH) DO UPDATE SET XPUB=excluded.XPUB
unfoldable pub upsert : Text → Text → Text → List Row → List Row
upsert path xpub type [] = record { path = path; xpub = xpub; type = type; used = negsuc 0 } ∷ []
upsert path xpub type (r ∷ rows) =
    if text_eq r.path path then record r { xpub = xpub } ∷ rows else r ∷ upsert path xpub type rows

-- AddXPub(path, xpub, type): the statement always changes one row.
unfoldable pub add_xpub_at : Text → Text → Text → SignerDb → Bool × SignerDb
unfolding upsert
add_xpub_at path xpub type db = (true, record db { bip32 = upsert path xpub type db.bip32 })

-- AddXPub(wallet_type, address_type, index, xpub)
unfoldable pub add_xpub : WalletType → AddressType → ℤ → Text → SignerDb → Result (Bool × SignerDb)
unfolding add_xpub_at
add_xpub w a index xpub db = do
  path ← get_bip32_path db.chain w a index
  type ← get_bip32_type w a
  ok (add_xpub_at path xpub type db)

-- WHERE PATH = path AND USED = -1
abbrev pub unused_at : Text → Row → Bool
unused_at path r = text_eq r.path path && unused r

-- SET USED = 1 on the rows of that condition
abbrev pub use_row : Text → Row → Row
use_row path r = if unused_at path r then record r { used = pos 1 } else r

abbrev pub count_if : Bool → ℕ → ℕ
count_if true n = suc n
count_if false n = n

-- `sqlite3_changes` after that statement
unfoldable pub changes : Text → List Row → ℕ
changes path [] = 0
changes path (r ∷ rows) = count_if (unused_at path r) (changes path rows)

unfoldable pub use_index : WalletType → AddressType → ℤ → SignerDb → Result (Bool × SignerDb)
unfolding changes
use_index w a index db = do
  path ← get_bip32_path db.chain w a index
  ok (changes path db.bip32 == 1, record db { bip32 = map (use_row path) db.bip32 })

-- SELECT ... WHERE PATH = path: at most one row, since PATH is the primary key.
unfoldable pub find_row : Text → List Row → Option Row
find_row path [] = none
find_row path (r ∷ rows) = if text_eq r.path path then some r else find_row path rows

abbrev pub xpub_of : Option Row → Text
xpub_of none = []
xpub_of (some r) = c_string r.xpub

unfoldable pub get_xpub_at : Text → SignerDb → Text
unfolding find_row c_string
get_xpub_at path db = xpub_of (find_row path db.bip32)

unfoldable pub get_xpub : WalletType → AddressType → ℤ → SignerDb → Result Text
unfolding get_xpub_at
get_xpub w a index db = do path ← get_bip32_path db.chain w a index; ok (get_xpub_at path db)

-- The rows of a condition, in the order of the visit.
unfoldable pub filter_rows : (Row → Bool) → List Row → List Row
filter_rows p [] = []
filter_rows p (r ∷ rows) = if p r then r ∷ filter_rows p rows else filter_rows p rows

abbrev pub first_index : List Row → Result ℤ
first_index [] = ok (negsuc 0)
first_index (r ∷ rows) = get_index_from_path r.path

-- The loop of GetCachedIndex, from the greatest index so far.
unfoldable pub greatest_index : ℤ → List Row → Result ℤ
greatest_index value [] = ok value
greatest_index value (r ∷ rows) = do
  index ← get_index_from_path r.path
  greatest_index (if ltb_ℤ value index then index else value) rows

module _ (visit : List Row → List Row) where
  unfoldable pub get_unused_index : WalletType → AddressType → SignerDb → Result ℤ
  unfolding filter_rows
  get_unused_index w a db = do
    type ← get_bip32_type w a
    first_index (filter_rows (λ r. text_eq r.type type && unused r) (visit db.bip32))

  unfoldable pub get_cached_index : WalletType → AddressType → SignerDb → Result ℤ
  unfolding filter_rows greatest_index
  get_cached_index w a db = do
    type ← get_bip32_type w a
    greatest_index (negsuc 0) (filter_rows (λ r. text_eq r.type type) (visit db.bip32))

  unfoldable pub get_single_signers : SignerDb → List SingleSigner
  unfolding filter_rows c_string
  get_single_signers db =
      map
        (λ r. record {
          name = db.name;
          xpub = c_string r.xpub;
          public_key = [];
          derivation_path = c_string r.path;
          master_fingerprint = db.fingerprint;
          master_signer_id = db.id;
          last_health_check = db.last_health_check;
        })
        (filter_rows (λ r. not (unused r)) (visit db.bip32))
