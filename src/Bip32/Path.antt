-- ===== src/Bip32/Path.antt =====
-- The kinds of path that GetBip32Path of src/utils/bip32.hpp gives, and GetIndexFromPath on them.
use libnunchuk.Base.{
  ◌≡◌, refl, ap, sym, subst, ◌∙◌, [], ◌∷◌, ◌++◌, some, ◌==◌, arith, if◌then◌else◌,
}
use mathlib.Core.List.{append_assoc}
use libnunchuk.Base.Int.{ℤ}
use libnunchuk.Base.Lists.{All, All-append}
use libnunchuk.Base.Text.{Text, codes}
use libnunchuk.Base.Decimal.{
  show, stoi, IsInt, NoDigit, starts_digit, stoi-show, show-NoSlash, NoSlash,
}
use libnunchuk.Types.{
  AddressType, any, legacy, nested_segwit, native_segwit, Chain, WalletType, single_sig, multi_sig,
  escrow, ok,
}
use libnunchuk.Bip32.{
  coin_type, short_path, escrow_path, get_bip32_path, get_bip32_type, after_slash,
  get_index_from_path, number_or_throw,
}

after_slash-append : (s found t : Text) → after_slash found (s ++ b'/' ∷ t) ≡ after_slash t t
unfolding after_slash
after_slash-append [] found t = refl
after_slash-append (c ∷ s) found t =
    after_slash-append s (if c == b'/' then s ++ b'/' ∷ t else found) t

after_slash-NoSlash : (found s : Text) → All NoSlash s → after_slash found s ≡ found
unfolding after_slash
after_slash-NoSlash found [] h = refl
after_slash-NoSlash found (c ∷ s) h = rw h.0 (after_slash-NoSlash found s h.1)

h_stops : NoDigit (codes "h")
unfolding starts_digit
h_stops = refl

read_index :
    (path tail : Text) (index : ℤ)
    → after_slash path path ≡ tail
    → stoi tail ≡ some index
    → get_index_from_path path ≡ ok index
unfolding get_index_from_path
read_index path tail index found value = ap number_or_throw (ap stoi found ∙ value)

-- What stands behind the last slash, whatever stands before it.
index_at_end :
    (s : Text) (index : ℤ)
    → IsInt index
    → get_index_from_path (s ++ b'/' ∷ (show index ++ codes "h")) ≡ ok index
index_at_end s index h =
    let tail = show index ++ codes "h" in
    let found : after_slash (s ++ b'/' ∷ tail) (s ++ b'/' ∷ tail) ≡ tail =
      after_slash-append s (s ++ b'/' ∷ tail) tail
      ∙ after_slash-NoSlash tail tail
          (All-append NoSlash (show index) (codes "h") (show-NoSlash index) (refl, tt)) in
    read_index (s ++ b'/' ∷ tail) tail index found (stoi-show index (codes "h") h h_stops)

short_path-index :
    (purpose : Text) (coin index : ℤ)
    → IsInt index
    → get_index_from_path (short_path purpose coin index) ≡ ok index
short_path-index purpose coin index h =
    let split : short_path purpose coin index
        ≡ (purpose ++ (show coin ++ codes "h")) ++ b'/' ∷ (show index ++ codes "h") =
      simp append_assoc in
    rw split (index_at_end (purpose ++ (show coin ++ codes "h")) index h)

escrow_path-index :
    (coin index : ℤ) → IsInt index → get_index_from_path (escrow_path coin index) ≡ ok index
escrow_path-index coin index h =
    let split : escrow_path coin index
        ≡ (codes "m/48h/" ++ (show coin ++ codes "h/0h")) ++ b'/' ∷ (show index ++ codes "h") =
      simp append_assoc in
    rw split (index_at_end (codes "m/48h/" ++ (show coin ++ codes "h/0h")) index h)

-- The wallet type and the address type as far as a path has them: what `get_bip32_type` answers.
pub data Kind : Type 0 where
  bip44 bip49 bip84 bip48 escrowed : Kind

-- The path of a kind.
unfoldable pub kind_path : Kind → ℤ → ℤ → Text
kind_path bip44 = short_path (codes "m/44h/")
kind_path bip49 = short_path (codes "m/49h/")
kind_path bip84 = short_path (codes "m/84h/")
kind_path bip48 = short_path (codes "m/48h/")
kind_path escrowed = escrow_path

unfoldable pub kind_name : Kind → Text
kind_name bip44 = codes "bip44"
kind_name bip49 = codes "bip49"
kind_name bip84 = codes "bip84"
kind_name bip48 = codes "bip48"
kind_name escrowed = codes "escrow"

bip48_path :
    (chain : Chain) (a : AddressType) (index : ℤ) {p : Text}
    → get_bip32_path chain multi_sig a index ≡ ok p
    → p ≡ kind_path bip48 (coin_type chain) index
unfolding get_bip32_path kind_path
bip48_path chain a index e = ground arith

-- Every path that is given is one of five kinds.
pub path_kind :
    (chain : Chain) (w : WalletType) (a : AddressType) (index : ℤ) {p : Text}
    → get_bip32_path chain w a index ≡ ok p
    → (k : Kind) × (p ≡ kind_path k (coin_type chain) index)
      × (get_bip32_type w a ≡ ok (kind_name k))
unfolding get_bip32_path get_bip32_type kind_path kind_name
path_kind chain single_sig legacy index e = (bip44, cc, refl)
path_kind chain single_sig nested_segwit index e = (bip49, cc, refl)
path_kind chain single_sig native_segwit index e = (bip84, cc, refl)
path_kind chain single_sig any index e = cc
path_kind chain multi_sig a index e = (bip48, bip48_path chain a index e, refl)
path_kind chain escrow a index e = (escrowed, cc, refl)

pub kind_path-index :
    (k : Kind) (coin index : ℤ)
    → IsInt index
    → get_index_from_path (kind_path k coin index) ≡ ok index
unfolding kind_path
kind_path-index bip44 = short_path-index (codes "m/44h/")
kind_path-index bip49 = short_path-index (codes "m/49h/")
kind_path-index bip84 = short_path-index (codes "m/84h/")
kind_path-index bip48 = short_path-index (codes "m/48h/")
kind_path-index escrowed = escrow_path-index

-- GetIndexFromPath reads back the index, a value of `int`, that GetBip32Path has made a path with.
pub get_index_from_path-get_bip32_path :
    (chain : Chain) (w : WalletType) (a : AddressType) (index : ℤ) (p : Text)
    → IsInt index
    → get_bip32_path chain w a index ≡ ok p
    → get_index_from_path p ≡ ok index
get_index_from_path-get_bip32_path chain w a index p h e =
    let (k, path, _) = path_kind chain w a index e in
    subst (λ q. get_index_from_path q ≡ ok index) (sym path)
      (kind_path-index k (coin_type chain) index h)
