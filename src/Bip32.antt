-- ===== src/Bip32.antt =====
-- src/utils/bip32.hpp: the derivation paths of the wallets, and the index at a path's end.
pub mod Path
mod Apart
mod Tests
use libnunchuk.Base.{
  ℕ, ◌≡◌, refl, List, [], ◌∷◌, ◌++◌, Option, none, some, ◌==◌, Bool, true, false, if◌then◌else◌,
}
use libnunchuk.Base.Int.{ℤ, pos, eqb_ℤ}
use libnunchuk.Base.Text.{Text, codes}
use libnunchuk.Base.Decimal.{show, stoi}
use libnunchuk.Types.{
  AddressType, any, legacy, nested_segwit, native_segwit, Chain, main, testnet, regtest, WalletType,
  single_sig, multi_sig, escrow, Result, ok, throw, invalid_address_type, invalid_parameter,
  std_exception,
}

unfoldable pub coin_type : Chain → ℤ
coin_type testnet = pos 1
coin_type _ = pos 0

-- "m/44h/%dh/%dh" and its like, by what stands before the first `%d`.
abbrev pub short_path : Text → ℤ → ℤ → Text
short_path purpose coin index = purpose ++ (show coin ++ (codes "h/" ++ (show index ++ codes "h")))

-- "m/48h/%dh/0h/%dh"
abbrev pub escrow_path : ℤ → ℤ → Text
escrow_path coin index =
    codes "m/48h/" ++ (show coin ++ (codes "h/0h/" ++ (show index ++ codes "h")))

unfoldable pub get_bip32_path : Chain → WalletType → AddressType → ℤ → Result Text
unfolding coin_type
get_bip32_path chain single_sig legacy index =
    ok (short_path (codes "m/44h/") (coin_type chain) index)
get_bip32_path chain single_sig nested_segwit index =
    ok (short_path (codes "m/49h/") (coin_type chain) index)
get_bip32_path chain single_sig native_segwit index =
    ok (short_path (codes "m/84h/") (coin_type chain) index)
get_bip32_path chain single_sig any index = throw invalid_address_type
get_bip32_path chain multi_sig address_type index =
    if eqb_ℤ index (pos 0)
    then throw invalid_parameter
    else ok (short_path (codes "m/48h/") (coin_type chain) index)
get_bip32_path chain escrow address_type index = ok (escrow_path (coin_type chain) index)

unfoldable pub get_bip32_type : WalletType → AddressType → Result Text
get_bip32_type single_sig legacy = ok (codes "bip44")
get_bip32_type single_sig nested_segwit = ok (codes "bip49")
get_bip32_type single_sig native_segwit = ok (codes "bip84")
get_bip32_type single_sig any = throw invalid_address_type
get_bip32_type multi_sig address_type = ok (codes "bip48")
get_bip32_type escrow address_type = ok (codes "escrow")

-- `path.substr(path.find_last_of("/") + 1)`; the whole path if there is no slash.
unfoldable pub after_slash : Text → Text → Text
after_slash found [] = found
after_slash found (c ∷ s) = after_slash (if c == b'/' then s else found) s

-- `std::stoi`, which throws where it reads no number of the type `int`.
abbrev pub number_or_throw : Option ℤ → Result ℤ
number_or_throw none = throw std_exception
number_or_throw (some n) = ok n

unfoldable pub get_index_from_path : Text → Result ℤ
unfolding after_slash
get_index_from_path path = number_or_throw (stoi (after_slash path path))
