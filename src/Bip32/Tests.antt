-- ===== src/Bip32/Tests.antt =====
-- The paths of the wallets, as tests/src/utils/bip32_test.cpp has them.
use libnunchuk.Base.{◌≡◌, refl, arith}
use libnunchuk.Base.Int.{pos}
use libnunchuk.Base.Text.{codes}
use libnunchuk.Base.Decimal.{show, show_ℕ}
use libnunchuk.Types.{
  any, legacy, native_segwit, main, testnet, regtest, single_sig, multi_sig, escrow, ok, throw,
  invalid_address_type, invalid_parameter,
}
use libnunchuk.Bip32.{
  coin_type, short_path, escrow_path, get_bip32_path, get_bip32_type, get_index_from_path,
}
use libnunchuk.Bip32.Path.{get_index_from_path-get_bip32_path}
use libnunchuk.Bip32.Apart.{path_apart}

path_runs :
    (get_bip32_path testnet single_sig legacy (pos 1) ≡ ok (codes "m/44h/1h/1h"))
    × (get_bip32_path regtest multi_sig any (pos 6) ≡ ok (codes "m/48h/0h/6h"))
    × (get_bip32_path main escrow any (pos 9) ≡ ok (codes "m/48h/0h/0h/9h"))
    × (get_bip32_path main single_sig any (pos 3) ≡ throw invalid_address_type)
    × (get_bip32_path main multi_sig any (pos 0) ≡ throw invalid_parameter)
unfolding get_bip32_path coin_type show show_ℕ
path_runs = (refl, refl, refl, refl, refl)

get_index_from_path-get_bip32_path_example :
    get_index_from_path (escrow_path (pos 1) (pos 12)) ≡ ok (pos 12)
unfolding get_bip32_path coin_type
get_index_from_path-get_bip32_path_example =
    get_index_from_path-get_bip32_path testnet escrow any (pos 12) (escrow_path (pos 1) (pos 12))
      (omega arith, omega arith) refl

path_apart_example :
    (get_bip32_type single_sig native_segwit ≡ get_bip32_type single_sig native_segwit)
    × (pos 7 ≡ pos 7)
unfolding get_bip32_path coin_type
path_apart_example =
    path_apart main regtest single_sig single_sig native_segwit native_segwit (pos 7) (pos 7)
      (short_path (codes "m/84h/") (pos 0) (pos 7)) (omega arith, omega arith)
      (omega arith, omega arith) refl refl
