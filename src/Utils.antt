-- ===== src/Utils.antt =====
-- Utils of src/nunchukutils.cpp: amounts as texts and back, ranges, and the texts that are checked
-- by Bitcoin Core.
pub mod Numeral
mod Money
mod Prefix
mod Tests
use libnunchuk.Base.{
  ℕ, ◌+◌, ◌-◌, ◌/◌, ◌%◌, List, [], ◌∷◌, ◌++◌, Option, none, some, ◌==◌, Bool, true, false, not,
  ◌&&◌, map, if◌then◌else◌, zero, suc,
}
use libnunchuk.Base.Int.{ℤ, pos, negsuc, neg_part, pos_part, leb_ℤ, ltb_ℤ}
use libnunchuk.Base.Lists.{length}
use libnunchuk.Base.Text.{Text, codes, text_eq}
use libnunchuk.Base.Decimal.{show_ℕ}
use libnunchuk.Types.{
  Amount, Result, ok, throw, ◌>>=◌, invalid_amount, amount_out_of_range, invalid_parameter,
}

-- What Utils takes from Bitcoin Core: COIN and MAX_MONEY of amount.h, and calls of key_io.h,
-- base58.h, util/bip32.h and util/strencodings.h. A call that fails answers `none`.
pub record Core : Type 0 where
  pub coin : ℕ
  pub max_money : ℕ
  pub parse_fixed_point : Text → ℕ → Option ℤ
  pub decode_base58_check : Text → ℕ → Option (List ℕ)
  pub encode_base58_check : List ℕ → Text
  pub is_hex : Text → Bool
  pub parse_hex : Text → List ℕ
  pub parse_hd_keypath : Text → Option (List ℕ)

unfoldable pub zeros : ℕ → Text
zeros zero = []
zeros (suc n) = b'0' ∷ zeros n

-- `%08d` of a number that is not negative
unfoldable pub pad_8 : ℕ → Text
unfolding zeros
pad_8 n = zeros (8 - length (show_ℕ n)) ++ show_ℕ n

-- std::replace of `h` by a quote
abbrev pub quote_h : ℕ → ℕ
quote_h c = if c == b'h' then b'\'' else c

-- VERSION_PREFIXES
abbrev pub version_prefixes : List (Text × List ℕ)
version_prefixes =
    (codes "xpub", 4 ∷ 136 ∷ 178 ∷ 30 ∷ [])
    ∷ (codes "ypub", 4 ∷ 157 ∷ 124 ∷ 178 ∷ [])
    ∷ (codes "Ypub", 2 ∷ 149 ∷ 180 ∷ 63 ∷ [])
    ∷ (codes "zpub", 4 ∷ 178 ∷ 71 ∷ 70 ∷ [])
    ∷ (codes "Zpub", 2 ∷ 170 ∷ 126 ∷ 211 ∷ [])
    ∷ (codes "tpub", 4 ∷ 53 ∷ 135 ∷ 207 ∷ [])
    ∷ (codes "upub", 4 ∷ 74 ∷ 82 ∷ 98 ∷ [])
    ∷ (codes "Upub", 2 ∷ 66 ∷ 137 ∷ 239 ∷ [])
    ∷ (codes "vpub", 4 ∷ 95 ∷ 28 ∷ 246 ∷ [])
    ∷ (codes "Vpub", 2 ∷ 87 ∷ 84 ∷ 131 ∷ [])
    ∷ []

-- The bytes of a prefix written over the first bytes of a key: std::copy. On a key shorter than the
-- prefix the code writes behind its end, which C++ leaves undefined; here the rest is dropped.
unfoldable pub copy_over : List ℕ → List ℕ → List ℕ
copy_over [] bytes = bytes
copy_over (p ∷ ps) [] = []
copy_over (p ∷ ps) (c ∷ bytes) = p ∷ copy_over ps bytes

unfoldable pub find_prefix : Text → List (Text × List ℕ) → Option (List ℕ)
find_prefix name [] = none
find_prefix name ((n, bytes) ∷ rest) = if text_eq n name then some bytes else find_prefix name rest

module _ (core : Core) where
  -- The key with the bytes of the prefix that was found.
  abbrev pub with_prefix : List ℕ → Option (List ℕ) → Result Text
  with_prefix bytes none = throw invalid_parameter
  with_prefix bytes (some prefix) = ok (core.encode_base58_check (copy_over prefix bytes))

  unfoldable pub sanitize_bip32_input : Text → Text → Result Text
  unfolding find_prefix
  sanitize_bip32_input input format = elim (core.decode_base58_check input 78) [
    | none ↦ throw invalid_parameter
    | some bytes ↦ with_prefix bytes (find_prefix format version_prefixes)
  ]

  unfoldable pub is_valid_finger_print : Text → Bool
  is_valid_finger_print value = core.is_hex value && (length (core.parse_hex value) == 4)

  unfoldable pub is_valid_derivation_path : Text → Bool
  is_valid_derivation_path value = elim (core.parse_hd_keypath (map quote_h value)) [
    | none ↦ false
    | some _ ↦ true
  ]

  unfoldable pub money_range : Amount → Bool
  money_range value = leb_ℤ (pos 0) value && leb_ℤ value (pos core.max_money)

  -- `abs`
  abbrev pub magnitude : ℤ → ℕ
  magnitude a = pos_part a + neg_part a

  -- The test of the range, for an amount that was read.
  unfoldable pub checked_amount : Bool → Amount → Result Amount
  unfolding money_range
  checked_amount allow_negative amount =
      if not allow_negative
      then (if not (money_range amount) then throw amount_out_of_range else ok amount)
      else if ltb_ℤ (pos core.max_money) (pos (magnitude amount))
      then throw amount_out_of_range
      else ok amount

  unfoldable pub amount_from_value : Text → Bool → Result Amount
  unfolding checked_amount
  amount_from_value value allow_negative = elim (core.parse_fixed_point value 8) [
    | none ↦ throw invalid_amount
    | some amount ↦ checked_amount allow_negative amount
  ]

  abbrev pub minus_sign : ℤ → Text
  minus_sign a = if ltb_ℤ a (pos 0) then codes "-" else []

  unfoldable pub value_from_amount : Amount → Text
  unfolding pad_8
  value_from_amount amount =
      minus_sign amount
      ++ (show_ℕ (magnitude amount / core.coin) ++ (b'.' ∷ pad_8 (magnitude amount % core.coin)))
