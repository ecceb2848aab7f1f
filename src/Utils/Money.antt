-- ===== src/Utils/Money.antt =====
-- ValueFromAmount and AmountFromValue of src/nunchukutils.cpp, one after the other.
use libnunchuk.Base.{
  ℕ, ◌+◌, ◌*◌, ◌/◌, ◌%◌, ◌^◌, ◌<◌, ◌≡◌, refl, sym, ap, ◌∙◌, subst, [], ◌∷◌, ◌++◌, some, Bool, true,
  false, arith, ◌&&◌, if◌then◌else◌,
}
use libnunchuk.Base.Int.{ℤ, pos, negsuc, sub_ℕ, leb_ℤ, ltb_ℤ}
use libnunchuk.Base.Lists.{length, All}
use libnunchuk.Base.Text.{Text, codes}
use libnunchuk.Base.Decimal.{IsDigit, show_ℕ, read_digits}
use libnunchuk.Types.{Amount, ok, throw, amount_out_of_range}
use libnunchuk.Utils.{
  Core, pad_8, magnitude, money_range, checked_amount, amount_from_value, value_from_amount,
}
use libnunchuk.Utils.Numeral.{IsNumeral, show_ℕ-IsNumeral, read_digits-show_ℕ, pad_8-places}

-- The number with a sign.
abbrev pub signed : Bool → ℕ → ℤ
signed true n = sub_ℕ 0 n
signed false n = pos n

abbrev pub sign_text : Bool → Text
sign_text true = codes "-"
sign_text false = []

-- What Bitcoin Core documents: COIN is 10 ^ 8, MAX_MONEY is below 10 ^ 18, and ParseFixedPoint reads
-- a number in the syntax of JSON exactly, if its places are as many as asked for and it is below
-- 10 ^ 18.
pub record CoreLaws (core : Core) : Type 0 where
  pub coin_is : core.coin ≡ 10 ^ 8
  pub max_money_small : core.max_money < 10 ^ 18
  pub parses :
      (negative : Bool) (whole places : Text)
      → IsNumeral whole
      → All IsDigit places
      → length places ≡ 8
      → read_digits 0 whole * 10 ^ 8 + read_digits 0 places < 10 ^ 18
      → core.parse_fixed_point (sign_text negative ++ (whole ++ b'.' ∷ places)) 8
        ≡ some (signed negative (read_digits 0 whole * 10 ^ 8 + read_digits 0 places))

if_sign : (b : Bool) → (if b then codes "-" else []) ≡ sign_text b
if_sign true = refl
if_sign false = refl

signed-magnitude : (core : Core) (a : ℤ) → signed (ltb_ℤ a (pos 0)) (magnitude core a) ≡ a
signed-magnitude core (pos n) = ground arith
signed-magnitude core (negsuc n) = ground arith

-- The range of AmountFromValue, by bounds alone.
abbrev pub in_range : ℕ → Bool → Amount → Bool
in_range max_money allow_negative amount =
    leb_ℤ amount (pos max_money)
    && leb_ℤ (if allow_negative then sub_ℕ 0 max_money else pos 0) amount

checked_amount_lem :
    (core : Core) (allow_negative : Bool) (amount : Amount)
    → checked_amount core allow_negative amount ≡ (
        if in_range core.max_money allow_negative amount
        then ok amount
        else throw amount_out_of_range)
unfolding checked_amount money_range
checked_amount_lem core true (pos n) = ground arith
checked_amount_lem core true (negsuc n) = ground arith
checked_amount_lem core false (pos n) = ground arith
checked_amount_lem core false (negsuc n) = ground arith

-- The text of an amount, as the two numerals of its sign.
value_from_amount-parses :
    (core : Core)
    → CoreLaws core
    → (a : Amount) → magnitude core a < 10 ^ 18
    → core.parse_fixed_point (value_from_amount core a) 8 ≡ some a
unfolding value_from_amount
value_from_amount-parses core laws a small =
    let n = magnitude core a in
    let whole = n / 10 ^ 8 in
    let rest = n % 10 ^ 8 in
    let (width, places, value) = pad_8-places rest (omega arith) in
    let back : read_digits 0 (show_ℕ whole) * 10 ^ 8 + read_digits 0 (pad_8 rest) ≡ n =
      rw (read_digits-show_ℕ whole, value) (omega arith) in
    let parsed =
      laws.parses (ltb_ℤ a (pos 0)) (show_ℕ whole) (pad_8 rest) (show_ℕ-IsNumeral whole) places
        width (subst (λ k. k < 10 ^ 18) (sym back) small) in
    rw (laws.coin_is, if_sign (ltb_ℤ a (pos 0)))
      (parsed
        ∙ ap (λ k. some (signed (ltb_ℤ a (pos 0)) k)) back
        ∙ ap some (signed-magnitude core a))

-- AmountFromValue reads back what ValueFromAmount writes of an amount below 10 ^ 18 in size, and it
-- gives the amount just where it lies from 0, or with negative amounts allowed from -MAX_MONEY, to
-- MAX_MONEY; everywhere else it throws that the amount is out of range.
pub amount_from_value-value_from_amount :
    (core : Core)
    → CoreLaws core
    → (a : Amount) (allow_negative : Bool) → magnitude core a < 10 ^ 18
    → amount_from_value core (value_from_amount core a) allow_negative
      ≡ (if in_range core.max_money allow_negative a then ok a else throw amount_out_of_range)
unfolding amount_from_value
amount_from_value-value_from_amount core laws a allow_negative small =
    rw (amount_from_value, value_from_amount-parses core laws a small)
      (checked_amount_lem core allow_negative a)
