-- ===== src/Utils/Numeral.antt =====
-- The numerals that amounts are written with: digits without a leading zero, and eight places.
use libnunchuk.Base.{
  ℕ, zero, suc, ◌+◌, ◌-◌, ◌*◌, ◌/◌, ◌%◌, ◌^◌, ◌≤◌, ◌<◌, ◌≡◌, refl, sym, ap, ◌∙◌, [], ◌∷◌, ◌++◌,
  Bool, true, false, arith, ltb, leb, ◌&&◌, ◌⊎◌, inl, inr, Bool-cases,
}
use libnunchuk.Base.Lists.{length, All, All-append, length-append}
use libnunchuk.Base.Text.{Text, codes}
use libnunchuk.Base.Decimal.{
  IsDigit, show_ℕ, digits, digits_small, digits_large, read_digits, read_back, starts_digit,
}
use libnunchuk.Utils.{zeros, pad_8}
use mathlib.Core.List.{append-nil}

-- The first character is a digit but 0.
abbrev starts_nonzero : Text → Bool
starts_nonzero [] = false
starts_nonzero (c ∷ s) = leb b'1' c && leb c b'9'

-- The integers of JSON: 0, or digits that do not start with 0.
abbrev pub IsNumeral : Text → Type 0
IsNumeral s = (s ≡ codes "0") ⊎ ((starts_nonzero s ≡ true) × All IsDigit s)

digits-IsDigit : (fuel n : ℕ) → All IsDigit (digits fuel n)
unfolding digits
digits-IsDigit zero n = tt
digits-IsDigit (suc fuel) n = elim (Bool-cases (ltb n 10)) [
  | inl e ↦ rw (digits_small fuel n e) (ground arith, tt)
  | inr e ↦ rw (digits_large fuel n e) (
      All-append IsDigit (digits fuel (n / 10)) _ (digits-IsDigit fuel (n / 10)) (ground arith, tt))
]

starts_nonzero-append : (s t : Text) → starts_nonzero s ≡ true → starts_nonzero (s ++ t) ≡ true
starts_nonzero-append [] t h = cc
starts_nonzero-append (c ∷ s) t h = h

starts_nonzero-digits : (fuel n : ℕ) → 0 < n → n < fuel → starts_nonzero (digits fuel n) ≡ true
starts_nonzero-digits zero n h k = elim k [ ]
starts_nonzero-digits (suc fuel) n h k = elim (Bool-cases (ltb n 10)) [
  | inl e ↦ rw (digits_small fuel n e) (ground arith)
  | inr e ↦ rw (digits_large fuel n e) (
      starts_nonzero-append (digits fuel (n / 10)) _
        (starts_nonzero-digits fuel (n / 10) (ground arith) (ground arith)))
]

pub show_ℕ-IsNumeral : (n : ℕ) → IsNumeral (show_ℕ n)
unfolding show_ℕ digits
show_ℕ-IsNumeral zero = inl refl
show_ℕ-IsNumeral (suc n) = inr (
  starts_nonzero-digits (suc (suc n)) (suc n) (omega arith) (omega arith),
  digits-IsDigit (suc (suc n)) (suc n),
)

-- A number below 10 ^ (k + 1) has at most k + 1 digits.
length-digits : (k fuel n : ℕ) → n < 10 ^ suc k → n < fuel → length (digits fuel n) ≤ suc k
length-digits k zero n h f = elim f [ ]
length-digits k (suc fuel) n h f = elim (Bool-cases (ltb n 10)) [
  | inl e ↦ rw (digits_small fuel n e) (omega arith)
  | inr e ↦ rw (digits_large fuel n e) (
      longer k n (digits fuel (n / 10)) h (ground arith)
        (λ j small. length-digits j fuel (n / 10) small (ground arith)))
]
  where
    longer :
        (k n : ℕ) (front : Text)
        → n < 10 ^ suc k
        → 10 ≤ n
        → ((j : ℕ) → n / 10 < 10 ^ suc j → length front ≤ suc j)
        → length (front ++ (b'0' + n % 10) ∷ []) ≤ suc k
    longer zero n front small large shorter = omega arith
    longer (suc k) n front small large shorter =
        let power : 10 ^ suc (suc k) ≡ 10 * 10 ^ suc k = omega arith in
        let front_short : length front ≤ suc k = shorter k (omega arith) in
        omega (arith, length-append front ((b'0' + n % 10) ∷ []))

length-zeros : (n : ℕ) → length (zeros n) ≡ n
unfolding zeros
length-zeros zero = refl
length-zeros (suc n) = ap suc (length-zeros n)

zeros-IsDigit : (n : ℕ) → All IsDigit (zeros n)
unfolding zeros
zeros-IsDigit zero = tt
zeros-IsDigit (suc n) = (refl, zeros-IsDigit n)

read_digits-zeros : (n : ℕ) (s : Text) → read_digits 0 (zeros n ++ s) ≡ read_digits 0 s
unfolding zeros read_digits
read_digits-zeros zero s = refl
read_digits-zeros (suc n) s = read_digits-zeros n s

no_digit_end : (starts_digit [] ≡ false)
unfolding starts_digit
no_digit_end = refl

pub read_digits-show_ℕ : (n : ℕ) → read_digits 0 (show_ℕ n) ≡ n
read_digits-show_ℕ n =
    ap (read_digits 0) (sym (append-nil (show_ℕ n))) ∙ (read_back n [] no_digit_end).1

-- A number below 10 ^ 8 takes eight places, which read as the number.
pub pad_8-places :
    (n : ℕ)
    → n < 10 ^ 8
    → (length (pad_8 n) ≡ 8) × All IsDigit (pad_8 n) × (read_digits 0 (pad_8 n) ≡ n)
unfolding pad_8 show_ℕ
pad_8-places n h =
    let short : length (show_ℕ n) ≤ 8 = length-digits 7 (suc n) n h (omega arith) in
    (
      omega (
        arith,
        length-append (zeros (8 - length (show_ℕ n))) (show_ℕ n),
        length-zeros (8 - length (show_ℕ n)),
      ),
      All-append IsDigit (zeros _) (show_ℕ n) (zeros-IsDigit _) (digits-IsDigit (suc n) n),
      read_digits-zeros _ (show_ℕ n) ∙ read_digits-show_ℕ n,
    )

pub show_ℕ-IsDigit : (n : ℕ) → All IsDigit (show_ℕ n)
unfolding show_ℕ
show_ℕ-IsDigit n = digits-IsDigit (suc n) n
