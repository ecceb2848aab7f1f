-- ===== src/Base/Decimal.antt =====
-- Decimal numerals: `%d` of `boost::format` and `std::stoi`, both of the C++ library's documentation.
use libnunchuk.Base.{
  ℕ, zero, suc, ◌+◌, ◌-◌, ◌*◌, ◌/◌, ◌%◌, ◌^◌, ◌<◌, ◌≡◌, refl, ap, ◌∙◌, [], ◌∷◌, ◌++◌, Option, none,
  some, Bool, true, false, ◌&&◌, ◌||◌, arith, ltb, leb, ◌==◌, if◌then◌else◌, inl, inr, Bool-cases,
}
use libnunchuk.Base.Int.{ℤ, pos, negsuc, sub_ℕ, ◌≤ℤ◌, leb_ℤ}
use libnunchuk.Base.Lists.{All, All-append}
use libnunchuk.Base.Text.{Text, codes}
use mathlib.Core.List.{append_assoc}

abbrev pub is_digit : ℕ → Bool
is_digit c = leb b'0' c && leb c b'9'

abbrev pub IsDigit : ℕ → Type 0
IsDigit c = is_digit c ≡ true

-- The digits of `n`, last digit last; a fuel above `n` is enough.
unfoldable pub digits : ℕ → ℕ → Text
digits zero n = []
digits (suc fuel) n = elim (ltb n 10) [
  | true ↦ (b'0' + n) ∷ []
  | false ↦ digits fuel (n / 10) ++ (b'0' + n % 10) ∷ []
]

unfoldable pub show_ℕ : ℕ → Text
unfolding digits
show_ℕ n = digits (suc n) n

-- `%d`
unfoldable pub show : ℤ → Text
show (pos n) = show_ℕ n
show (negsuc n) = b'-' ∷ show_ℕ (suc n)

-- The number that the leading digits spell behind `n`.
unfoldable pub read_digits : ℕ → Text → ℕ
read_digits n [] = n
read_digits n (c ∷ s) = elim (is_digit c) [ true ↦ read_digits (n * 10 + (c - b'0')) s | false ↦ n ]

unfoldable pub starts_digit : Text → Bool
starts_digit [] = false
starts_digit (c ∷ s) = is_digit c

abbrev pub int_max : ℤ
int_max = pos (2 ^ 31 - 1)

abbrev pub int_min : ℤ
int_min = negsuc (2 ^ 31 - 1)

-- A value of the type `int`.
abbrev pub IsInt : ℤ → Type 0
IsInt z = (int_min ≤ℤ z) × (z ≤ℤ int_max)

unfoldable pub in_int : ℤ → Option ℤ
in_int z = if leb_ℤ int_min z && leb_ℤ z int_max then some z else none

-- `std::stoi` behind the white space: no digits and a value outside `int` throw.
unfoldable pub read_unsigned : Text → Option ℤ
unfolding in_int starts_digit read_digits
read_unsigned s = if starts_digit s then in_int (pos (read_digits 0 s)) else none

unfoldable pub read_signed : Text → Option ℤ
unfolding read_unsigned
read_signed [] = none
read_signed (c ∷ s) =
    if c == b'-'
    then (if starts_digit s then in_int (sub_ℕ 0 (read_digits 0 s)) else none)
    else if c == b'+'
    then read_unsigned s
    else read_unsigned (c ∷ s)

unfoldable pub is_space : ℕ → Bool
is_space c = (c == 32) || (leb 9 c && leb c 13)

unfoldable pub skip_space : Text → Text
unfolding is_space
skip_space [] = []
skip_space (c ∷ s) = if is_space c then skip_space s else c ∷ s

unfoldable pub stoi : Text → Option ℤ
stoi s = read_signed (skip_space s)

stoi_runs : (stoi (codes " -17h") ≡ some (negsuc 16)) × (stoi (codes "h7") ≡ none)
unfolding stoi skip_space read_signed
stoi_runs = (refl, refl)

show_runs : (show (pos 2048) ≡ codes "2048") × (show (negsuc 16) ≡ codes "-17")
unfolding show show_ℕ
show_runs = (refl, refl)

abbrev pub NoDigit : Text → Type 0
NoDigit rest = starts_digit rest ≡ false

read_digits_stop : (n : ℕ) (rest : Text) → NoDigit rest → read_digits n rest ≡ n
unfolding starts_digit read_digits
read_digits_stop n [] h = refl
read_digits_stop n (c ∷ s) h = rw (h, read_digits)

pub digits_small : (fuel m : ℕ) → ltb m 10 ≡ true → digits (suc fuel) m ≡ (b'0' + m) ∷ []
unfolding digits
digits_small fuel m h = rw (h, digits)

pub digits_large :
    (fuel m : ℕ)
    → ltb m 10 ≡ false
    → digits (suc fuel) m ≡ digits fuel (m / 10) ++ (b'0' + m % 10) ∷ []
unfolding digits
digits_large fuel m h = rw (h, digits)

read_digits_step :
    (n d : ℕ) (s : Text) → d < 10 → read_digits n ((b'0' + d) ∷ s) ≡ read_digits (n * 10 + d) s
unfolding read_digits
read_digits_step n d s h =
    let digit : is_digit (b'0' + d) ≡ true = ground arith in
    let value : n * 10 + (b'0' + d - b'0') ≡ n * 10 + d = omega arith in
    rw (digit, read_digits) (rw value)

-- Reading the digits of `m` from 0 gives `m`, and reading goes on behind them.
read_digits-digits :
    (fuel m : ℕ) (rest : Text)
    → m < fuel
    → read_digits 0 (digits fuel m ++ rest) ≡ read_digits m rest
read_digits-digits zero m rest h = elim h [ ]
read_digits-digits (suc fuel) m rest h = elim (Bool-cases (ltb m 10)) [
  | inl e ↦
      let start : 0 * 10 + m ≡ m = omega arith in
      rw (digits_small fuel m e)
        (read_digits_step 0 m rest (ground arith) ∙ ap (λ k. read_digits k rest) start)
  | inr e ↦
      let back : m / 10 * 10 + m % 10 ≡ m = omega arith in
      rw (digits_large fuel m e, append_assoc)
        (read_digits-digits fuel (m / 10) _ (ground arith)
          ∙ read_digits_step (m / 10) (m % 10) rest (omega arith)
          ∙ ap (λ k. read_digits k rest) back)
]

starts_digit-digits :
    (fuel m : ℕ) (rest : Text) → m < fuel → starts_digit (digits fuel m ++ rest) ≡ true
starts_digit-digits zero m rest h = elim h [ ]
starts_digit-digits (suc fuel) m rest h = elim (Bool-cases (ltb m 10)) [
  | inl e ↦ rw (digits_small fuel m e) (unfold starts_digit in ground arith)
  | inr e ↦
      rw (digits_large fuel m e, append_assoc) (starts_digit-digits fuel (m / 10) _ (ground arith))
]

-- No white space and no sign is a digit.
skip_space-digit : (s : Text) → starts_digit s ≡ true → skip_space s ≡ s
unfolding skip_space starts_digit
skip_space-digit [] h = refl
skip_space-digit (c ∷ s) h = ground arith

read_signed-digit :
    (s : Text) → starts_digit s ≡ true → read_signed s ≡ in_int (pos (read_digits 0 s))
unfolding read_signed starts_digit
read_signed-digit [] h = cc
read_signed-digit (c ∷ s) h = ground arith

in_int_lem : (z : ℤ) → IsInt z → in_int z ≡ some z
unfolding in_int
in_int_lem z h = ground arith

read_signed-minus :
    (s : Text) → starts_digit s ≡ true → read_signed (b'-' ∷ s) ≡ in_int (sub_ℕ 0 (read_digits 0 s))
unfolding read_signed
read_signed-minus s h = rw h

stoi-digit : (s : Text) → starts_digit s ≡ true → stoi s ≡ in_int (pos (read_digits 0 s))
unfolding stoi
stoi-digit s h = rw (skip_space-digit s h) (read_signed-digit s h)

stoi-minus :
    (s : Text) → starts_digit s ≡ true → stoi (b'-' ∷ s) ≡ in_int (sub_ℕ 0 (read_digits 0 s))
unfolding stoi skip_space
stoi-minus s h = read_signed-minus s h

pub read_back :
    (n : ℕ) (rest : Text)
    → NoDigit rest
    → (starts_digit (show_ℕ n ++ rest) ≡ true) × (read_digits 0 (show_ℕ n ++ rest) ≡ n)
unfolding show_ℕ
read_back n rest stop = (
  starts_digit-digits (suc n) n rest (omega arith),
  read_digits-digits (suc n) n rest (omega arith) ∙ read_digits_stop n rest stop,
)

-- `std::stoi` reads back what `%d` prints, whatever stands behind it but a digit.
pub stoi-show : (z : ℤ) (rest : Text) → IsInt z → NoDigit rest → stoi (show z ++ rest) ≡ some z
unfolding show
stoi-show (pos n) rest h stop =
    let (first, value) = read_back n rest stop in
    stoi-digit _ first ∙ ap (λ k. in_int (pos k)) value ∙ in_int_lem (pos n) h
stoi-show (negsuc n) rest h stop =
    let (first, value) = read_back (suc n) rest stop in
    let minus : sub_ℕ 0 (suc n) ≡ negsuc n = ground arith in
    stoi-minus _ first
    ∙ ap (λ k. in_int (sub_ℕ 0 k)) value
    ∙ ap in_int minus
    ∙ in_int_lem (negsuc n) h

abbrev pub NoSlash : ℕ → Type 0
NoSlash c = (c == b'/') ≡ false

digits-NoSlash : (fuel n : ℕ) → All NoSlash (digits fuel n)
unfolding digits
digits-NoSlash zero n = tt
digits-NoSlash (suc fuel) n = elim (Bool-cases (ltb n 10)) [
  | inl e ↦ rw (digits_small fuel n e) (ground arith, tt)
  | inr e ↦ rw (digits_large fuel n e) (
      All-append NoSlash (digits fuel (n / 10)) _ (digits-NoSlash fuel (n / 10)) (ground arith, tt))
]

-- There is no slash in a decimal numeral.
pub show-NoSlash : (z : ℤ) → All NoSlash (show z)
unfolding show show_ℕ
show-NoSlash (pos n) = digits-NoSlash (suc n) n
show-NoSlash (negsuc n) = (refl, digits-NoSlash (suc (suc n)) (suc n))
