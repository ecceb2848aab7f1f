-- ===== src/Base/Text.antt =====
-- Byte strings (`std::string`) as lists of numbers.
use Prim.Native.Char.{code}
use Prim.Native.String.{String}
use libnunchuk.Base.{
  ℕ, List, [], ◌∷◌, ◌≡◌, ◌↔◌, refl, ap, if◌then◌else◌, Bool, true, false, ◌&&◌, ◌==◌, arith,
}
use libnunchuk.Base.Lists.{All}

abbrev pub Text : Type 0
Text = List ℕ

-- The bytes of an ASCII literal.
abbrev pub codes : String → Text
codes String.[] = []
codes (String.◌∷◌ c s) = code c ∷ codes s

unfoldable pub text_eq : Text → Text → Bool
text_eq [] [] = true
text_eq [] (y ∷ ys) = false
text_eq (x ∷ xs) [] = false
text_eq (x ∷ xs) (y ∷ ys) = (x == y) && text_eq xs ys

pub text_eq_iff : (s t : Text) → (text_eq s t ≡ true) ↔ (s ≡ t)
unfolding text_eq
text_eq_iff [] [] = ground arith
text_eq_iff [] (y ∷ ys) = ground arith
text_eq_iff (x ∷ xs) [] = ground arith
text_eq_iff (x ∷ xs) (y ∷ ys) = ground (arith, text_eq_iff xs ys)

pub text_eq_refl : (s : Text) → text_eq s s ≡ true
text_eq_refl s = (text_eq_iff s s).1 refl

-- The string that `sqlite3_column_text` points to ends at the first zero.
unfoldable pub c_string : Text → Text
c_string [] = []
c_string (c ∷ s) = let rest = c_string s in if c == 0 then [] else c ∷ rest

abbrev pub NotZero : ℕ → Type 0
NotZero c = (c == 0) ≡ false

pub c_string-whole : (s : Text) → All NotZero s → c_string s ≡ s
unfolding c_string
c_string-whole [] h = refl
c_string-whole (c ∷ s) h = rw h.0 (ap (λ t. c ∷ t) (c_string-whole s h.1))
