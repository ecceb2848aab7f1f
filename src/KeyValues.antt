-- ===== src/KeyValues.antt =====
-- The tables VSTR and VINT of NunchukDb in src/storage.cpp, and what NunchukAppStateDb keeps in them.
mod Kept
mod Tests
use libnunchuk.Base.{
  ℕ, zero, suc, List, [], ◌∷◌, Option, none, some, ◌==◌, Bool, true, false, if◌then◌else◌,
}
use libnunchuk.Base.Int.{ℤ, pos}
use libnunchuk.Base.Text.{Text, c_string}

-- INSERT, or UPDATE where the key is there: one row changes.
unfoldable pub put_value {ℓ} : {A : Type ℓ} → ℕ → A → List (ℕ × A) → List (ℕ × A)
put_value key value [] = (key, value) ∷ []
put_value key value ((k, v) ∷ rows) =
    let rest = put_value key value rows in if k == key then (k, value) ∷ rows else (k, v) ∷ rest

unfoldable pub find_value {ℓ} : {A : Type ℓ} → ℕ → List (ℕ × A) → Option A
find_value key [] = none
find_value key ((k, v) ∷ rows) = let rest = find_value key rows in if k == key then some v else rest

abbrev pub string_or_empty : Option Text → Text
string_or_empty none = []
string_or_empty (some s) = c_string s

abbrev pub int_or_zero : Option ℤ → ℤ
int_or_zero none = pos 0
int_or_zero (some n) = n

unfoldable pub put_string : ℕ → Text → List (ℕ × Text) → Bool × List (ℕ × Text)
unfolding put_value
put_string key value rows = (true, put_value key value rows)

unfoldable pub put_int : ℕ → ℤ → List (ℕ × ℤ) → Bool × List (ℕ × ℤ)
unfolding put_value
put_int key value rows = (true, put_value key value rows)

unfoldable pub get_string : ℕ → List (ℕ × Text) → Text
unfolding find_value c_string
get_string key rows = string_or_empty (find_value key rows)

unfoldable pub get_int : ℕ → List (ℕ × ℤ) → ℤ
unfolding find_value
get_int key rows = int_or_zero (find_value key rows)
