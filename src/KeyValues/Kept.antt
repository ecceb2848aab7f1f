-- ===== src/KeyValues/Kept.antt =====
-- What is put under a key in src/storage.cpp is what is read there.
use libnunchuk.Base.{
  ℕ, ◌≡◌, ◌≢◌, refl, ap, ◌∙◌, List, [], ◌∷◌, some, ◌==◌, false, arith, Bool-cases, inl, inr,
}
use libnunchuk.Base.Int.{ℤ}
use libnunchuk.Base.Lists.{All}
use libnunchuk.Base.Text.{Text, NotZero, c_string-whole}
use libnunchuk.KeyValues.{
  put_value, find_value, string_or_empty, int_or_zero, put_string, get_string, put_int, get_int,
}

module _ {A : Type 0} where
  find-put :
      (key : ℕ) (value : A) (rows : List (ℕ × A))
      → find_value key (put_value key value rows) ≡ some value
  unfolding find_value put_value
  find-put key value [] = grind arith
  find-put key value ((k, v) ∷ rows) = elim (Bool-cases (k == key)) [
    | inl e ↦ rw (e, e) refl
    | inr e ↦ rw (e, e) (find-put key value rows)
  ]

  find-put_other :
      (key j : ℕ) (value : A) (rows : List (ℕ × A))
      → j ≢ key
      → find_value j (put_value key value rows) ≡ find_value j rows
  unfolding find_value put_value
  find-put_other key j value [] d = let other : (key == j) ≡ false = ground arith in rw other refl
  find-put_other key j value ((k, v) ∷ rows) d = elim (Bool-cases (k == key)) [
    | inl e ↦ let other : (k == j) ≡ false = ground arith in rw (e, other) refl
    | inr e ↦ rw (e, find-put_other key j value rows d) refl
  ]

-- A text without a zero byte, and an integer, that are put under a key are what is then read there,
-- whether the key was there before or not, and what is read under every other key stays.
pub put_string-get_string :
    (key : ℕ) (value : Text) (n : ℤ) (texts : List (ℕ × Text)) (ints : List (ℕ × ℤ))
    → All NotZero value
    → (get_string key (put_string key value texts).1 ≡ value)
      × (get_int key (put_int key n ints).1 ≡ n)
      × ((j : ℕ)
          → j ≢ key
          → (get_string j (put_string key value texts).1 ≡ get_string j texts)
            × (get_int j (put_int key n ints).1 ≡ get_int j ints))
unfolding put_string get_string put_int get_int
put_string-get_string key value n texts ints h = (
  ap string_or_empty (find-put key value texts) ∙ c_string-whole value h,
  ap int_or_zero (find-put key n ints),
  λ j d. (
    ap string_or_empty (find-put_other key j value texts d),
    ap int_or_zero (find-put_other key j n ints d),
  ),
)
