-- ===== src/KeyValues/Tests.antt =====
-- An example of the tables VSTR and VINT of src/storage.cpp.
use libnunchuk.Base.{ℕ, ◌≡◌, ◌≢◌, refl, List, [], ◌∷◌}
use libnunchuk.Base.Int.{pos}
use libnunchuk.Base.Text.{Text, codes}
use libnunchuk.KeyValues.{put_string, get_string, put_int, get_int}
use libnunchuk.KeyValues.Kept.{put_string-get_string}

abbrev example_texts : List (ℕ × Text)
example_texts = (1, codes "a") ∷ (2, codes "b") ∷ []

put_string-get_string_example :
    (get_string 2 (put_string 2 (codes "new") example_texts).1 ≡ codes "new")
    × (get_int 2 (put_int 2 (pos 7) []).1 ≡ pos 7)
    × ((j : ℕ)
        → j ≢ 2
        → (get_string j (put_string 2 (codes "new") example_texts).1 ≡ get_string j example_texts)
          × (get_int j (put_int 2 (pos 7) []).1 ≡ get_int j []))
put_string-get_string_example =
    put_string-get_string 2 (codes "new") (pos 7) example_texts [] (refl, (refl, (refl, tt)))
