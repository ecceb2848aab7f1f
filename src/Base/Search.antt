-- ===== src/Base/Search.antt =====
-- Finding parts of a text: `find`, `substr` and `rfind` of std::string.
use libnunchuk.Base.{
  ℕ, ◌+◌, leb, ◌&&◌, ◌≡◌, refl, ap, ◌∙◌, List, [], ◌∷◌, ◌++◌, Option, none, some, ◌==◌, ==_iff,
  Bool, true, false, arith, Bool-cases, inl, inr, if◌then◌else◌,
}
use libnunchuk.Base.Text.{Text}

abbrev pub is_empty {ℓ} : {A : Type ℓ} → List A → Bool
is_empty [] = true
is_empty (c ∷ s) = false

-- A letter of ASCII made small, as boost does it.
abbrev pub lower : ℕ → ℕ
lower c = if leb b'A' c && leb c b'Z' then c + 32 else c

-- What stands behind a prefix.
unfoldable pub behind_prefix : Text → Text → Option Text
behind_prefix [] s = some s
behind_prefix (p ∷ ps) [] = none
behind_prefix (p ∷ ps) (c ∷ s) = let rest = behind_prefix ps s in if p == c then rest else none

-- The text up to a character, or all of it, and the text behind it, or none.
unfoldable pub up_to : ℕ → Text → Text
up_to d [] = []
up_to d (c ∷ s) = if c == d then [] else c ∷ up_to d s

unfoldable pub behind : ℕ → Text → Option Text
behind d [] = none
behind d (c ∷ s) = if c == d then some s else behind d s

-- The text around the first such character.
pub up_to-behind : (d : ℕ) (s t : Text) → behind d s ≡ some t → s ≡ up_to d s ++ d ∷ t
unfolding up_to behind
up_to-behind d [] t e = cc
up_to-behind d (c ∷ s) t e = elim (Bool-cases (c == d)) [
  | inl same ↦
      let is_sep : c ≡ d = (==_iff c d).0 same in
      let back : s ≡ t = ground (arith, same) in
      rw same (ap (λ x. x ∷ s) is_sep ∙ ap (λ x. d ∷ x) back)
  | inr differ ↦ ground (arith, up_to-behind d s t)
]

pub up_to-missing : (d : ℕ) (s : Text) → behind d s ≡ none → s ≡ up_to d s
unfolding up_to behind
up_to-missing d [] e = refl
up_to-missing d (c ∷ s) e = ground (arith, up_to-missing d s)
