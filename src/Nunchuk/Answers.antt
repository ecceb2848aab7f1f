-- ===== src/Nunchuk/Answers.antt =====
-- What the searches of src/nunchukimpl.cpp ask of the calls that they make.
use libnunchuk.Base.{ℕ, ◌≤◌, ◌<◌, ◌≡◌, ◌⊎◌, inl, inr, Bool, false, arith, Bool-cases, leb}
use libnunchuk.Base.Text.{Text}
use libnunchuk.Types.{Exception, ok, throw}
use libnunchuk.Nunchuk.{Calls}

-- Where LookAhead answers, it tells whether the address of the index is used, and no index from a
-- bound on is.
pub record Answers {S : Type 0} (calls : Calls S) (used : ℕ → Bool) (bound : ℕ) : Type 0 where
  pub looks :
      (i : ℕ) (s t : S) (b : Bool)
      → calls.look_ahead (calls.derive_address i) i s ≡ ok (b, t)
      → b ≡ used i
  pub ends : (i : ℕ) → bound ≤ i → used i ≡ false

-- An exception of LookAhead or of AddAddress.
abbrev pub Thrown : {S : Type 0} → Calls S → Exception → Type 0
Thrown {S} calls e =
    ((a : Text) × (i : ℕ) × (s : S) × (calls.look_ahead a i s ≡ throw e))
    ⊎ ((a : Text) × (i : ℕ) × (s : S) × (calls.add_address a i s ≡ throw e))

pub le_or_lt : (m n : ℕ) → (m ≤ n) ⊎ (n < m)
le_or_lt m n = elim (Bool-cases (leb m n)) [
  | inl e ↦ inl (ground arith)
  | inr e ↦ inr (ground arith)
]
