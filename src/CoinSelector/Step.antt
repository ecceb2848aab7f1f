-- ===== src/CoinSelector/Step.antt =====
-- How a pass of the loop of CoinSelector::Select ends, and the variables that the passes share.
use libnunchuk.Base.{List, Bool}
use libnunchuk.Base.Int.{ℤ}
use libnunchuk.CoinSelector.Bitcoin.{Coin, Bitcoin}

-- The texts that Select writes to `error`.
pub data Error : Type 0 where
  -- "Transaction amounts must not be negative"
  negative_amount : Error
  -- "Transaction must have at least one recipient"
  no_recipient : Error
  -- "The transaction amount is too small to pay the fee"
  too_small_to_pay_fee : Error
  -- "The transaction amount is too small to send after the fee has been deducted"
  too_small_after_fee : Error
  -- "Transaction amount too small"
  too_small : Error
  -- "Insufficient funds"
  insufficient_funds : Error
  -- "Signing transaction failed"
  signing_failed : Error
  -- "Transaction fee and change calculation failed"
  fee_calculation_failed : Error

-- The variables that live across the passes: nFeeRet, pick_new_inputs, use_bnb, setCoins, nValueIn.
pub record Loop (b : Bitcoin) : Type 0 where
  pub fee : ℤ
  pub pick_new_inputs : Bool
  pub use_bnb : Bool
  pub coins : List (Coin (b.Hash))
  pub value_in : ℤ
  pub rng : b.Rng

-- `continue` is `retry`, `return false` is `failed`; `next` goes on, and ends the loop at its end.
pub data Step (b : Bitcoin) (A : Type 0) : Type 0 where
  next : A → Step b A
  retry : Loop b → Step b A
  failed : Error → Step b A

infixl 5 ◌>>=◌
abbrev pub ◌>>=◌ : {b : Bitcoin} {A B : Type 0} → Step b A → (A → Step b B) → Step b B
next a >>= f = f a
retry s >>= f = retry s
failed e >>= f = failed e

-- What holds of the value of a step that goes on, and of the state of one that starts again.
abbrev pub After : {b : Bitcoin} {A : Type 0} → (A → Type 0) → (Loop b → Type 0) → Step b A → Type 0
After P R (next a) = P a
After P R (retry s) = R s
After P R (failed e) = Unit

pub After->>= :
    {b : Bitcoin} {A B : Type 0} (P : A → Type 0) (Q : B → Type 0) (R : Loop b → Type 0)
    (m : Step b A) (f : A → Step b B)
    → After P R m
    → ((a : A) → P a → After Q R (f a))
    → After Q R (m >>= f)
After->>= P Q R (next a) f h k = k a h
After->>= P Q R (retry s) f h k = h
After->>= P Q R (failed e) f h k = tt

pub After-weaken :
    {b : Bitcoin} {A : Type 0} (P : A → Type 0) (R : Loop b → Type 0) (m : Step b A)
    → After P R m
    → After (λ a. Unit {0}) R m
After-weaken P R (next a) h = tt
After-weaken P R (retry s) h = h
After-weaken P R (failed e) h = tt
