-- ===== src/CoinSelector/Select.antt =====
-- CoinSelector::Select of src/coinselector.cpp: its loop, and what it returns.
use libnunchuk.Base.{ℕ, zero, suc, List, [], ◌∷◌, ◌++◌, map, Option, none, some, true}
use libnunchuk.Base.Int.{ℤ, pos}
use libnunchuk.Types.{TxInput, TxOutput}
use libnunchuk.CoinSelector.Bitcoin.{Coin, Bitcoin}
use libnunchuk.CoinSelector.Choose.{CoinSelector}
use libnunchuk.CoinSelector.Step.{
  Error, negative_amount, no_recipient, Loop, Step, next, retry, failed,
}
use libnunchuk.CoinSelector.Pay.{Request, add_amounts}
use libnunchuk.CoinSelector.Pass.{Built, pass}

module _ (b : Bitcoin) where
  open b use {Hash, Rng, get_hex}

  -- What Select leaves in its reference parameters; `coins` are the coins behind `vec_input`.
  pub record Selected : Type 0 where
    pub vec_send : List TxOutput
    pub vec_input : List TxInput
    pub fee : ℤ
    pub change_pos : ℤ
    pub coins : List (Coin Hash)

  -- `out_of_fuel` is the model's: the loop did not end within the fuel.
  pub data Outcome : Type 0 where
    success : Selected → Outcome
    error : Error → Outcome
    out_of_fuel : Outcome

  unfoldable pub first_pass : Rng → Loop b
  first_pass rng = record {
    fee = pos 0;
    pick_new_inputs = true;
    use_bnb = true;
    coins = [];
    value_in = pos 0;
    rng = rng;
  }

  unfoldable pub finish : Request → Built b → Selected
  finish q t = record {
    vec_send = t.vout;
    vec_input =
        q.vec_input
        ++ map (λ (x : Coin Hash). let i : TxInput = (get_hex x.hash, x.n) in i) t.loop.coins;
    fee = t.loop.fee;
    change_pos = t.change_pos;
    coins = t.loop.coins;
  }

  module _ (c : CoinSelector b) (q : Request) where
    -- The loop on fuel; `none` means that the fuel ran out.
    unfoldable pub run_passes : ℕ → ℤ → Loop b → Option (Step b (Built b))
    run_passes zero value s = none
    run_passes (suc fuel) value s = elim (pass b c q value s) [
      | next t ↦ some (next t)
      | retry s' ↦ run_passes fuel value s'
      | failed e ↦ some (failed e)
    ]

    unfoldable pub outcome : Option (Step b (Built b)) → Outcome
    outcome none = out_of_fuel
    outcome (some (next t)) = success (finish q t)
    outcome (some (retry s)) = out_of_fuel
    outcome (some (failed e)) = error e

    unfoldable pub run : ℕ → Rng → ℤ → Outcome
    run fuel rng value = outcome (run_passes fuel value (first_pass rng))

    -- The checks of the recipients: their sum, if no amount is negative, and that there are any.
    unfoldable pub checked : ℕ → Rng → Option ℤ → List TxOutput → Outcome
    checked fuel rng none rs = error negative_amount
    checked fuel rng (some value) [] = error no_recipient
    checked fuel rng (some value) (r ∷ rs) = run fuel rng value

    -- `fuel` bounds the passes of the loop.
    unfoldable pub select : ℕ → Rng → Outcome
    select fuel rng = checked fuel rng (add_amounts (pos 0) q.vec_send) q.vec_send
