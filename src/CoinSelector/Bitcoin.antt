-- ===== src/CoinSelector/Bitcoin.antt =====
-- What src/coinselector.cpp uses of Bitcoin Core (a submodule): its types, and the functions on
-- them, as a record. The classes keep the fields that the selector reads or writes.
use libnunchuk.Base.{ℕ, List, Bool}
use libnunchuk.Base.Int.{ℤ}
use libnunchuk.Base.Text.{Text}

-- CInputCoin: `hash` and `n` are its outpoint, `value` is `txout.nValue`.
pub record Coin (H : Type 0) : Type 0 where
  pub hash : H
  pub n : ℕ
  pub value : ℤ
  pub m_input_bytes : ℤ

-- OutputGroup: `rest` stands for the fields that the selector does not touch.
pub record OutputGroup (H G : Type 0) : Type 0 where
  pub m_outputs : List (Coin H)
  pub fee : ℤ
  pub long_term_fee : ℤ
  pub effective_value : ℤ
  pub rest : G

-- CoinEligibilityFilter, by its two constructors.
pub data Filter : Type 0 where
  three : ℕ → ℕ → ℕ → Filter
  four : ℕ → ℕ → ℕ → ℕ → Filter

pub record TxIn (H S W : Type 0) : Type 0 where
  pub hash : H
  pub n : ℕ
  pub script_sig : S
  pub script_witness : W

pub record TxOut (S : Type 0) : Type 0 where
  pub n_value : ℤ
  pub script_pub_key : S

-- What a solver returns: whether it found a selection, the selected coins and their value.
pub record Found (H : Type 0) : Type 0 where
  pub found : Bool
  pub coins : List (Coin H)
  pub value : ℤ

pub record Bitcoin : Type 1 where
  pub Hash : Type 0
  pub Rest : Type 0
  pub Script : Type 0
  pub Witness : Type 0
  pub FeeRate : Type 0
  -- the state of the random generator of the knapsack solver
  pub Rng : Type 0
  pub uint256_s : Text → Hash
  pub get_hex : Hash → Text
  -- CInputCoin's `operator<`, which orders std::set<CInputCoin>
  pub coin_lt : Coin Hash → Coin Hash → Bool
  -- the coin of output 0 of a transaction with one output of this amount
  pub make_coin : ℤ → Coin Hash
  pub make_group : Coin Hash → ℤ → Bool → ℕ → ℕ → OutputGroup Hash Rest
  pub discard : OutputGroup Hash Rest → Coin Hash → OutputGroup Hash Rest
  pub eligible_for_spending : OutputGroup Hash Rest → Filter → Bool
  -- GetScriptForDestination(DecodeDestination(address))
  pub script_for : Text → Script
  pub empty_script : Script
  pub empty_witness : Witness
  pub get_fee : FeeRate → ℕ → ℤ
  pub is_dust : TxOut Script → FeeRate → Bool
  pub serialize_size : TxOut Script → ℕ
  pub virtual_size : List (TxIn Hash Script Witness) → List (TxOut Script) → ℤ
  -- the pool, the target, the cost of change, the fees of what is no input
  pub select_coins_bnb : List (OutputGroup Hash Rest) → ℤ → ℤ → ℤ → Found Hash
  pub knapsack_solver : Rng → ℤ → List (OutputGroup Hash Rest) → Found Hash
  pub next_rng : Rng → ℤ → List (OutputGroup Hash Rest) → Rng
