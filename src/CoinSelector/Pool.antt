-- ===== src/CoinSelector/Pool.antt =====
-- GroupOutputs and the two branches of SelectCoinsMinConf: which groups the solvers may use.
use libnunchuk.Base.{ℕ, List, [], ◌∷◌, map, Bool, true, if◌then◌else◌}
use libnunchuk.Base.Int.{ℤ, pos, pos_part, ◌+ℤ◌, ◌-ℤ◌, ltb_ℤ}
use libnunchuk.Types.{UnspentOutput}
use libnunchuk.CoinSelector.Bitcoin.{Coin, OutputGroup, Filter, Bitcoin}

module _ (b : Bitcoin) where
  open b use {
    Hash, Rest, FeeRate, uint256_s, make_coin, make_group, discard, eligible_for_spending, get_fee,
  }

  abbrev pub Group : Type 0
  Group = OutputGroup Hash Rest

  pub record CoinSelectionParams : Type 0 where
    pub use_bnb : Bool
    pub change_output_size : ℕ
    pub change_spend_size : ℕ
    pub effective_fee : FeeRate
    pub tx_noinputs_size : ℕ
    pub m_subtract_fee_outputs : Bool

  -- The coin of an unspent output: the outpoint is written over that of the dummy transaction.
  unfoldable pub input_coin : UnspentOutput → Coin Hash
  input_coin o = record (make_coin o.amount) { hash = uint256_s o.txid; n = o.vout }

  -- `max_ancestors` is not read.
  unfoldable pub group_outputs : List UnspentOutput → ℕ → List Group
  unfolding input_coin
  group_outputs outputs max_ancestors =
      map (λ o. make_group (input_coin o) o.height true 0 0) outputs

  -- The fee of spending a coin: none if its size is not known.
  unfoldable pub input_fee : FeeRate → Coin Hash → ℤ
  input_fee rate coin =
      if ltb_ℤ coin.m_input_bytes (pos 0) then pos 0 else get_fee rate (pos_part coin.m_input_bytes)

  -- One round of the loop over the coins of a group.
  unfoldable pub weigh_coin : FeeRate → CoinSelectionParams → Coin Hash → Group → Group
  unfolding input_fee
  weigh_coin long_term params coin g =
      let effective = coin.value -ℤ input_fee params.effective_fee coin in
      if ltb_ℤ (pos 0) effective
      then record g {
        fee = g.fee +ℤ input_fee params.effective_fee coin;
        long_term_fee = g.long_term_fee +ℤ input_fee long_term coin;
        effective_value =
            g.effective_value +ℤ (if params.m_subtract_fee_outputs then coin.value else effective);
      }
      else discard g coin

  unfoldable pub weigh_coins : FeeRate → CoinSelectionParams → List (Coin Hash) → Group → Group
  unfolding weigh_coin
  weigh_coins long_term params [] g = g
  weigh_coins long_term params (c ∷ cs) g =
      weigh_coins long_term params cs (weigh_coin long_term params c g)

  unfoldable pub weigh_group : FeeRate → CoinSelectionParams → Group → Group
  unfolding weigh_coins
  weigh_group long_term params g =
      weigh_coins long_term params g.m_outputs
        (record g { fee = pos 0; long_term_fee = pos 0; effective_value = pos 0 })

  -- The pool for branch and bound.
  unfoldable pub bnb_pool : FeeRate → CoinSelectionParams → Filter → List Group → List Group
  unfolding weigh_group
  bnb_pool long_term params filter [] = []
  bnb_pool long_term params filter (g ∷ gs) =
      let rest = bnb_pool long_term params filter gs in
      let weighed = weigh_group long_term params g in
      if eligible_for_spending g filter
      then (if ltb_ℤ (pos 0) weighed.effective_value then weighed ∷ rest else rest)
      else rest

  -- The pool for the knapsack solver.
  unfoldable pub knapsack_pool : Filter → List Group → List Group
  knapsack_pool filter [] = []
  knapsack_pool filter (g ∷ gs) =
      let rest = knapsack_pool filter gs in
      if eligible_for_spending g filter then g ∷ rest else rest
