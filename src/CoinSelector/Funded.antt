-- ===== src/CoinSelector/Funded.antt =====
-- The value of the coins that SelectCoins finds, from what Bitcoin Core documents of its two
-- solvers.
use libnunchuk.Base.{◌≡◌, refl, List, [], ◌∷◌, Bool, true, false, arith}
use libnunchuk.Base.Int.{ℤ, pos, ◌+ℤ◌, ◌≤ℤ◌, int_laws}
use libnunchuk.Base.Lists.{All}
use libnunchuk.Types.{UnspentOutput}
use libnunchuk.CoinSelector.Bitcoin.{OutputGroup, Filter, Found, Bitcoin}
use libnunchuk.CoinSelector.Pool.{
  Group, CoinSelectionParams, input_coin, group_outputs, bnb_pool, knapsack_pool,
}
use libnunchuk.CoinSelector.Choose.{
  CoinSelector, Selection, default_filters, select_coins_min_conf, try_filters, insert_coin,
  insert_presets, select_coins,
}
use libnunchuk.CoinSelector.Totals.{worth, Differs, All-insert_coin, worth-insert_coin}

module _ (b : Bitcoin) where
  open b use {Hash, Rest, Rng, make_coin, get_fee, select_coins_bnb, knapsack_solver}

  -- A found selection reaches the target with coins of that value.
  abbrev pub Reaches : ℤ → Found Hash → Type 0
  Reaches target r = r.found ≡ true → (r.value ≡ worth r.coins) × (target ≤ℤ r.value)

  -- What Bitcoin Core documents of `CInputCoin(tx, 0)`, SelectCoinsBnB and KnapsackSolver.
  pub record SolverLaws : Type 0 where
    pub make_coin_value : (a : ℤ) → (make_coin a).value ≡ a
    pub bnb_reaches :
        (pool : List (OutputGroup Hash Rest)) (target cost fees : ℤ)
        → Reaches target (select_coins_bnb pool target cost fees)
    pub knapsack_reaches :
        (rng : Rng) (target : ℤ) (pool : List (OutputGroup Hash Rest))
        → Reaches target (knapsack_solver rng target pool)

  -- The outpoints of unspent outputs are pairwise different.
  abbrev pub Distinct : List UnspentOutput → Type 0
  Distinct [] = Unit
  Distinct (o ∷ os) = All (λ p. Differs b (input_coin b p) (input_coin b o)) os × Distinct os

  -- The selection has the value that it reports, which reaches the target.
  pub record IsFunded (target : ℤ) (s : Selection b) : Type 0 where
    pub exact : s.value ≡ worth s.coins
    pub reaches : target ≤ℤ s.value

  module _ (laws : SolverLaws) where
    input_coin-value : (o : UnspentOutput) → (input_coin b o).value ≡ o.amount
    unfolding input_coin
    input_coin-value o = laws.make_coin_value o.amount

    min_conf-IsFunded :
        (c : CoinSelector b) (target : ℤ) (filter : Filter) (groups : List (Group b))
        (params : CoinSelectionParams b) (s : Selection b)
        → let (found, r) = select_coins_min_conf b c target filter groups params s in
          found ≡ true → IsFunded target r
    unfolding select_coins_min_conf
    min_conf-IsFunded c target filter groups params s h = ground (
      arith,
      laws.bnb_reaches (bnb_pool b c.fee_rate params filter groups) target
          (get_fee c.discard_rate params.change_spend_size
            +ℤ get_fee params.effective_fee params.change_output_size)
          (get_fee params.effective_fee params.tx_noinputs_size),
      laws.knapsack_reaches s.rng target (knapsack_pool b filter groups),
    )

    try_filters-IsFunded :
        (c : CoinSelector b) (target : ℤ) (fs : List (Bool × Filter)) (groups : List (Group b))
        (params : CoinSelectionParams b) (s : Selection b)
        → let (found, r) = try_filters b c target fs groups params s in
          found ≡ true → IsFunded target r
    unfolding try_filters
    try_filters-IsFunded c target [] groups params s h = cc
    try_filters-IsFunded c target ((allowed, filter) ∷ fs) groups params s h =
        let r = select_coins_min_conf b c target filter groups params s in
        ground (
          arith,
          min_conf-IsFunded c target filter groups params s,
          try_filters-IsFunded c target fs groups params s,
          try_filters-IsFunded c target fs groups params r.1,
        )

    -- The presets keep the value exact.
    insert_presets-exact :
        (os : List UnspentOutput) (s : Selection b)
        → Distinct os
        → All (λ o. All (Differs b (input_coin b o)) s.coins) os
        → s.value ≡ worth s.coins
        → (insert_presets b os s).value ≡ worth (insert_presets b os s).coins
    unfolding insert_presets
    insert_presets-exact [] s d new h = h
    insert_presets-exact (o ∷ os) s d new h =
        insert_presets-exact os _ d.1 (later os d.0 new.1)
          (grind (int_laws, worth-insert_coin b (input_coin b o) s.coins new.0, input_coin-value o))
      where
        later :
            (ps : List UnspentOutput)
            → All (λ p. Differs b (input_coin b p) (input_coin b o)) ps
            → All (λ p. All (Differs b (input_coin b p)) s.coins) ps
            → All
                (λ p. All (Differs b (input_coin b p)) (insert_coin b (input_coin b o) s.coins))
                ps
        later [] h k = tt
        later (p ∷ ps) h k = (
          All-insert_coin b (Differs b (input_coin b p)) (input_coin b o) s.coins h.0 k.0,
          later ps h.1 k.1,
        )

    no_coins : (os : List UnspentOutput) → All (λ o. All (Differs b (input_coin b o)) []) os
    no_coins [] = tt
    no_coins (o ∷ os) = (tt, no_coins os)

    -- A selection that SelectCoins finds, from nothing, is funded.
    pub select_coins-IsFunded :
        (c : CoinSelector b) (available preset : List UnspentOutput) (target : ℤ)
        (params : CoinSelectionParams b) (rng : Rng)
        → Distinct preset
        → let (found, r) =
            select_coins b c available preset target params
              (record { coins = []; value = pos 0; bnb_used = false; rng = rng }) in
          found ≡ true → IsFunded target r
    unfolding select_coins
    select_coins-IsFunded c available [] target params rng d h = ground (
      arith,
      try_filters-IsFunded c target default_filters (group_outputs b available 25) params
          (record { coins = []; value = pos 0; bnb_used = false; rng = rng }),
    )
    select_coins-IsFunded c available (o ∷ os) target params rng d h = ground (
      arith,
      insert_presets-exact (o ∷ os)
          (record { coins = []; value = pos 0; bnb_used = false; rng = rng }) d (no_coins (o ∷ os))
          refl,
    )
