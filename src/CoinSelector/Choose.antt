-- ===== src/CoinSelector/Choose.antt =====
-- CoinSelector::SelectCoinsMinConf and SelectCoins of src/coinselector.cpp. The variables that the
-- code passes by reference are the record `Selection`.
use Prim.Native.Nat.{min}
use libnunchuk.Base.{ℕ, ◌-◌, ◌/◌, ◌^◌, List, [], ◌∷◌, Bool, true, false, not, ◌&&◌, if◌then◌else◌}
use libnunchuk.Base.Int.{ℤ, pos, ◌+ℤ◌, leb_ℤ}
use libnunchuk.Types.{UnspentOutput}
use libnunchuk.CoinSelector.Bitcoin.{Coin, Filter, three, four, Bitcoin}
use libnunchuk.CoinSelector.Pool.{
  Group, CoinSelectionParams, input_coin, group_outputs, bnb_pool, knapsack_pool,
}

abbrev pub default_ancestor_limit : ℕ
default_ancestor_limit = 25

abbrev pub default_descendant_limit : ℕ
default_descendant_limit = 25

abbrev pub default_spend_zeroconf_change : Bool
default_spend_zeroconf_change = true

abbrev pub default_wallet_reject_long_chains : Bool
default_wallet_reject_long_chains = false

-- The filters that SelectCoins tries in order, each with the flags that stand before it.
abbrev pub filters : ℕ → ℕ → Bool → Bool → List (Bool × Filter)
filters max_ancestors max_descendants spend_zero_conf reject_long_chains =
    (true, three 1 6 0)
    ∷ (true, three 1 1 0)
    ∷ (spend_zero_conf, three 0 1 2)
    ∷ (spend_zero_conf, four 0 1 (min 4 (max_ancestors / 3)) (min 4 (max_descendants / 3)))
    ∷ (spend_zero_conf, four 0 1 (max_ancestors / 2) (max_descendants / 2))
    ∷ (spend_zero_conf, four 0 1 (max_ancestors - 1) (max_descendants - 1))
    ∷ (spend_zero_conf && not reject_long_chains, three 0 1 (2 ^ 64 - 1))
    ∷ []

abbrev pub default_filters : List (Bool × Filter)
default_filters =
    filters default_ancestor_limit default_descendant_limit default_spend_zeroconf_change
      default_wallet_reject_long_chains

module _ (b : Bitcoin) where
  open b use {
    Hash, Script, Witness, FeeRate, Rng, coin_lt, get_fee, select_coins_bnb, knapsack_solver,
    next_rng,
  }

  -- The members of the class CoinSelector.
  pub record CoinSelector : Type 0 where
    pub fee_rate : FeeRate
    pub discard_rate : FeeRate
    pub dummy_scriptsig : Script
    pub dummy_scriptwitness : Witness

  -- setCoinsRet, nValueRet and bnb_used, and the random generator.
  pub record Selection : Type 0 where
    pub coins : List (Coin Hash)
    pub value : ℤ
    pub bnb_used : Bool
    pub rng : Rng

  unfoldable pub set_fee_rate : FeeRate → CoinSelector → CoinSelector
  set_fee_rate value c = record c { fee_rate = value }

  unfoldable pub set_discard_rate : FeeRate → CoinSelector → CoinSelector
  set_discard_rate value c = record c { discard_rate = value }

  unfoldable pub select_coins_min_conf :
      CoinSelector
      → ℤ
      → Filter
      → List (Group b)
      → CoinSelectionParams b
      → Selection
      → Bool × Selection
  unfolding bnb_pool knapsack_pool
  select_coins_min_conf c target filter groups params s =
      if params.use_bnb
      then (let cost_of_change =
            get_fee c.discard_rate params.change_spend_size
            +ℤ get_fee params.effective_fee params.change_output_size in
          let not_input_fees = get_fee params.effective_fee params.tx_noinputs_size in
          let r =
            select_coins_bnb (bnb_pool b c.fee_rate params filter groups) target cost_of_change
              not_input_fees in
          (r.found, record { coins = r.coins; value = r.value; bnb_used = true; rng = s.rng }))
      else (let pool = knapsack_pool b filter groups in
          let r = knapsack_solver s.rng target pool in
          (
            r.found,
            record {
              coins = r.coins;
              value = r.value;
              bnb_used = false;
              rng = next_rng s.rng target pool;
            },
          ))

  -- The chain of `||`: the first filter that finds a selection ends it.
  unfoldable pub try_filters :
      CoinSelector
      → ℤ
      → List (Bool × Filter)
      → List (Group b)
      → CoinSelectionParams b
      → Selection
      → Bool × Selection
  unfolding select_coins_min_conf
  try_filters c target [] groups params s = (false, s)
  try_filters c target ((allowed, filter) ∷ fs) groups params s =
      let (found, s') = select_coins_min_conf c target filter groups params s in
      let skipped = try_filters c target fs groups params s in
      let later = try_filters c target fs groups params s' in
      if allowed then (if found then (true, s') else later) else skipped

  -- std::set<CInputCoin>::insert: in order, and nothing if an equivalent coin is there.
  unfoldable pub insert_coin : Coin Hash → List (Coin Hash) → List (Coin Hash)
  insert_coin c [] = c ∷ []
  insert_coin c (x ∷ xs) =
      if coin_lt c x then c ∷ x ∷ xs else if coin_lt x c then x ∷ insert_coin c xs else x ∷ xs

  -- The loop over the preset inputs.
  unfoldable pub insert_presets : List UnspentOutput → Selection → Selection
  unfolding insert_coin input_coin
  insert_presets [] s = s
  insert_presets (o ∷ os) s =
      insert_presets os
        (record s { coins = insert_coin (input_coin b o) s.coins; value = s.value +ℤ o.amount })

  -- Preset inputs are used alone.
  unfoldable pub select_coins :
      CoinSelector
      → List UnspentOutput
      → List UnspentOutput
      → ℤ
      → CoinSelectionParams b
      → Selection
      → Bool × Selection
  unfolding insert_presets try_filters group_outputs
  select_coins c available [] target params s =
      let start = record s { bnb_used = false } in
      let groups = group_outputs b available default_ancestor_limit in
      if leb_ℤ target (pos 0)
      then (true, start)
      else try_filters c target default_filters groups params start
  select_coins c available (o ∷ os) target params s =
      let chosen = insert_presets (o ∷ os) (record s { bnb_used = false }) in
      (leb_ℤ target chosen.value, chosen)
