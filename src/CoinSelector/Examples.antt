-- ===== src/CoinSelector/Examples.antt =====
-- A small stand-in for Bitcoin Core, a call of CoinSelector::Select on it, and the theorems there.
use libnunchuk.Base.{
  ℕ, ◌+◌, ◌*◌, ◌^◌, ◌≡◌, ◌≢◌, refl, List, [], ◌∷◌, ◌++◌, true, false, arith, ltb, ◌⊎◌,
}
use libnunchuk.Base.Int.{ℤ, pos, negsuc, ◌+ℤ◌, ◌-ℤ◌, ltb_ℤ, leb_ℤ, div_ℤ, mod_ℤ}
use libnunchuk.Base.Lists.{length}
use libnunchuk.Base.Text.{Text, codes}
use libnunchuk.Types.{UnspentOutput}
use libnunchuk.CoinSelector.Bitcoin.{Coin, OutputGroup, Bitcoin}
use libnunchuk.CoinSelector.Pool.{
  input_coin, group_outputs, bnb_pool, knapsack_pool, input_fee, weigh_coin, weigh_coins,
  weigh_group,
}
use libnunchuk.CoinSelector.Choose.{
  CoinSelector, select_coins, select_coins_min_conf, try_filters, insert_coin, insert_presets,
}
use libnunchuk.CoinSelector.Pay.{
  Request, add_amounts, subtract_count, paid_amount, dust_error, pay_recipients,
}
use libnunchuk.CoinSelector.Pass.{
  to_int, add_last, last_amount, change_output_size, params, value_to_select, choose_inputs,
  add_change, build, calculate_maximum_signed_tx_size, fee_needed, fee_needed_with_change,
  fee_in_excess, with_smaller_fee, has_extra_fee, increase_change, enough_fee, change_is_large,
  reduce_change, with_more_fee, more_fee, settle, pass,
}
use libnunchuk.CoinSelector.Select.{
  Selected, success, out_of_fuel, first_pass, finish, run_passes, outcome, run, checked, select,
}
use libnunchuk.CoinSelector.Totals.{total, worth}
use libnunchuk.CoinSelector.Funded.{SolverLaws, Distinct}
use libnunchuk.CoinSelector.Balance.{select-balance, select-recipients}
use libnunchuk.CoinSelector.Terminates.{select_ends}

abbrev all_coins : List (OutputGroup Text (Unit {0})) → List (Coin Text)
all_coins [] = []
all_coins (g ∷ gs) = g.m_outputs ++ all_coins gs

-- Sizes of 100 for an input and 31 for an output; the knapsack solver takes every coin.
abbrev toy : Bitcoin
toy = record {
  Hash = Text;
  Rest = Unit {0};
  Script = Text;
  Witness = Unit {0};
  FeeRate = ℕ;
  Rng = ℕ;
  uint256_s = λ t. t;
  get_hex = λ t. t;
  coin_lt = λ c d. ltb c.n d.n;
  make_coin = λ a. record { hash = []; n = 0; value = a; m_input_bytes = negsuc 0 };
  make_group = λ c height from_me ancestors descendants. record {
    m_outputs = c ∷ [];
    fee = pos 0;
    long_term_fee = pos 0;
    effective_value = pos 0;
    rest = tt;
  };
  discard = λ g c. record g { m_outputs = [] };
  eligible_for_spending = λ g f. true;
  script_for = λ t. t;
  empty_script = [];
  empty_witness = tt;
  get_fee = λ rate size. pos (rate * size);
  is_dust = λ out rate. ltb_ℤ out.n_value (pos 100);
  serialize_size = λ out. 31;
  virtual_size = λ ins outs. pos (100 * length ins + 31 * length outs);
  select_coins_bnb = λ pool target cost fees. record { found = false; coins = []; value = pos 0 };
  knapsack_solver = λ rng target pool. record {
    found = leb_ℤ target (worth (all_coins pool));
    coins = all_coins pool;
    value = worth (all_coins pool);
  };
  next_rng = λ rng target pool. rng + 1;
}

toy-SolverLaws : SolverLaws toy
toy-SolverLaws = record {
  make_coin_value = λ a. refl;
  bnb_reaches = λ pool target cost fees e. cc;
  knapsack_reaches = λ rng target pool e. (refl, ground arith);
}

abbrev selector : CoinSelector toy
selector = record { fee_rate = 1; discard_rate = 3; dummy_scriptsig = []; dummy_scriptwitness = tt }

abbrev coin_at : ℕ → ℕ → UnspentOutput
coin_at vout amount = record {
  txid = codes "ab";
  vout = vout;
  address = codes "w";
  amount = pos amount;
  height = pos 1;
}

-- Two preset coins pay one recipient.
abbrev request : Request
request = record {
  available = [];
  preset = coin_at 0 600_000 ∷ coin_at 1 500_000 ∷ [];
  change_address = codes "c";
  subtract_fee = false;
  vec_send = (codes "r", pos 300_000) ∷ [];
  vec_input = [];
}

abbrev taken : ℕ → ℕ → Coin Text
taken n value = record { hash = codes "ab"; n = n; value = pos value; m_input_bytes = negsuc 0 }

-- The change pays the fee of 262.
abbrev selected : Selected toy
selected = record {
  vec_send = (codes "r", pos 300_000) ∷ (codes "c", pos 799_738) ∷ [];
  vec_input = (codes "ab", 0) ∷ (codes "ab", 1) ∷ [];
  fee = pos 262;
  change_pos = pos 1;
  coins = taken 0 600_000 ∷ taken 1 500_000 ∷ [];
}

ran : select toy selector request 400 0 ≡ success selected
unfolding select checked add_amounts run run_passes outcome first_pass finish pass build settle
    pay_recipients paid_amount dust_error value_to_select subtract_count choose_inputs params
    change_output_size select_coins insert_presets insert_coin input_coin add_change
    calculate_maximum_signed_tx_size to_int fee_needed fee_needed_with_change fee_in_excess
    with_smaller_fee has_extra_fee increase_change enough_fee change_is_large reduce_change
    with_more_fee more_fee add_last last_amount try_filters select_coins_min_conf bnb_pool
    knapsack_pool weigh_group weigh_coins weigh_coin input_fee group_outputs ◌+ℤ◌ ◌-ℤ◌ div_ℤ mod_ℤ
ran = refl

preset-Distinct : Distinct toy request.preset
unfolding input_coin
preset-Distinct = ((refl, tt), (tt, tt))

select-balance_example : worth selected.coins ≡ total selected.vec_send +ℤ selected.fee
select-balance_example =
    select-balance toy selector request toy-SolverLaws preset-Distinct 400 0 selected ran

select-recipients_example :
    ((selected.change_pos ≡ negsuc 0) × (selected.vec_send ≡ request.vec_send))
    ⊎ ((change : ℤ) × (selected.change_pos ≡ pos (length request.vec_send))
        × (selected.vec_send ≡ request.vec_send ++ (request.change_address, change) ∷ []))
select-recipients_example =
    select-recipients toy selector request toy-SolverLaws preset-Distinct 400 0 selected ran refl

select_ends_example : select toy selector request (2 ^ 32 + 3) 0 ≢ out_of_fuel
select_ends_example =
    select_ends toy selector request (2 ^ 32) (λ n h. omega arith) (2 ^ 32 + 3) 0 (omega arith)
