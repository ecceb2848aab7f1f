-- ===== src/CoinSelector/Pass.antt =====
-- One pass of the loop of CoinSelector::Select of src/coinselector.cpp, in stages: `choose_inputs`
-- takes the coins, `add_change` adds the change, `settle` compares the fee with the size.
use libnunchuk.Base.{
  ℕ, ◌+◌, ◌-◌, ◌%◌, ◌^◌, List, [], ◌∷◌, ◌++◌, map, Bool, true, false, not, ◌&&◌, ◌||◌, ltb, ◌==◌,
  if◌then◌else◌,
}
use libnunchuk.Base.Int.{ℤ, pos, negsuc, pos_part, sub_ℕ, ◌+ℤ◌, ◌-ℤ◌, ltb_ℤ, leb_ℤ, eqb_ℤ}
use libnunchuk.Base.Lists.{length}
use libnunchuk.Types.{TxOutput}
use libnunchuk.CoinSelector.Bitcoin.{Coin, TxIn, TxOut, Bitcoin}
use libnunchuk.CoinSelector.Pool.{CoinSelectionParams}
use libnunchuk.CoinSelector.Choose.{CoinSelector, select_coins}
use libnunchuk.CoinSelector.Step.{
  insufficient_funds, signing_failed, fee_calculation_failed, Loop, Step, next, retry, failed,
  ◌>>=◌,
}
use libnunchuk.CoinSelector.Pay.{Request, subtract_count, Paid, pay_recipients}

-- `int nBytes = (int64_t) size`.
unfoldable pub to_int : ℤ → ℤ
to_int (pos n) = let r = n % 2 ^ 32 in if ltb r (2 ^ 31) then pos r else sub_ℕ r (2 ^ 32)
to_int (negsuc n) =
    let r = 2 ^ 32 - 1 - n % 2 ^ 32 in if ltb r (2 ^ 31) then pos r else sub_ℕ r (2 ^ 32)

-- `vout.back().second += d`, and reading it.
unfoldable pub add_last : ℤ → List TxOutput → List TxOutput
add_last d [] = []
add_last d ((address, amount) ∷ []) = (address, amount +ℤ d) ∷ []
add_last d (o ∷ p ∷ os) = o ∷ add_last d (p ∷ os)

unfoldable pub last_amount : List TxOutput → ℤ
last_amount [] = pos 0
last_amount ((address, amount) ∷ []) = amount
last_amount (o ∷ p ∷ os) = last_amount (p ∷ os)

-- 294 satoshis, and the least change that may pay for an additional fee.
abbrev pub minimum_value_for_change : ℤ
minimum_value_for_change = pos 294

abbrev pub large_change : ℤ
large_change = pos 500_000

module _ (b : Bitcoin) where
  open b use {Hash, Script, Witness, script_for, get_fee, is_dust, serialize_size, virtual_size}

  -- A transaction under construction.
  pub record Built : Type 0 where
    pub loop : Loop b
    pub vout : List TxOutput
    pub tx_vout : List (TxOut Script)
    pub change_pos : ℤ

  module _ (c : CoinSelector b) (q : Request) where
    unfoldable pub change_output_size : ℕ
    change_output_size =
        serialize_size (record { n_value = pos 0; script_pub_key = script_for q.change_address })

    unfoldable pub params : Loop b → Paid b → CoinSelectionParams b
    unfolding change_output_size subtract_count
    params s p = record {
      use_bnb = s.use_bnb;
      change_output_size = change_output_size;
      change_spend_size = 91;
      effective_fee = c.fee_rate;
      tx_noinputs_size = if subtract_count q == 0 then 11 + p.size else 0;
      m_subtract_fee_outputs = not (subtract_count q == 0);
    }

    -- nValueToSelect
    unfoldable pub value_to_select : ℤ → ℤ → ℤ
    unfolding subtract_count
    value_to_select value fee = if subtract_count q == 0 then value +ℤ fee else value

    -- The loop's variables with the coins of this pass, and bnb_used.
    unfoldable pub choose_inputs : ℤ → Loop b → Paid b → Step b (Loop b × Bool)
    unfolding select_coins params
    choose_inputs target s p =
        let (found, r) =
          select_coins b c q.available q.preset target (params s p)
            (record { coins = []; value = pos 0; bnb_used = false; rng = s.rng }) in
        let s' : Loop b = record s { coins = r.coins; value_in = r.value; rng = r.rng } in
        if s.pick_new_inputs
        then (if found
            then next (s', r.bnb_used)
            else if r.bnb_used
            then retry (record s' { use_bnb = false })
            else failed insufficient_funds)
        else next (s, false)

    unfoldable pub add_change : ℤ → Loop b → Paid b → Bool → Built
    add_change target s p bnb_used =
        let n_change = s.value_in -ℤ target in
        let out : TxOut Script = record {
          n_value = n_change;
          script_pub_key = script_for q.change_address;
        } in
        let without : Built = record {
          loop = s;
          vout = p.vout;
          tx_vout = p.tx_vout;
          change_pos = negsuc 0;
        } in
        if ltb_ℤ (pos 0) n_change
        then (if is_dust out c.discard_rate || bnb_used
            then record without { loop = record s { fee = s.fee +ℤ n_change } }
            else record {
              loop = s;
              vout = p.vout ++ (q.change_address, n_change) ∷ [];
              tx_vout = p.tx_vout ++ out ∷ [];
              change_pos = pos (length p.vout);
            })
        else without

    -- From the head of the loop to the change, for the sum `value` of the recipients' amounts.
    unfoldable pub build : ℤ → Loop b → Step b Built
    build value s = do
      p ← pay_recipients b c q s.fee true q.vec_send
      chosen ← choose_inputs (value_to_select value s.fee) s p
      next (add_change (value_to_select value s.fee) chosen.0 p chosen.1)

    unfoldable pub calculate_maximum_signed_tx_size : Built → ℤ
    calculate_maximum_signed_tx_size t =
        virtual_size
          (map
            (λ (x : Coin Hash).
              let i : TxIn Hash Script Witness = record {
                hash = x.hash;
                n = x.n;
                script_sig = c.dummy_scriptsig;
                script_witness = c.dummy_scriptwitness;
              } in
              i)
            t.loop.coins)
          t.tx_vout

    -- nFeeNeeded
    unfoldable pub fee_needed : ℤ → ℤ
    fee_needed n_bytes = get_fee c.fee_rate (pos_part n_bytes)

    unfoldable pub fee_needed_with_change : ℤ → ℤ
    fee_needed_with_change n_bytes =
        get_fee c.fee_rate ((pos_part n_bytes + change_output_size + 2) % 2 ^ 32)

    abbrev pub no_change : Built → Bool
    no_change t = eqb_ℤ t.change_pos (negsuc 0)

    -- With no change and much excess fee: once more, with the fee of a transaction with change.
    unfoldable pub fee_in_excess : Built → ℤ → Bool
    fee_in_excess t n_bytes =
        no_change t
        && (subtract_count q == 0)
        && t.loop.pick_new_inputs
        && leb_ℤ (fee_needed_with_change n_bytes +ℤ minimum_value_for_change) t.loop.fee

    unfoldable pub with_smaller_fee : Built → ℤ → Loop b
    with_smaller_fee t n_bytes = record (t.loop) {
      pick_new_inputs = false;
      fee = fee_needed_with_change n_bytes;
    }

    -- "If we have change output already, just increase it".
    unfoldable pub has_extra_fee : Built → ℤ → Bool
    has_extra_fee t n_bytes =
        ltb_ℤ (fee_needed n_bytes) t.loop.fee && not (no_change t) && (subtract_count q == 0)

    unfoldable pub increase_change : Built → ℤ → Built
    increase_change t n_bytes =
        let extra = t.loop.fee -ℤ fee_needed n_bytes in
        record t {
          vout = add_last extra t.vout;
          loop = record (t.loop) { fee = t.loop.fee -ℤ extra };
        }

    unfoldable pub enough_fee : Built → ℤ → Step b Built
    enough_fee t n_bytes =
        if fee_in_excess t n_bytes
        then retry (with_smaller_fee t n_bytes)
        else if has_extra_fee t n_bytes
        then next (increase_change t n_bytes)
        else next t

    -- "Only reduce change if remaining amount is still a large enough output".
    unfoldable pub change_is_large : Built → ℤ → Bool
    change_is_large t n_bytes =
        not (no_change t)
        && (subtract_count q == 0)
        && leb_ℤ (large_change +ℤ (fee_needed n_bytes -ℤ t.loop.fee)) (last_amount t.vout)

    unfoldable pub reduce_change : Built → ℤ → Built
    reduce_change t n_bytes =
        let additional = fee_needed n_bytes -ℤ t.loop.fee in
        record t {
          vout = add_last (pos 0 -ℤ additional) t.vout;
          loop = record (t.loop) { fee = t.loop.fee +ℤ additional };
        }

    -- "Include more fee and try again".
    unfoldable pub with_more_fee : Built → ℤ → Loop b
    with_more_fee t n_bytes = record (t.loop) {
      pick_new_inputs = if ltb 0 (subtract_count q) then false else t.loop.pick_new_inputs;
      fee = fee_needed n_bytes;
      use_bnb = false;
    }

    unfoldable pub more_fee : Built → ℤ → Step b Built
    more_fee t n_bytes =
        if change_is_large t n_bytes
        then next (reduce_change t n_bytes)
        else retry (with_more_fee t n_bytes)

    -- From the size estimate to the end of the pass.
    unfoldable pub settle : Built → Step b Built
    settle t =
        let n_bytes = to_int (calculate_maximum_signed_tx_size t) in
        if ltb_ℤ n_bytes (pos 0)
        then failed signing_failed
        else if leb_ℤ (fee_needed n_bytes) t.loop.fee
        then enough_fee t n_bytes
        else if t.loop.pick_new_inputs
        then more_fee t n_bytes
        else failed fee_calculation_failed

    unfoldable pub pass : ℤ → Loop b → Step b Built
    pass value s = do t ← build value s; settle t
