-- ===== src/CoinSelector/Pay.antt =====
-- CoinSelector::Select of src/coinselector.cpp: its arguments, the checks before its loop, and the
-- loop over the recipients.
use libnunchuk.Base.{
  ℕ, ◌+◌, List, [], ◌∷◌, Option, none, some, Bool, false, ◌&&◌, ◌||◌, if◌then◌else◌,
}
use libnunchuk.Base.Int.{ℤ, pos, ◌+ℤ◌, ◌-ℤ◌, div_ℤ, mod_ℤ, ltb_ℤ}
use libnunchuk.Base.Lists.{length}
use libnunchuk.Base.Text.{Text}
use libnunchuk.Types.{TxInput, TxOutput, UnspentOutput}
use libnunchuk.CoinSelector.Bitcoin.{TxOut, Bitcoin}
use libnunchuk.CoinSelector.Choose.{CoinSelector}
use libnunchuk.CoinSelector.Step.{
  Error, too_small_to_pay_fee, too_small_after_fee, too_small, Step, next, failed, ◌>>=◌,
}

-- The arguments of Select.
pub record Request : Type 0 where
  pub available : List UnspentOutput
  pub preset : List UnspentOutput
  pub change_address : Text
  pub subtract_fee : Bool
  pub vec_send : List TxOutput
  pub vec_input : List TxInput

-- nValue, unless an amount is negative.
unfoldable pub add_amounts : ℤ → List TxOutput → Option ℤ
add_amounts value [] = some value
add_amounts value ((address, amount) ∷ rs) =
    if ltb_ℤ value (pos 0) || ltb_ℤ amount (pos 0) then none else add_amounts (value +ℤ amount) rs

-- nSubtractFeeFromAmount
unfoldable pub subtract_count : Request → ℕ
subtract_count q = if q.subtract_fee then length q.vec_send else 0

module _ (b : Bitcoin) where
  open b use {Script, script_for, is_dust, serialize_size}

  -- The outputs of the recipients, in `vout` and in `txNew.vout`, and their size.
  pub record Paid : Type 0 where
    pub vout : List TxOutput
    pub tx_vout : List (TxOut Script)
    pub size : ℕ

  module _ (c : CoinSelector b) (q : Request) where
    unfoldable pub paid_amount : ℤ → Bool → ℤ → ℤ
    unfolding subtract_count
    paid_amount fee first amount =
        if q.subtract_fee
        then (let less = amount -ℤ div_ℤ fee (subtract_count q) in
            if first then less -ℤ mod_ℤ fee (subtract_count q) else less)
        else amount

    unfoldable pub dust_error : ℤ → ℤ → Error
    dust_error fee amount =
        if q.subtract_fee && ltb_ℤ (pos 0) fee
        then (if ltb_ℤ amount (pos 0) then too_small_to_pay_fee else too_small_after_fee)
        else too_small

    -- The loop over the recipients; `first` is fFirst.
    unfoldable pub pay_recipients : ℤ → Bool → List TxOutput → Step b Paid
    unfolding paid_amount dust_error
    pay_recipients fee first [] = next (record { vout = []; tx_vout = []; size = 0 })
    pay_recipients fee first ((address, amount) ∷ rs) =
        let value = paid_amount fee first amount in
        let out : TxOut Script = record { n_value = value; script_pub_key = script_for address } in
        let rest = pay_recipients fee false rs in
        if is_dust out c.discard_rate then failed (dust_error fee value) else (do
          p ← rest
          next (record {
            vout = (address, value) ∷ p.vout;
            tx_vout = out ∷ p.tx_vout;
            size = serialize_size out + p.size;
          }))
