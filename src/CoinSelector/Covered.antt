-- ===== src/CoinSelector/Covered.antt =====
-- The fee that CoinSelector::Select returns, and the size of the transaction that it built, dummy
-- signatures included.
use libnunchuk.Base.{◌≡◌, List, map}
use libnunchuk.Base.Int.{ℤ, pos, ◌≤ℤ◌}
use libnunchuk.Types.{TxOutput}
use libnunchuk.CoinSelector.Bitcoin.{TxOut, Bitcoin}
use libnunchuk.CoinSelector.Choose.{CoinSelector}
use libnunchuk.CoinSelector.Step.{Loop, Step}
use libnunchuk.CoinSelector.Pay.{Request, Paid}
use libnunchuk.CoinSelector.Pass.{Built, fee_needed, to_int, calculate_maximum_signed_tx_size}

-- The scripts of the addresses of outputs.
abbrev pub scripts : (b : Bitcoin) → List TxOutput → List b.Script
scripts b os = map (λ (o : TxOutput). b.script_for o.0) os

module _ (b : Bitcoin) (c : CoinSelector b) (q : Request) where
  -- nBytes of a transaction.
  abbrev pub size_of : Built b → ℤ
  size_of t = to_int (calculate_maximum_signed_tx_size b c q t)

  -- The size estimate is no failure, and the fee pays for it.
  abbrev pub IsCovered : Built b → Type 0
  IsCovered t = (pos 0 ≤ℤ size_of t) × (fee_needed b c q (size_of t) ≤ℤ t.loop.fee)

  abbrev Anything : Loop b → Type 0
  Anything s = Unit

  -- The outputs whose size is estimated pay to the addresses of those that are returned, in order.
  abbrev pub IsSized : Built b → Type 0
  IsSized t = map (λ (o : TxOut b.Script). o.script_pub_key) t.tx_vout ≡ scripts b t.vout

  abbrev PaidSized : Paid b → Type 0
  PaidSized p = map (λ (o : TxOut b.Script). o.script_pub_key) p.tx_vout ≡ scripts b p.vout

  abbrev Settled : Built b → Type 0
  Settled t = IsSized t × IsCovered t
