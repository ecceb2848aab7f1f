-- ===== src/CoinSelector/PayTotal.antt =====
-- The sum of the outputs that the loop over the recipients makes.
use libnunchuk.Base.{
  suc, ◌≡◌, ◌≢◌, refl, ap, sym, ◌∙◌, List, [], ◌∷◌, Bool, true, false, arith, ◌⊎◌, inl, inr,
  Bool-cases, ◌==◌,
}
use libnunchuk.Base.Int.{ℤ, ◌+ℤ◌, ◌-ℤ◌, int_laws, parts, div_ℤ, mod_ℤ, times, div_mod_ℤ}
use libnunchuk.Base.Lists.{length}
use libnunchuk.Types.{TxOutput}
use libnunchuk.CoinSelector.Bitcoin.{TxOut, Bitcoin}
use libnunchuk.CoinSelector.Choose.{CoinSelector}
use libnunchuk.CoinSelector.Step.{Loop, After, After->>=}
use libnunchuk.CoinSelector.Pay.{Request, subtract_count, Paid, paid_amount, pay_recipients}
use libnunchuk.CoinSelector.Pass.{value_to_select}
use libnunchuk.CoinSelector.Totals.{total}

module _ (b : Bitcoin) (c : CoinSelector b) (q : Request) where
  open b use {Script, is_dust, script_for, serialize_size}

  -- The recipients in order, each with the amount that it is paid; the first pays the remainder.
  pub paid_outputs : ℤ → Bool → List TxOutput → List TxOutput
  paid_outputs fee first [] = []
  paid_outputs fee first ((address, amount) ∷ rs) =
      (address, paid_amount b c q fee first amount) ∷ paid_outputs fee false rs

  pub pay_recipients-outputs :
      (R : Loop b → Type 0) (fee : ℤ) (first : Bool) (rs : List TxOutput)
      → After
          (λ (p : Paid b). p.vout ≡ paid_outputs fee first rs)
          R
          (pay_recipients b c q fee first rs)
  unfolding pay_recipients paid_outputs
  pay_recipients-outputs R fee first [] = refl
  pay_recipients-outputs R fee first ((address, amount) ∷ rs) =
      let value = paid_amount b c q fee first amount in
      let out : TxOut Script = record { n_value = value; script_pub_key = script_for address } in
      elim (Bool-cases (is_dust out c.discard_rate)) [
        | inl e ↦ rw e tt
        | inr e ↦ rw e (
            After->>= (λ (p : Paid b). p.vout ≡ paid_outputs fee false rs)
              (λ (p : Paid b). p.vout ≡ (address, value) ∷ paid_outputs fee false rs) R
              (pay_recipients b c q fee false rs) _ (pay_recipients-outputs R fee false rs)
              (λ p k. ground arith))
      ]

  pub length-paid_outputs :
      (fee : ℤ) (first : Bool) (rs : List TxOutput) → length (paid_outputs fee first rs) ≡ length rs
  unfolding paid_outputs
  length-paid_outputs fee first [] = refl
  length-paid_outputs fee first (r ∷ rs) = ap suc (length-paid_outputs fee false rs)

  -- Recipients who do not pay the fee get what they were promised.
  pub paid_outputs-exact :
      (fee : ℤ) (first : Bool) (rs : List TxOutput)
      → q.subtract_fee ≡ false
      → paid_outputs fee first rs ≡ rs
  unfolding paid_outputs paid_amount
  paid_outputs-exact fee first [] h = refl
  paid_outputs-exact fee first (r ∷ rs) h = ground (arith, paid_outputs-exact fee false rs h)

  -- A recipient who pays gets the amount less a share, and the first also less the remainder.
  paid_amount-shared :
      (fee amount : ℤ)
      → q.subtract_fee ≡ true
      → (paid_amount b c q fee false amount ≡ amount -ℤ div_ℤ fee (subtract_count q))
        × (paid_amount b c q fee true amount
            ≡ amount -ℤ div_ℤ fee (subtract_count q) -ℤ mod_ℤ fee (subtract_count q))
  unfolding paid_amount
  paid_amount-shared fee amount h = (rw h, rw h)

  total-paid_outputs :
      (fee : ℤ) (rs : List TxOutput)
      → q.subtract_fee ≡ true
      → total (paid_outputs fee false rs) +ℤ times (length rs) (div_ℤ fee (subtract_count q))
        ≡ total rs
  unfolding paid_outputs times
  total-paid_outputs fee [] h = omega int_laws
  total-paid_outputs fee (r ∷ rs) h =
      omega (int_laws, parts (paid_amount-shared fee r.1 h).0, parts (total-paid_outputs fee rs h))

  -- Together with the remainder, the shares are the fee.
  paid_outputs-shared :
      (fee : ℤ) (rs : List TxOutput)
      → q.subtract_fee ≡ true
      → rs ≢ []
      → subtract_count q ≡ length rs
      → total (paid_outputs fee true rs) +ℤ fee ≡ total rs
  unfolding paid_outputs times
  paid_outputs-shared fee [] h n e = absurd (n refl)
  paid_outputs-shared fee (r ∷ rs) h n e =
      let share = div_ℤ fee (subtract_count q) in
      let whole : times (subtract_count q) share +ℤ mod_ℤ fee (subtract_count q) ≡ fee =
        div_mod_ℤ fee (subtract_count q) (omega arith) in
      let split : times (subtract_count q) share ≡ share +ℤ times (length rs) share =
        ap (λ k. times k share) e in
      omega (
        int_laws,
        parts (paid_amount-shared fee r.1 h).1,
        parts (total-paid_outputs fee rs h),
        parts whole,
        parts split,
      )

  subtract_count-lem :
      q.vec_send ≢ []
      → ((q.subtract_fee ≡ true)
          × (subtract_count q ≡ length q.vec_send)
          × ((subtract_count q == 0) ≡ false))
        ⊎ ((q.subtract_fee ≡ false) × ((subtract_count q == 0) ≡ true))
  unfolding subtract_count
  subtract_count-lem n = ground arith

  -- The fee is selected too unless the recipients pay it.
  pub value_to_select-cases :
      (value fee : ℤ)
      → (((subtract_count q == 0) ≡ true) × (value_to_select b c q value fee ≡ value +ℤ fee))
        ⊎ (((subtract_count q == 0) ≡ false) × (value_to_select b c q value fee ≡ value))
  unfolding value_to_select
  value_to_select-cases value fee = ground arith

  -- What is to be selected is what the recipients get, and the fee.
  pub value_to_select-total :
      (value fee : ℤ)
      → q.vec_send ≢ []
      → value ≡ total q.vec_send
      → value_to_select b c q value fee ≡ total (paid_outputs fee true q.vec_send) +ℤ fee
  unfolding value_to_select
  value_to_select-total value fee nonempty e = elim (subtract_count-lem nonempty) [
    | inl (shared, count, some_pay) ↦
        rw some_pay (e ∙ sym (paid_outputs-shared fee q.vec_send shared nonempty count))
    | inr (exact, none_pay) ↦
        rw none_pay (
          omega
            (int_laws, parts e, parts (ap total (paid_outputs-exact fee true q.vec_send exact))))
  ]
