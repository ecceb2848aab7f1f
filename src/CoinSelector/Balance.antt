-- ===== src/CoinSelector/Balance.antt =====
-- What a successful CoinSelector::Select of src/coinselector.cpp returns: its coins and outputs.
use libnunchuk.Base.{
  ℕ, zero, suc, ◌≡◌, ◌≢◌, refl, sym, ◌∙◌, subst, List, [], ◌∷◌, ◌++◌, Option, none, some, true,
  false, ◌⊎◌,
}
use libnunchuk.Base.Int.{ℤ, pos, negsuc, ◌+ℤ◌, zero_add}
use libnunchuk.Base.Lists.{length}
use libnunchuk.Types.{TxOutput}
use libnunchuk.CoinSelector.Bitcoin.{Bitcoin}
use libnunchuk.CoinSelector.Choose.{CoinSelector}
use libnunchuk.CoinSelector.Step.{Loop, Step, next, retry, failed, After, After->>=}
use libnunchuk.CoinSelector.Pay.{Request}
use libnunchuk.CoinSelector.Pass.{Built, build, pass}
use libnunchuk.CoinSelector.Select.{
  Selected, success, first_pass, finish, run_passes, outcome, run, checked, select,
}
use libnunchuk.CoinSelector.Totals.{total, worth, add_amounts-total}
use libnunchuk.CoinSelector.Funded.{SolverLaws, Distinct}
use libnunchuk.CoinSelector.PayTotal.{paid_outputs-exact}
use libnunchuk.CoinSelector.Built.{Keeps, Sound, build-Sound}
use libnunchuk.CoinSelector.Settled.{settle-Sound}

module _ (b : Bitcoin) (c : CoinSelector b) (q : Request) where
  -- The loop rule: what a pass keeps from one state to the next holds of the transaction at the end.
  pub run_passes_rule :
      (P : Built b → Type 0) (R : Loop b → Type 0) (value : ℤ)
      → ((s : Loop b) → R s → After P R (pass b c q value s))
      → (fuel : ℕ) (s : Loop b) (t : Built b) → R s
      → run_passes b c q fuel value s ≡ some (next t)
      → P t
  unfolding run_passes
  run_passes_rule P R value keep zero s t h e = cc
  run_passes_rule P R value keep (suc fuel) s t h e =
      go (pass b c q value s) (keep s h) (run_passes_rule P R value keep fuel) e
    where
      go :
          (m : Step b (Built b))
          → After P R m
          → ((s' : Loop b) (t : Built b)
              → R s'
              → run_passes b c q fuel value s' ≡ some (next t)
              → P t)
          → elim m [
            | next u ↦ some (next u)
            | retry s' ↦ run_passes b c q fuel value s'
            | failed x ↦ some (failed x)
          ]
            ≡ some (next t)
          → P t
      go (next u) h later f = subst P (cc) h
      go (retry s') h later f = later s' t h f
      go (failed x) h later f = cc

  outcome-success :
      (m : Option (Step b (Built b))) (r : Selected b)
      → outcome b c q m ≡ success r
      → (t : Built b) × (m ≡ some (next t)) × (r ≡ finish b q t)
  unfolding outcome
  outcome-success none r e = cc
  outcome-success (some (next t)) r e = (t, refl, sym (cc))
  outcome-success (some (retry s)) r e = cc
  outcome-success (some (failed x)) r e = cc

  checked-success :
      (fuel : ℕ) (rng : b.Rng) (sum : Option ℤ) (rs : List TxOutput) (r : Selected b)
      → checked b c q fuel rng sum rs ≡ success r
      → (value : ℤ) × (t : Built b) × (rs ≢ [])
        × (sum ≡ some value)
        × (run_passes b c q fuel value (first_pass b rng) ≡ some (next t))
        × (r ≡ finish b q t)
  unfolding checked run
  checked-success fuel rng none rs r e = cc
  checked-success fuel rng (some value) [] r e = cc
  checked-success fuel rng (some value) (o ∷ rs) r e =
      let (t, ran, same) = outcome-success _ r e in (value, t, (λ f. cc), refl, ran, same)

  -- A successful call went through the loop, with recipients and the sum of their amounts.
  pub select-run_passes :
      (fuel : ℕ) (rng : b.Rng) (r : Selected b)
      → select b c q fuel rng ≡ success r
      → (value : ℤ) × (t : Built b) × (q.vec_send ≢ [])
        × (value ≡ total q.vec_send)
        × (run_passes b c q fuel value (first_pass b rng) ≡ some (next t))
        × (r ≡ finish b q t)
  unfolding select
  select-run_passes fuel rng r e =
      let (value, t, n, sum, ran, same) = checked-success fuel rng _ q.vec_send r e in
      (
        value,
        t,
        n,
        add_amounts-total (pos 0) q.vec_send sum ∙ zero_add (total q.vec_send),
        ran,
        same,
      )

  module _ (laws : SolverLaws b) (d : Distinct b q.preset) where
    pass-Sound :
        (value : ℤ) (s : Loop b)
        → q.vec_send ≢ []
        → value ≡ total q.vec_send
        → Keeps b c q value s
        → After (Sound b c q value) (Keeps b c q value) (pass b c q value s)
    unfolding pass
    pass-Sound value s n v k =
        After->>= (Sound b c q value) (Sound b c q value) (Keeps b c q value) (build b c q value s)
          _ (build-Sound b c q value s laws d n v k) (settle-Sound b c q value n v)

    select-Sound :
        (fuel : ℕ) (rng : b.Rng) (r : Selected b)
        → select b c q fuel rng ≡ success r
        → (value : ℤ) × (t : Built b) × Sound b c q value t × (r ≡ finish b q t)
    unfolding first_pass
    select-Sound fuel rng r e =
        let (value, t, n, v, ran, same) = select-run_passes fuel rng r e in
        (
          value,
          t,
          run_passes_rule (Sound b c q value) (Keeps b c q value) value
              (λ s k. pass-Sound value s n v k) fuel (first_pass b rng) t (λ f. cc) ran,
          same,
        )

    -- If the preset inputs are different outputs and the solvers keep what Bitcoin Core documents,
    -- the values of the coins that a successful Select
    -- chooses are exactly the amounts of its outputs and its fee.
    pub select-balance :
        (fuel : ℕ) (rng : b.Rng) (r : Selected b)
        → select b c q fuel rng ≡ success r
        → worth r.coins ≡ total r.vec_send +ℤ r.fee
    unfolding finish
    select-balance fuel rng r e =
        let (value, t, (base, h), same) = select-Sound fuel rng r e in
        rw same (sym h.exact ∙ h.balance)

    -- If the preset inputs are different outputs and the solvers keep what Bitcoin Core documents:
    -- without "subtract fee from amount" the recipients get what was asked for, in order; a change
    -- output, if there is one, stands behind them, at the position that is reported, and -1 is
    -- reported if there is none.
    pub select-recipients :
        (fuel : ℕ) (rng : b.Rng) (r : Selected b)
        → select b c q fuel rng ≡ success r
        → q.subtract_fee ≡ false
        → ((r.change_pos ≡ negsuc 0) × (r.vec_send ≡ q.vec_send))
          ⊎ ((change : ℤ) × (r.change_pos ≡ pos (length q.vec_send))
              × (r.vec_send ≡ q.vec_send ++ (q.change_address, change) ∷ []))
    unfolding finish
    select-recipients fuel rng r e exact =
        let (value, t, (base, h), same) = select-Sound fuel rng r e in
        rw same (rw (paid_outputs-exact b c q base true q.vec_send exact) at h.outputs)
