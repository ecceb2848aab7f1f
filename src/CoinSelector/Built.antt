-- ===== src/CoinSelector/Built.antt =====
-- The invariants of the loop of CoinSelector::Select: what holds of a transaction under
-- construction, and of the state of a pass that starts again; `build` establishes the first.
use libnunchuk.Base.{◌≡◌, ◌≢◌, ap, sym, ◌∙◌, List, [], ◌∷◌, ◌++◌, Bool, true, false, arith, ◌⊎◌}
use libnunchuk.Base.Int.{ℤ, pos, negsuc, ◌+ℤ◌, ◌-ℤ◌, ◌≤ℤ◌, int_laws, parts}
use libnunchuk.Base.Lists.{length}
use libnunchuk.Types.{TxOutput}
use libnunchuk.CoinSelector.Bitcoin.{Bitcoin}
use libnunchuk.CoinSelector.Choose.{CoinSelector}
use libnunchuk.CoinSelector.Step.{Loop, After, After->>=}
use libnunchuk.CoinSelector.Pay.{Request, Paid, pay_recipients}
use libnunchuk.CoinSelector.Pass.{Built, params, value_to_select, choose_inputs, add_change, build}
use libnunchuk.CoinSelector.Totals.{total, worth, total-append}
use libnunchuk.CoinSelector.Funded.{SolverLaws, Distinct, select_coins-IsFunded}
use libnunchuk.CoinSelector.PayTotal.{
  paid_outputs, pay_recipients-outputs, value_to_select-total, length-paid_outputs,
}

module _ (b : Bitcoin) (c : CoinSelector b) (q : Request) where
  -- The outputs are the recipients', and then the change if there is one, at its position.
  abbrev pub Outputs : ℤ → Built b → Type 0
  Outputs base t =
      ((t.change_pos ≡ negsuc 0) × (t.vout ≡ paid_outputs b c q base true q.vec_send))
      ⊎ ((change : ℤ) × (t.change_pos ≡ pos (length q.vec_send))
          × (t.vout ≡ paid_outputs b c q base true q.vec_send ++ (q.change_address, change) ∷ []))

  -- The coins pay for the outputs and the fee; `base` is the fee that the recipients were paid at.
  pub record IsBuilt (value base : ℤ) (t : Built b) : Type 0 where
    pub exact : t.loop.value_in ≡ worth t.loop.coins
    pub balance : t.loop.value_in ≡ total t.vout +ℤ t.loop.fee
    pub reaches : value_to_select b c q value base ≤ℤ t.loop.value_in
    pub outputs : Outputs base t

  -- Coins that are kept for the next pass have the value that is reported, which suffices.
  abbrev pub Keeps : ℤ → Loop b → Type 0
  Keeps value s =
      s.pick_new_inputs ≡ false
      → (s.value_in ≡ worth s.coins) × (value_to_select b c q value s.fee ≤ℤ s.value_in)

  record Chosen (fee target : ℤ) (r : Loop b × Bool) : Type 0 where
    same_fee : r.0.fee ≡ fee
    exact : r.0.value_in ≡ worth r.0.coins
    reaches : target ≤ℤ r.0.value_in

  choose_inputs-Chosen :
      (value : ℤ) (s : Loop b) (p : Paid b)
      → SolverLaws b
      → Distinct b q.preset
      → Keeps value s
      → After
          (Chosen s.fee (value_to_select b c q value s.fee))
          (Keeps value)
          (choose_inputs b c q (value_to_select b c q value s.fee) s p)
  unfolding choose_inputs
  choose_inputs-Chosen value s p laws d k = ground (
    arith,
    k,
    select_coins-IsFunded b laws c q.available q.preset (value_to_select b c q value s.fee)
        (params b c q s p) s.rng d,
  )

  add_change-IsBuilt :
      (value base : ℤ) (s : Loop b) (p : Paid b) (bnb_used : Bool)
      → q.vec_send ≢ []
      → value ≡ total q.vec_send
      → p.vout ≡ paid_outputs b c q base true q.vec_send
      → Chosen base (value_to_select b c q value base) (s, bnb_used)
      → IsBuilt value base (add_change b c q (value_to_select b c q value base) s p bnb_used)
  unfolding add_change
  add_change-IsBuilt value base s p bnb_used n v paid h =
      let target = value_to_select b c q value base in
      let n_change = s.value_in -ℤ target in
      let change : List TxOutput = (q.change_address, n_change) ∷ [] in
      let owed : target ≡ total p.vout +ℤ base =
        value_to_select-total b c q value base n v ∙ ap (λ o. total o +ℤ base) (sym paid) in
      let count : length p.vout ≡ length q.vec_send =
        ap length paid ∙ length-paid_outputs b c q base true q.vec_send in
      grind (
        int_laws,
        parts owed,
        count,
        paid,
        h.exact,
        parts h.same_fee,
        parts (total-append p.vout change),
      )

  -- A transaction that some base fee explains.
  abbrev pub Sound : ℤ → Built b → Type 0
  Sound value t = (base : ℤ) × IsBuilt value base t

  pub build-Sound :
      (value : ℤ) (s : Loop b)
      → SolverLaws b
      → Distinct b q.preset
      → q.vec_send ≢ []
      → value ≡ total q.vec_send
      → Keeps value s
      → After (Sound value) (Keeps value) (build b c q value s)
  unfolding build
  build-Sound value s laws d n v k =
      let target = value_to_select b c q value s.fee in
      After->>= (λ (p : Paid b). p.vout ≡ paid_outputs b c q s.fee true q.vec_send) (Sound value)
        (Keeps value) (pay_recipients b c q s.fee true q.vec_send) _
        (pay_recipients-outputs b c q (Keeps value) s.fee true q.vec_send)
        λ p paid.
          After->>= (Chosen s.fee target) (Sound value) (Keeps value)
            (choose_inputs b c q target s p) _ (choose_inputs-Chosen value s p laws d k)
            λ r chosen. (s.fee, add_change-IsBuilt value s.fee r.0 p r.1 n v paid chosen)
