-- ===== src/CoinSelector/Terminates.antt =====
-- The passes of the loop of CoinSelector::Select, counted: what each pass that starts again changes.
use libnunchuk.Base.{
  ℕ, zero, suc, ◌+◌, ◌-◌, ◌^◌, ◌≤◌, ◌<◌, ◌≡◌, ◌≢◌, refl, ◌∙◌, List, [], ◌∷◌, Option, none, some,
  Bool, true, false, arith, inl, inr, Bool-cases, if◌then◌else◌,
}
use libnunchuk.Base.Int.{ℤ, pos, negsuc, pos_part, ◌≤ℤ◌, int_laws, ltb_ℤ, leb_ℤ}
use libnunchuk.CoinSelector.Bitcoin.{Bitcoin}
use libnunchuk.CoinSelector.Bitcoin.{Filter}
use libnunchuk.CoinSelector.Pool.{Group, CoinSelectionParams, group_outputs}
use libnunchuk.CoinSelector.Choose.{
  CoinSelector, Selection, default_ancestor_limit, default_filters, select_coins_min_conf,
  try_filters, insert_presets, select_coins,
}
use libnunchuk.Types.{TxOutput, UnspentOutput}
use libnunchuk.CoinSelector.Step.{Loop, Step, next, retry, failed, After, After->>=, After-weaken}
use libnunchuk.CoinSelector.Pay.{Request, Paid, pay_recipients}
use libnunchuk.CoinSelector.Pass.{
  Built, params, value_to_select, choose_inputs, add_change, build, fee_needed, fee_in_excess,
  with_smaller_fee, enough_fee, with_more_fee, more_fee, settle, pass, to_int,
  calculate_maximum_signed_tx_size,
}
use libnunchuk.CoinSelector.PayTotal.{pay_recipients-outputs}
use libnunchuk.CoinSelector.Select.{
  out_of_fuel, first_pass, run_passes, outcome, run, checked, select,
}

to_int-lt : (x : ℤ) → pos_part (to_int x) < 2 ^ 32
unfolding to_int
to_int-lt (pos n) = ground arith
to_int-lt (negsuc n) = ground arith

module _ (b : Bitcoin) (c : CoinSelector b) (q : Request) (bound : ℕ) where
  -- What is left to try in a state: nothing once the coins stay.
  abbrev pub measure : Loop b → ℕ
  measure s =
      if s.pick_new_inputs then (if s.use_bnb then 2 else 1) + (bound - pos_part s.fee) else 0

  -- While coins are picked the fee is not negative.
  abbrev pub Valid : Loop b → Type 0
  Valid s = s.pick_new_inputs ≡ true → pos 0 ≤ℤ s.fee

  abbrev Falls : Loop b → Loop b → Type 0
  Falls s s' = (measure s' < measure s) × Valid s'

  abbrev Grown : Loop b → Loop b → Type 0
  Grown s u = (u.pick_new_inputs ≡ s.pick_new_inputs) × (u.use_bnb ≡ s.use_bnb) × (s.fee ≤ℤ u.fee)

  Grown-trans : (s t u : Loop b) → Grown s t → Grown t u → Grown s u
  Grown-trans s t u g h = (h.0 ∙ g.0, h.1 ∙ g.1, omega (arith, g.2, h.2))

  -- Branch and bound is used only if the parameters ask for it.
  try_filters-bnb_used :
      (target : ℤ) (fs : List (Bool × Filter)) (groups : List (Group b))
      (params : CoinSelectionParams b) (s : Selection b)
      → (s.bnb_used ≡ true → params.use_bnb ≡ true)
      → (try_filters b c target fs groups params s).1.bnb_used ≡ true
      → params.use_bnb ≡ true
  unfolding try_filters
  try_filters-bnb_used target [] groups params s h = h
  try_filters-bnb_used target ((allowed, filter) ∷ fs) groups params s h =
      let r = select_coins_min_conf b c target filter groups params s in
      ground (
        arith,
        h,
        try_filters-bnb_used target fs groups params s h,
        try_filters-bnb_used target fs groups params r.1,
      )

  insert_presets-bnb_used :
      (os : List UnspentOutput) (s : Selection b) → (insert_presets b os s).bnb_used ≡ s.bnb_used
  unfolding insert_presets
  insert_presets-bnb_used [] s = refl
  insert_presets-bnb_used (o ∷ os) s = insert_presets-bnb_used os _

  select_coins-bnb_used :
      (available preset : List UnspentOutput) (target : ℤ) (params : CoinSelectionParams b)
      (s : Selection b)
      → (select_coins b c available preset target params s).1.bnb_used ≡ true
      → params.use_bnb ≡ true
  unfolding select_coins
  select_coins-bnb_used available [] target params s h = ground (
    arith,
    try_filters-bnb_used target default_filters (group_outputs b available default_ancestor_limit)
        params (record s { bnb_used = false }) (λ e. cc),
  )
  select_coins-bnb_used available (o ∷ os) target params s h =
      ground (arith, insert_presets-bnb_used (o ∷ os) (record s { bnb_used = false }))

  params-use_bnb : (s : Loop b) (p : Paid b) → (params b c q s p).use_bnb ≡ s.use_bnb
  unfolding params
  params-use_bnb s p = refl

  choose_inputs-Falls :
      (target : ℤ) (s : Loop b) (p : Paid b)
      → Valid s
      → After (λ (r : Loop b × Bool). Grown s r.0) (Falls s) (choose_inputs b c q target s p)
  unfolding choose_inputs
  choose_inputs-Falls target s p h = ground (
    arith,
    h,
    select_coins-bnb_used q.available q.preset target (params b c q s p)
        (record { coins = []; value = pos 0; bnb_used = false; rng = s.rng }),
    params-use_bnb s p,
  )

  add_change-Grown :
      (target : ℤ) (s : Loop b) (p : Paid b) (bnb_used : Bool)
      → Grown s (add_change b c q target s p bnb_used).loop
  unfolding add_change
  add_change-Grown target s p bnb_used = grind int_laws

  module _ (fees : (n : ℕ) → n < 2 ^ 32 → b.get_fee c.fee_rate n ≤ℤ pos bound) where
    enough_fee-Falls :
        (s : Loop b) (t : Built b) (n_bytes : ℤ)
        → Grown s t.loop
        → After (λ (u : Built b). Unit {0}) (Falls s) (enough_fee b c q t n_bytes)
    unfolding enough_fee fee_in_excess with_smaller_fee
    enough_fee-Falls s t n_bytes g = ground (arith, g)

    more_fee-Falls :
        (s : Loop b) (t : Built b) (n_bytes : ℤ)
        → Valid s
        → Grown s t.loop
        → pos_part n_bytes < 2 ^ 32
        → t.loop.pick_new_inputs ≡ true
        → leb_ℤ (fee_needed b c q n_bytes) t.loop.fee ≡ false
        → After (λ (u : Built b). Unit {0}) (Falls s) (more_fee b c q t n_bytes)
    unfolding more_fee with_more_fee fee_needed
    more_fee-Falls s t n_bytes h g small picks short =
        ground (arith, h, g, fees (pos_part n_bytes) small)

    settle-Falls :
        (s : Loop b) (t : Built b)
        → Valid s
        → Grown s t.loop
        → After (λ (u : Built b). Unit {0}) (Falls s) (settle b c q t)
    unfolding settle
    settle-Falls s t h g =
        let n_bytes = to_int (calculate_maximum_signed_tx_size b c q t) in
        elim (Bool-cases (ltb_ℤ n_bytes (pos 0))) [
          | inl e ↦ rw e tt
          | inr e ↦ rw e (elim (Bool-cases (leb_ℤ (fee_needed b c q n_bytes) t.loop.fee)) [
            | inl f ↦ rw f (enough_fee-Falls s t n_bytes g)
            | inr f ↦ rw f (elim (Bool-cases t.loop.pick_new_inputs) [
              | inl p ↦ simp p (more_fee-Falls s t n_bytes h g (to_int-lt _) p f)
              | inr p ↦ simp p tt
            ])
          ])
        ]

    pay_recipients-any :
        (R : Loop b → Type 0) (fee : ℤ) (first : Bool)
        → After (λ (p : Paid b). Unit {0}) R (pay_recipients b c q fee first q.vec_send)
    pay_recipients-any R fee first =
        After-weaken _ R (pay_recipients b c q fee first q.vec_send)
          (pay_recipients-outputs b c q R fee first q.vec_send)

    pass-Falls :
        (value : ℤ) (s : Loop b)
        → Valid s
        → After (λ (u : Built b). Unit {0}) (Falls s) (pass b c q value s)
    unfolding pass build
    pass-Falls value s h =
        let target = value_to_select b c q value s.fee in
        After->>= (λ (t : Built b). Grown s t.loop) (λ (u : Built b). Unit {0}) (Falls s)
          (build b c q value s) _
          (After->>= (λ (p : Paid b). Unit {0}) (λ (t : Built b). Grown s t.loop) (Falls s)
            (pay_recipients b c q s.fee true q.vec_send) _ (pay_recipients-any (Falls s) s.fee true)
            λ p _.
              After->>= (λ (r : Loop b × Bool). Grown s r.0) (λ (t : Built b). Grown s t.loop)
                (Falls s) (choose_inputs b c q target s p) _ (choose_inputs-Falls target s p h)
                λ r g.
                  Grown-trans s r.0 (add_change b c q target r.0 p r.1).loop g
                    (add_change-Grown target r.0 p r.1))
          λ t g. settle-Falls s t h g

    -- How the loop ends: with a transaction, or with an error.
    abbrev Ends : Option (Step b (Built b)) → Type 0
    Ends none = ⊥
    Ends (some (next t)) = Unit
    Ends (some (retry s)) = ⊥
    Ends (some (failed e)) = Unit

    run_passes-Ends :
        (fuel : ℕ) (value : ℤ) (s : Loop b)
        → measure s < fuel
        → Valid s
        → Ends (run_passes b c q fuel value s)
    unfolding run_passes
    run_passes-Ends zero value s m h = absurd (omega arith)
    run_passes-Ends (suc fuel) value s m h =
        go (pass b c q value s) (pass-Falls value s h) (run_passes-Ends fuel value)
      where
        go :
            (m : Step b (Built b))
            → After (λ (u : Built b). Unit {0}) (Falls s) m
            → ((s' : Loop b) → measure s' < fuel → Valid s' → Ends (run_passes b c q fuel value s'))
            → Ends (elim m [
              | next u ↦ some (next u)
              | retry s' ↦ run_passes b c q fuel value s'
              | failed x ↦ some (failed x)
            ])
        go (next u) f later = tt
        go (retry s') f later = later s' (omega (arith, f.0)) f.1
        go (failed x) f later = tt

    outcome-Ends : (m : Option (Step b (Built b))) → Ends m → outcome b c q m ≢ out_of_fuel
    unfolding outcome
    outcome-Ends none h e = h
    outcome-Ends (some (next t)) h e = cc
    outcome-Ends (some (retry s)) h e = h
    outcome-Ends (some (failed x)) h e = cc

    checked-Ends :
        (fuel : ℕ) (rng : b.Rng) (sum : Option ℤ) (rs : List TxOutput)
        → bound + 3 ≤ fuel
        → checked b c q fuel rng sum rs ≢ out_of_fuel
    unfolding checked run first_pass
    checked-Ends fuel rng none rs m e = cc
    checked-Ends fuel rng (some value) [] m e = cc
    checked-Ends fuel rng (some value) (o ∷ rs) m e =
        outcome-Ends _ (run_passes-Ends fuel value _ (omega arith) (λ _. omega arith)) e

    -- If no transaction needs a fee above `bound`, Select ends within `bound + 3` passes.
    pub select_ends :
        (fuel : ℕ) (rng : b.Rng) → bound + 3 ≤ fuel → select b c q fuel rng ≢ out_of_fuel
    unfolding select
    select_ends fuel rng m = checked-Ends fuel rng _ q.vec_send m
