-- ===== src/CoinSelector/Settled.antt =====
-- The balance of a transaction through the branches of `settle`, the end of a pass.
use libnunchuk.Base.{
  ◌≡◌, ◌≢◌, refl, ap, sym, ◌∙◌, [], ◌∷◌, ◌++◌, true, false, arith, inl, inr, Bool-cases,
}
use libnunchuk.Base.Int.{ℤ, pos, negsuc, ◌+ℤ◌, ◌-ℤ◌, int_laws, parts, +ℤ_parts, ltb_ℤ, leb_ℤ}
use libnunchuk.CoinSelector.Bitcoin.{Bitcoin}
use libnunchuk.CoinSelector.Choose.{CoinSelector}
use libnunchuk.CoinSelector.Step.{After}
use libnunchuk.CoinSelector.Pay.{Request}
use libnunchuk.CoinSelector.Pass.{
  Built, fee_needed, fee_needed_with_change, no_change, fee_in_excess, with_smaller_fee,
  has_extra_fee, increase_change, enough_fee, change_is_large, reduce_change, with_more_fee,
  more_fee, settle, add_last, to_int, calculate_maximum_signed_tx_size,
}
use libnunchuk.CoinSelector.Totals.{total, worth, total-append, add_last-append}
use libnunchuk.CoinSelector.PayTotal.{paid_outputs, value_to_select-total, value_to_select-cases}
use libnunchuk.CoinSelector.Built.{IsBuilt, Keeps, Sound}

module _ (b : Bitcoin) (c : CoinSelector b) (q : Request) (value : ℤ) where
  -- Moving an amount between the change and the fee keeps the balance.
  moved-IsBuilt :
      (base d : ℤ) (t u : Built b)
      → IsBuilt b c q value base t
      → no_change b c q t ≡ false
      → u.loop.value_in ≡ t.loop.value_in
      → u.loop.coins ≡ t.loop.coins
      → u.loop.fee ≡ t.loop.fee -ℤ d
      → u.change_pos ≡ t.change_pos
      → u.vout ≡ add_last d t.vout
      → IsBuilt b c q value base u
  moved-IsBuilt base d t u h has_change value_in coins fee place vout = elim h.outputs [
    | inl (absent, _) ↦ absurd_change absent
    | inr (change, at, paid) ↦
        let before = paid_outputs b c q base true q.vec_send in
        let after : u.vout ≡ before ++ (q.change_address, change +ℤ d) ∷ [] =
          vout ∙ ap (add_last d) paid ∙ add_last-append d before q.change_address change in
        record {
          exact = value_in ∙ h.exact ∙ ap worth (sym coins);
          balance = omega (
            int_laws,
            parts value_in,
            parts fee,
            parts h.balance,
            parts (ap total paid),
            parts (ap total after),
            parts (total-append before ((q.change_address, change) ∷ [])),
            parts (total-append before ((q.change_address, change +ℤ d) ∷ [])),
          );
          reaches = omega (arith, h.reaches, parts value_in);
          outputs = inr (change +ℤ d, place ∙ at, after);
        }
  ]
    where
      absurd_change : t.change_pos ≡ negsuc 0 → IsBuilt b c q value base u
      absurd_change e = absurd (ground (arith, e, has_change))

  has_extra_fee-lem :
      (t : Built b) (n_bytes : ℤ) → has_extra_fee b c q t n_bytes ≡ true → no_change b c q t ≡ false
  unfolding has_extra_fee
  has_extra_fee-lem t n_bytes e = ground (arith, e)

  change_is_large-lem :
      (t : Built b) (n_bytes : ℤ)
      → change_is_large b c q t n_bytes ≡ true
      → no_change b c q t ≡ false
  unfolding change_is_large
  change_is_large-lem t n_bytes e = ground (arith, e)

  increase_change-IsBuilt :
      (base : ℤ) (t : Built b) (n_bytes : ℤ)
      → IsBuilt b c q value base t
      → no_change b c q t ≡ false
      → IsBuilt b c q value base (increase_change b c q t n_bytes)
  unfolding increase_change
  increase_change-IsBuilt base t n_bytes h e = moved-IsBuilt base _ t _ h e refl refl refl refl refl

  reduce_change-IsBuilt :
      (base : ℤ) (t : Built b) (n_bytes : ℤ)
      → IsBuilt b c q value base t
      → no_change b c q t ≡ false
      → IsBuilt b c q value base (reduce_change b c q t n_bytes)
  unfolding reduce_change
  reduce_change-IsBuilt base t n_bytes h e =
      let additional = fee_needed b c q n_bytes -ℤ t.loop.fee in
      moved-IsBuilt base (pos 0 -ℤ additional) t _ h e refl refl (omega int_laws) refl refl

  module _ (n : q.vec_send ≢ []) (v : value ≡ total q.vec_send) where
    with_smaller_fee-Keeps :
        (base : ℤ) (t : Built b) (n_bytes : ℤ)
        → IsBuilt b c q value base t
        → fee_in_excess b c q t n_bytes ≡ true
        → Keeps b c q value (with_smaller_fee b c q t n_bytes)
    unfolding fee_in_excess with_smaller_fee
    with_smaller_fee-Keeps base t n_bytes h e k = elim h.outputs [
      | inl (absent, paid) ↦ ground (
        arith,
        value_to_select-cases b c q value base,
        value_to_select-cases b c q value (fee_needed_with_change b c q n_bytes),
        parts (value_to_select-total b c q value base n v),
        ap total paid,
        h.exact,
        +ℤ_parts value (fee_needed_with_change b c q n_bytes),
        +ℤ_parts value base,
        +ℤ_parts (fee_needed_with_change b c q n_bytes) (pos 294),
        +ℤ_parts (total t.vout) base,
        +ℤ_parts (total t.vout) t.loop.fee,
      )
      | inr (change, at, paid) ↦ absurd (ground (arith, at, e))
    ]

    with_more_fee-Keeps :
        (base : ℤ) (t : Built b) (n_bytes : ℤ)
        → IsBuilt b c q value base t
        → t.loop.pick_new_inputs ≡ true
        → Keeps b c q value (with_more_fee b c q t n_bytes)
    unfolding with_more_fee
    with_more_fee-Keeps base t n_bytes h e k = ground (
      arith,
      value_to_select-cases b c q value base,
      value_to_select-cases b c q value (fee_needed b c q n_bytes),
      h.exact,
      h.reaches,
    )

    enough_fee-Sound :
        (base : ℤ) (t : Built b) (n_bytes : ℤ)
        → IsBuilt b c q value base t
        → After (Sound b c q value) (Keeps b c q value) (enough_fee b c q t n_bytes)
    unfolding enough_fee
    enough_fee-Sound base t n_bytes h = elim (Bool-cases (fee_in_excess b c q t n_bytes)) [
      | inl e ↦ rw e (with_smaller_fee-Keeps base t n_bytes h e)
      | inr e ↦ rw e (elim (Bool-cases (has_extra_fee b c q t n_bytes)) [
        | inl f ↦
            rw f (base, increase_change-IsBuilt base t n_bytes h (has_extra_fee-lem t n_bytes f))
        | inr f ↦ rw f (base, h)
      ])
    ]

    more_fee-Sound :
        (base : ℤ) (t : Built b) (n_bytes : ℤ)
        → IsBuilt b c q value base t
        → t.loop.pick_new_inputs ≡ true
        → After (Sound b c q value) (Keeps b c q value) (more_fee b c q t n_bytes)
    unfolding more_fee
    more_fee-Sound base t n_bytes h p = elim (Bool-cases (change_is_large b c q t n_bytes)) [
      | inl e ↦
          rw e (base, reduce_change-IsBuilt base t n_bytes h (change_is_large-lem t n_bytes e))
      | inr e ↦ rw e (with_more_fee-Keeps base t n_bytes h p)
    ]

    -- Whatever branch `settle` takes, the balance stays, and coins that are kept suffice.
    pub settle-Sound :
        (t : Built b)
        → Sound b c q value t
        → After (Sound b c q value) (Keeps b c q value) (settle b c q t)
    unfolding settle
    settle-Sound t (base, h) =
        let n_bytes = to_int (calculate_maximum_signed_tx_size b c q t) in
        elim (Bool-cases (ltb_ℤ n_bytes (pos 0))) [
          | inl e ↦ rw e tt
          | inr e ↦ rw e (elim (Bool-cases (leb_ℤ (fee_needed b c q n_bytes) t.loop.fee)) [
            | inl f ↦ rw f (enough_fee-Sound base t n_bytes h)
            | inr f ↦ rw f (elim (Bool-cases t.loop.pick_new_inputs) [
              | inl p ↦ simp p (more_fee-Sound base t n_bytes h p)
              | inr p ↦ simp p tt
            ])
          ])
        ]
