-- ===== src/Nunchuk/NewAddress.antt =====
-- NewAddress of src/nunchukimpl.cpp.
use libnunchuk.Base.{
  ℕ, zero, suc, ◌+◌, ◌≤◌, ◌<◌, ◌≡◌, sym, ap, subst, ◌∙◌, ◌⊎◌, inl, inr, some, ◌==◌, Bool, true,
  false, true≢false, arith, Bool-cases,
}
use libnunchuk.Types.{Exception, Result, ok, throw, Result-cases, ◌>>=◌}
use libnunchuk.Nunchuk.{Calls, Found, after_new, new_address}
use libnunchuk.Nunchuk.Answers.{Answers, Thrown, le_or_lt}

-- The first index from a start whose address is not used.
pub record IsFirst (used : ℕ → Bool) (start index : ℕ) : Type 0 where
  pub behind : start ≤ index
  pub unused : used index ≡ false
  pub between : (j : ℕ) → start ≤ j → j < index → used j ≡ true

further :
    (used : ℕ → Bool) (start index : ℕ)
    → used start ≡ true
    → IsFirst used (start + 1) index
    → IsFirst used start index
further used start index e h = record {
  behind = omega (arith, h.behind);
  unused = h.unused;
  between = λ j l m. elim (Bool-cases (j == start)) [
    | inl same ↦ let eq : j ≡ start = ground arith in subst (λ i. used i ≡ true) (sym eq) e
    | inr other ↦ h.between j (ground arith) m
  ];
}

module _ {S : Type 0} (calls : Calls S) (used : ℕ → Bool) where
  -- A search that ends with the address of that index, or with an exception of a call.
  abbrev pub FindsFirst : ℕ → Found calls → Type 0
  FindsFirst start found =
      ((r : ℕ) × (found ≡ some (ok (calls.derive_address r, r))) × IsFirst used start r)
      ⊎ ((e : Exception) × (found ≡ some (throw e)) × Thrown calls e)

  further_Finds :
      (start : ℕ) {found found2 : Found calls}
      → used start ≡ true
      → found ≡ found2
      → FindsFirst (start + 1) found2
      → FindsFirst start found
  further_Finds start y same (inl (r, runs, first)) =
      inl (r, same ∙ runs, further used start r y first)
  further_Finds start y same (inr (e, runs, thrown)) = inr (e, same ∙ runs, thrown)

module _ {S : Type 0} (calls : Calls S) (used : ℕ → Bool) (bound : ℕ)
    (h : Answers calls used bound) where
  -- The search ends within a number of rounds that the bound gives.
  pub new_address-IsFirst :
      (fuel start : ℕ) (s : S)
      → bound < fuel + start
      → 0 < fuel
      → FindsFirst calls used start (new_address calls fuel start s)
  unfolding new_address
  new_address-IsFirst zero start s b f = absurd (omega (arith, f))
  new_address-IsFirst (suc fuel) start s b f =
      let address = calls.derive_address start in
      let next = λ (x : S). new_address calls fuel (start + 1) x in
      let look = λ (r : Result (Bool × S)). after_new calls address start r next in
      elim (Result-cases (calls.look_ahead address start s)) [
        | inr (e, thrown) ↦ inr (e, ap look thrown, inl (address, start, s, thrown))
        | inl ((d, t), e) ↦
            let told : d ≡ used start = h.looks start s t d e in
            elim (Bool-cases (used start)) [
              | inl y ↦
                  let before : start < bound = elim (le_or_lt bound start) [
                    | inl l ↦ absurd (true≢false (sym y ∙ h.ends start l))
                    | inr l ↦ l
                  ] in
                  further_Finds calls used start y
                    (ap look e ∙ ap (λ d. look (ok (d, t))) (told ∙ y))
                    (new_address-IsFirst fuel (start + 1) t (omega (arith, b))
                      (omega (arith, b, before)))
              | inr n ↦
                  let read : look (calls.look_ahead address start s)
                      ≡ some
                          (◌>>=◌ (calls.add_address address start t) (λ x. ok (address, start))) =
                    ap look e ∙ ap (λ d. look (ok (d, t))) (told ∙ n) in
                  elim (Result-cases (calls.add_address address start t)) [
                    | inr (x, thrown) ↦ inr (
                      x,
                      read ∙ ap (λ m. some (◌>>=◌ m (λ x. ok (address, start)))) thrown,
                      inr (address, start, t, thrown),
                    )
                    | inl (u, a) ↦ inl (
                      start,
                      read ∙ ap (λ m. some (◌>>=◌ m (λ x. ok (address, start)))) a,
                      record {
                        behind = omega arith;
                        unused = n;
                        between = λ j l m. absurd (omega (arith, l, m));
                      },
                    )
                  ]
            ]
      ]
