-- ===== src/Nunchuk/Gap.antt =====
-- The gap of unused addresses that src/nunchukimpl.cpp looks for.
use libnunchuk.Base.{
  ℕ, zero, suc, ◌+◌, ◌-◌, ◌≤◌, ◌<◌, ◌≡◌, refl, sym, ap, subst, ◌∙◌, ◌⊎◌, inl, inr, List, [], ◌∷◌,
  ◌++◌, some, ◌==◌, Bool, true, false, arith, Bool-cases, true≢false,
}
use libnunchuk.Base.Text.{Text}
use libnunchuk.Types.{Exception, Result, ok, throw, Result-cases, ◌>>=◌}
use libnunchuk.Nunchuk.Answers.{Answers, Thrown, le_or_lt}
use libnunchuk.Nunchuk.{
  Calls, Found, first_address, add_all, go_used, go_unused, after_look, scan, get_unused_address,
  gap_limit,
}

-- The start of the first gap from an index: no address of the gap is used, and the one before is,
-- where it is not the first; and from every index before, one of 20 addresses is used.
pub record IsGap (used : ℕ → Bool) (start index : ℕ) : Type 0 where
  pub behind : start ≤ index
  pub unused : (j : ℕ) → j < gap_limit → used (index + j) ≡ false
  pub edge : (start ≡ index) ⊎ ((p : ℕ) × (suc p ≡ index) × (used p ≡ true))
  pub first : (i : ℕ) → start ≤ i → i < index → (j : ℕ) × (j < gap_limit) × (used (i + j) ≡ true)

first-append :
    (xs ys : List Text) (a : Text) → first_address xs ≡ ok a → first_address (xs ++ ys) ≡ ok a
first-append [] ys a h = cc
first-append (x ∷ xs) ys a h = h

extend :
    (used : ℕ → Bool) (base count : ℕ)
    → ((j : ℕ) → j < count → used (base + j) ≡ false)
    → used (base + count) ≡ false
    → (j : ℕ) → j < count + 1
    → used (base + j) ≡ false
extend used base count h e j l = elim (Bool-cases (j == count)) [
  | inl same ↦ let eq : j ≡ count = ground arith in rw eq e
  | inr other ↦ h j (ground arith)
]

module _ {S : Type 0} (calls : Calls S) (used : ℕ → Bool) where
  -- A search that ends with the address of the start of the gap, or with an exception of a call.
  abbrev pub Finds : ℕ → Found calls → Type 0
  Finds start found =
      ((r : ℕ) × (found ≡ some (ok (calls.derive_address r, r))) × IsGap used start r)
      ⊎ ((e : Exception) × (found ≡ some (throw e)) × Thrown calls e)

module _ {S : Type 0} (calls : Calls S) (used : ℕ → Bool) (bound : ℕ)
    (h : Answers calls used bound) where
  add_all-outcome :
      (skipped : List Text) (i : ℕ) (s : S)
      → ((t : S) × (add_all calls skipped i s ≡ ok t))
        ⊎ ((e : Exception) × (add_all calls skipped i s ≡ throw e) × Thrown calls e)
  unfolding add_all
  add_all-outcome [] i s = inl (s, refl)
  add_all-outcome (a ∷ rest) i s =
      let next = λ (m : Result S). ◌>>=◌ m (λ x. add_all calls rest i x) in
      elim (Result-cases (calls.add_address a i s)) [
        | inr (e, thrown) ↦ inr (e, ap next thrown, inr (a, i, s, thrown))
        | inl (t, added) ↦ elim (add_all-outcome rest i t) [
          | inl (u, f) ↦ inl (u, ap next added ∙ f)
          | inr (e, f, thrown) ↦ inr (e, ap next added ∙ f, thrown)
        ]
      ]

  -- What the loop knows at an index: the gap so far, from its base on, and that the fuel is enough.
  record Going (fuel start base index count : ℕ) (unused : List Text) : Type 0 where
    at : index ≡ base + count
    behind : start ≤ base
    short : count < gap_limit
    gap : (j : ℕ) → j < count → used (base + j) ≡ false
    edge : (start ≡ base) ⊎ ((p : ℕ) × (suc p ≡ base) × (used p ≡ true))
    first : (i : ℕ) → start ≤ i → i < base → (j : ℕ) × (j < gap_limit) × (used (i + j) ≡ true)
    front :
        first_address (unused ++ calls.derive_address index ∷ []) ≡ ok (calls.derive_address base)
    late : bound ≤ index → gap_limit ≤ fuel + count
    early : index < bound → bound + gap_limit ≤ fuel + index

  after-used :
      (fuel start base index count : ℕ) (unused : List Text)
      → Going (suc fuel) start base index count unused
      → used index ≡ true
      → Going fuel start (index + 1) (index + 1) 0 []
  after-used fuel start base index count unused g e =
      let before : index < bound = elim (le_or_lt bound index) [
        | inl l ↦ absurd (true≢false (sym e ∙ h.ends index l))
        | inr l ↦ l
      ] in
      record {
        at = omega arith;
        behind = omega (arith, g.at, g.behind);
        short = omega arith;
        gap = λ j l. absurd (omega arith);
        edge = inr (index, omega arith, e);
        first = λ i l m. elim (le_or_lt base i) [
          | inl q ↦
              let place : i + (index - i) ≡ index = omega (arith, m) in
              (index - i, omega (arith, g.at, g.short, q), subst (λ n. used n ≡ true) (sym place) e)
          | inr q ↦ g.first i l q
        ];
        front = refl;
        late = λ l. omega (arith, g.early before);
        early = λ l. omega (arith, g.early before);
      }

  after-unused :
      (fuel start base index count : ℕ) (unused : List Text)
      → Going (suc fuel) start base index count unused
      → used index ≡ false
      → (count + 1 == gap_limit) ≡ false
      → Going fuel start base (index + 1) (count + 1) (unused ++ calls.derive_address index ∷ [])
  after-unused fuel start base index count unused g e k = record {
    at = omega (arith, g.at);
    behind = g.behind;
    short = ground (arith, g.short);
    gap = extend used base count g.gap (subst (λ i. used i ≡ false) g.at e);
    edge = g.edge;
    first = g.first;
    front = first-append (unused ++ calls.derive_address index ∷ []) _ _ g.front;
    late = λ l. elim (le_or_lt bound index) [
      | inl q ↦ omega (arith, g.late q)
      | inr q ↦ omega (arith, g.early q, l)
    ];
    early = λ l. omega (arith, g.early (omega (arith, l)));
  }

  Going-IsGap :
      (fuel start base index count : ℕ) (unused : List Text)
      → Going fuel start base index count unused
      → used index ≡ false
      → (count + 1 == gap_limit) ≡ true
      → IsGap used start base
  Going-IsGap fuel start base index count unused g e k =
      let size : count + 1 ≡ gap_limit = ground arith in
      record {
        behind = g.behind;
        unused = λ j l.
            extend used base count g.gap (subst (λ i. used i ≡ false) g.at e) j
              (subst (λ n. j < n) (sym size) l);
        edge = g.edge;
        first = g.first;
      }

  go_unused-full :
      {fuel : ℕ} (start base index count : ℕ) (unused : List Text) (t : S)
      → Going fuel start base index count unused
      → (count + 1 == gap_limit) ≡ true
      → (next : S → Found calls)
      → go_unused calls
          (count + 1 == gap_limit)
          (unused ++ calls.derive_address index ∷ [])
          (index + 1)
          t
          next
        ≡ some (ok (calls.derive_address base, base))
  go_unused-full start base index count unused t g full next =
      let skipped = unused ++ calls.derive_address index ∷ [] in
      let size : count + 1 ≡ gap_limit = ground arith in
      let place : index + 1 - gap_limit ≡ base = omega (arith, g.at, size) in
      ap (λ b. go_unused calls b skipped (index + 1) t next) full
      ∙ ap (λ m. some (◌>>=◌ m (λ a. ok (a, index + 1 - gap_limit)))) g.front
      ∙ ap (λ n. some (ok (calls.derive_address base, n))) place

  scan-Finds :
      (fuel start base index count : ℕ) (unused : List Text) (s : S)
      → Going fuel start base index count unused
      → Finds calls used start (scan calls fuel index count unused s)
  unfolding scan
  scan-Finds zero start base index count unused s g = elim (le_or_lt bound index) [
    | inl q ↦ absurd (omega (arith, g.late q, g.short))
    | inr q ↦ absurd (omega (arith, g.early q, q))
  ]
  scan-Finds (suc fuel) start base index count unused s g =
      let address = calls.derive_address index in
      let used_next = λ (x : S). scan calls fuel (index + 1) 0 [] x in
      let unused_next =
        λ (x : S). scan calls fuel (index + 1) (count + 1) (unused ++ address ∷ []) x in
      let look = λ (r : Result (Bool × S)).
        after_look calls unused address index count r used_next unused_next in
      elim (Result-cases (calls.look_ahead address index s)) [
        | inr (e, thrown) ↦ inr (e, ap look thrown, inl (address, index, s, thrown))
        | inl ((b, t), e) ↦
            let told : b ≡ used index = h.looks index s t b e in
            elim (Bool-cases (used index)) [
              | inl y ↦
                  let read : look (calls.look_ahead address index s)
                      ≡ go_used calls (add_all calls unused index t) used_next =
                    ap look e ∙ ap (λ d. look (ok (d, t))) (told ∙ y) in
                  elim (add_all-outcome unused index t) [
                    | inr (x, f, thrown) ↦
                        inr (x, read ∙ ap (λ m. go_used calls m used_next) f, thrown)
                    | inl (u, f) ↦
                        subst (Finds calls used start)
                          (sym (read ∙ ap (λ m. go_used calls m used_next) f))
                          (scan-Finds fuel start (index + 1) (index + 1) 0 [] u
                            (after-used fuel start base index count unused g y))
                  ]
              | inr y ↦
                  let read : look (calls.look_ahead address index s)
                      ≡ go_unused calls (count + 1 == gap_limit) (unused ++ address ∷ [])
                          (index + 1) t unused_next =
                    ap look e ∙ ap (λ d. look (ok (d, t))) (told ∙ y) in
                  elim (Bool-cases (count + 1 == gap_limit)) [
                    | inl full ↦ inl (
                      base,
                      read ∙ go_unused-full start base index count unused t g full unused_next,
                      Going-IsGap (suc fuel) start base index count unused g y full,
                    )
                    | inr more ↦
                        subst (Finds calls used start)
                          (sym (
                            read
                            ∙ ap
                                (λ d.
                                  go_unused calls d (unused ++ address ∷ []) (index + 1) t
                                    unused_next)
                                more))
                          (scan-Finds fuel start base (index + 1) (count + 1)
                            (unused ++ address ∷ []) t
                            (after-unused fuel start base index count unused g y more))
                  ]
            ]
      ]

  -- The search ends within a number of rounds that the bound gives.
  pub get_unused_address-IsGap :
      (fuel start : ℕ) (s : S)
      → gap_limit + bound ≤ fuel + start
      → gap_limit ≤ fuel
      → Finds calls used start (get_unused_address calls fuel start s)
  unfolding get_unused_address
  get_unused_address-IsGap fuel start s enough most =
      scan-Finds fuel start start start 0 [] s (record {
        at = omega arith;
        behind = omega arith;
        short = omega arith;
        gap = λ j l. absurd (omega arith);
        edge = inl refl;
        first = λ i l m. absurd (omega (arith, l, m));
        front = refl;
        late = λ l. omega arith;
        early = λ l. omega arith;
      })
