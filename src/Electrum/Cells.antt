-- ===== src/Electrum/Cells.antt =====
-- The shared states of the promises of src/electrumclient.cpp, and the map of them.
use libnunchuk.Base.{
  ℕ, zero, suc, ◌≡◌, refl, sym, ap, subst, List, [], ◌∷◌, ◌++◌, Option, none, some, ◌==◌, ltb,
  arith, Bool-cases, inl, inr,
}
use libnunchuk.Base.Lists.{length, All}
use libnunchuk.Electrum.Requests.{
  Answer, disconnected, answered, Cell, set_cell, put_first, put_rest, set_value,
}
use libnunchuk.Electrum.Calls.{find_callback, put_callback, erase_callback}

abbrev pub cell_at : ℕ → List Cell → Option Cell
cell_at k [] = none
cell_at zero (c ∷ cells) = some c
cell_at (suc k) (c ∷ cells) = cell_at k cells

abbrev pub owner_of : Option Cell → Option ℕ
owner_of none = none
owner_of (some c) = some c.owner

-- The promise at a place was made for the id.
abbrev pub Owns : List Cell → ℕ × ℕ → Type 0
Owns cells (id, k) = owner_of (cell_at k cells) ≡ some id

-- An answer to a request of the id, if it is one of the server.
abbrev pub IsFor : ℕ → Option Answer → Type 0
IsFor id none = Unit
IsFor id (some disconnected) = Unit
IsFor id (some (answered j r)) = j ≡ id

abbrev pub Fits : Cell → Type 0
Fits c = IsFor c.owner c.value

pub cell_at-new : (cells : List Cell) (c : Cell) → cell_at (length cells) (cells ++ c ∷ []) ≡ some c
cell_at-new [] c = refl
cell_at-new (x ∷ cells) c = cell_at-new cells c

pub Owns-append :
    (cells rest : List Cell) (id k : ℕ) → Owns cells (id, k) → Owns (cells ++ rest) (id, k)
Owns-append [] rest id k h = cc
Owns-append (c ∷ cells) rest id zero h = h
Owns-append (c ∷ cells) rest id (suc k) h = Owns-append cells rest id k h

put_first-inv :
    (o : Option Cell) (cells set : List Cell)
    → put_first o cells ≡ some set
    → (c : Cell) × (o ≡ some c) × (c ∷ cells ≡ set)
put_first-inv none cells set h = cc
put_first-inv (some c) cells set h = (c, refl, ground arith)

put_rest-inv :
    (c : Cell) (o : Option (List Cell)) (set : List Cell)
    → put_rest c o ≡ some set
    → (rest : List Cell) × (o ≡ some rest) × (c ∷ rest ≡ set)
put_rest-inv c none set h = cc
put_rest-inv c (some rest) set h = (rest, refl, ground arith)

set_cell-inv :
    (a : Answer) (i : ℕ) (v : Option Answer) (c : Cell)
    → set_cell a i v ≡ some c
    → record { owner = i; value = some a } ≡ c
set_cell-inv a i none c h = ground arith
set_cell-inv a i (some b) c h = cc

pub owner-set_value :
    (a : Answer) (j : ℕ) (cells set : List Cell)
    → set_value a j cells ≡ some set
    → (k : ℕ) → owner_of (cell_at k set) ≡ owner_of (cell_at k cells)
unfolding set_value
owner-set_value a j [] set h k = cc
owner-set_value a zero (c ∷ cells) set h k =
    let (d, e, whole) = put_first-inv (set_cell a c.owner c.value) cells set h in
    let one : record { owner = c.owner; value = some a } ≡ d = set_cell-inv a c.owner c.value d e in
    subst (λ l. owner_of (cell_at k l) ≡ owner_of (cell_at k (c ∷ cells))) whole
      (subst (λ x. owner_of (cell_at k (x ∷ cells)) ≡ owner_of (cell_at k (c ∷ cells))) one
        (same k))
  where
    same :
        (k : ℕ)
        → owner_of (cell_at k (record { owner = c.owner; value = some a } ∷ cells))
          ≡ owner_of (cell_at k (c ∷ cells))
    same zero = refl
    same (suc k) = refl
owner-set_value a (suc j) (c ∷ cells) set h k =
    let (rest, e, whole) = put_rest-inv c (set_value a j cells) set h in
    subst (λ l. owner_of (cell_at k l) ≡ owner_of (cell_at k (c ∷ cells))) whole
      (same rest (owner-set_value a j cells rest e) k)
  where
    same :
        (rest : List Cell)
        → ((k : ℕ) → owner_of (cell_at k rest) ≡ owner_of (cell_at k cells))
        → (k : ℕ) → owner_of (cell_at k (c ∷ rest)) ≡ owner_of (cell_at k (c ∷ cells))
    same rest f zero = refl
    same rest f (suc k) = f k

-- Setting a value that fits the owner of its cell.
pub Fits-set_value :
    (a : Answer) (j id : ℕ) (cells set : List Cell)
    → set_value a j cells ≡ some set
    → owner_of (cell_at j cells) ≡ some id
    → IsFor id (some a)
    → All Fits cells
    → All Fits set
unfolding set_value
Fits-set_value a j id [] set h o p q = cc
Fits-set_value a zero id (c ∷ cells) set h o p q =
    let (d, e, whole) = put_first-inv (set_cell a c.owner c.value) cells set h in
    let one : record { owner = c.owner; value = some a } ≡ d = set_cell-inv a c.owner c.value d e in
    let own : id ≡ c.owner = ground arith in
    subst (All Fits) whole (subst Fits one (subst (λ n. IsFor n (some a)) own p), q.1)
Fits-set_value a (suc j) id (c ∷ cells) set h o p q =
    let (rest, e, whole) = put_rest-inv c (set_value a j cells) set h in
    subst (All Fits) whole (q.0, Fits-set_value a j id cells rest e o p q.1)

-- A cell whose value is not set can be set, and then has the value.
pub set_value-unset :
    (a : Answer) (j i : ℕ) (cells : List Cell)
    → cell_at j cells ≡ some (record { owner = i; value = none })
    → (set : List Cell) × (set_value a j cells ≡ some set)
      × (cell_at j set ≡ some (record { owner = i; value = some a }))
unfolding set_value
set_value-unset a j i [] h = cc
set_value-unset a zero i (c ∷ cells) h =
    let one : c ≡ record { owner = i; value = none } = ground arith in
    (record { owner = i; value = some a } ∷ cells, rw one refl, refl)
set_value-unset a (suc j) i (c ∷ cells) h =
    let (set, e, v) = set_value-unset a j i cells h in (c ∷ set, ap (put_rest c) e, v)

pub find-put : (id k : ℕ) (cb : List (ℕ × ℕ)) → find_callback id (put_callback id k cb) ≡ some k
unfolding find_callback put_callback
find-put id k [] = grind arith
find-put id k ((i, j) ∷ cb) = grind (arith, find-put id k cb)

pub find-erase : (id : ℕ) (cb : List (ℕ × ℕ)) → find_callback id (erase_callback id cb) ≡ none
unfolding find_callback erase_callback
find-erase id [] = refl
find-erase id ((i, j) ∷ cb) = grind (arith, find-erase id cb)

module _ (P : ℕ × ℕ → Type 0) where
  pub All-put : (id k : ℕ) (cb : List (ℕ × ℕ)) → P (id, k) → All P cb → All P (put_callback id k cb)
  unfolding put_callback
  All-put id k [] p h = (p, h)
  All-put id k ((i, j) ∷ cb) p h = elim (Bool-cases (id == i)) [
    | inl same ↦ rw same (p, h.1)
    | inr other ↦ elim (Bool-cases (ltb id i)) [
      | inl less ↦ rw (other, less) (p, h)
      | inr more ↦ rw (other, more) (h.0, All-put id k cb p h.1)
    ]
  ]

  pub All-erase : (id : ℕ) (cb : List (ℕ × ℕ)) → All P cb → All P (erase_callback id cb)
  unfolding erase_callback
  All-erase id [] h = h
  All-erase id ((i, j) ∷ cb) h = elim (Bool-cases (id == i)) [
    | inl same ↦ rw same (All-erase id cb h.1)
    | inr other ↦ rw other (h.0, All-erase id cb h.1)
  ]

  pub All-find :
      (id k : ℕ) (cb : List (ℕ × ℕ)) → All P cb → find_callback id cb ≡ some k → P (id, k)
  unfolding find_callback
  All-find id k [] h e = cc
  All-find id k ((i, j) ∷ cb) h e = elim (Bool-cases (id == i)) [
    | inl same ↦
        let one : id ≡ i = ground arith in
        let two : j ≡ k = ground arith in
        subst (λ n. P (n, k)) (sym one) (subst (λ n. P (i, n)) two h.0)
    | inr other ↦ All-find id k cb h.1 (ground arith)
  ]
