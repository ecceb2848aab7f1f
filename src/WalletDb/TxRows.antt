-- ===== src/WalletDb/TxRows.antt =====
-- The rows of the table VTX of src/storage.cpp.
use libnunchuk.Base.{
  ◌≡◌, ◌≢◌, refl, sym, ap, subst, ◌∙◌, List, [], ◌∷◌, ◌++◌, some, Bool, true, false, true≢false,
  ◌&&◌, Bool-cases, inl, inr, arith, if◌then◌else◌,
}
use libnunchuk.Base.Lists.{any, All, All-append}
use libnunchuk.Base.Text.{Text, text_eq, text_eq_iff}
use libnunchuk.Types.{ok}
use libnunchuk.WalletDb.Transactions.{TxRow, has_id, find_tx, update_txs, insert_tx, delete_txs}

pub has_id_sound : (id : Text) (row : TxRow) → has_id id row ≡ true → row.id ≡ id
has_id_sound id row h = (text_eq_iff row.id id).0 h

pub has_id-other : (i j : Text) (row : TxRow) → i ≢ j → has_id i row ≡ true → has_id j row ≡ false
has_id-other i j row d h = elim (Bool-cases (has_id j row)) [
  | inl e ↦ absurd (d (sym (has_id_sound i row h) ∙ has_id_sound j row e))
  | inr e ↦ e
]

abbrev pub KeepsId : (TxRow → TxRow) → Type 0
KeepsId f = (r : TxRow) → (f r).id ≡ r.id

-- A statement for one row finds the row as it has changed it, and every other row as it was.
pub find-update :
    (id : Text) (p : TxRow → Bool) (f : TxRow → TxRow) (rows : List TxRow) (row : TxRow)
    → KeepsId f
    → find_tx (has_id id) rows ≡ some row
    → find_tx (has_id id) (update_txs p f rows) ≡ some (if p row then f row else row)
unfolding find_tx update_txs
find-update id p f [] row k h = cc
find-update id p f (r ∷ rows) row k h = elim (Bool-cases (has_id id r)) [
  | inl e ↦
      let same : r ≡ row = ground arith in
      rw (kept r e) (ap (λ x. some (if p x then f x else x)) same)
  | inr e ↦ rw (other r e) (find-update id p f rows row k (ground arith))
]
  where
    kept : (r : TxRow) → has_id id r ≡ true → has_id id (if p r then f r else r) ≡ true
    kept r e = elim (Bool-cases (p r)) [ inl q ↦ rw (q, k r) e | inr q ↦ rw q e ]

    other : (r : TxRow) → has_id id r ≡ false → has_id id (if p r then f r else r) ≡ false
    other r e = elim (Bool-cases (p r)) [ inl q ↦ rw (q, k r) e | inr q ↦ rw q e ]

-- No two rows with one id: the primary key.
abbrev pub Distinct : List TxRow → Type 0
Distinct [] = Unit
Distinct (r ∷ rows) = All (λ s. has_id r.id s ≡ false) rows × Distinct rows

module _ (P : TxRow → Type 0) where
  pub update-All :
      (p : TxRow → Bool) (f : TxRow → TxRow) (rows : List TxRow)
      → ((r : TxRow) → p r ≡ true → P r → P (f r))
      → All P rows
      → All P (update_txs p f rows)
  unfolding update_txs
  update-All p f [] k h = tt
  update-All p f (r ∷ rows) k h = elim (Bool-cases (p r)) [
    | inl q ↦ rw q (k r q h.0, update-All p f rows k h.1)
    | inr q ↦ rw q (h.0, update-All p f rows k h.1)
  ]

  pub delete-All : (id : Text) (rows : List TxRow) → All P rows → All P (delete_txs id rows)
  unfolding delete_txs
  delete-All id [] h = tt
  delete-All id (r ∷ rows) h = elim (Bool-cases (has_id id r)) [
    | inl q ↦ rw q (delete-All id rows h.1)
    | inr q ↦ rw q (h.0, delete-All id rows h.1)
  ]

pub update-Distinct :
    (p : TxRow → Bool) (f : TxRow → TxRow) (rows : List TxRow)
    → KeepsId f
    → Distinct rows
    → Distinct (update_txs p f rows)
unfolding update_txs
update-Distinct p f [] k h = tt
update-Distinct p f (r ∷ rows) k h =
    let rest =
      update-All (λ s. has_id r.id s ≡ false) p f rows
        (λ s q e. subst (λ i. text_eq i r.id ≡ false) (sym (k s)) e) h.0 in
    elim (Bool-cases (p r)) [
      | inl q ↦ rw q (
        subst (λ i. All (λ s. has_id i s ≡ false) (update_txs p f rows)) (sym (k r)) rest,
        update-Distinct p f rows k h.1,
      )
      | inr q ↦ rw q (rest, update-Distinct p f rows k h.1)
    ]

pub delete-Distinct :
    (id : Text) (rows : List TxRow) → Distinct rows → Distinct (delete_txs id rows)
unfolding delete_txs
delete-Distinct id [] h = tt
delete-Distinct id (r ∷ rows) h = elim (Bool-cases (has_id id r)) [
  | inl q ↦ rw q (delete-Distinct id rows h.1)
  | inr q ↦ rw q (delete-All (λ s. has_id r.id s ≡ false) id rows h.0, delete-Distinct id rows h.1)
]

append-Distinct :
    (row : TxRow) (rows : List TxRow)
    → any (has_id row.id) rows ≡ false
    → Distinct rows
    → Distinct (rows ++ row ∷ [])
append-Distinct row [] a h = (tt, tt)
append-Distinct row (r ∷ rows) a h =
    let first : has_id row.id r ≡ false = ground arith in
    let rest : any (has_id row.id) rows ≡ false = ground arith in
    (
      All-append (λ s. has_id r.id s ≡ false) rows (row ∷ []) h.0 (back first, tt),
      append-Distinct row rows rest h.1,
    )
  where
    back : text_eq r.id row.id ≡ false → text_eq row.id r.id ≡ false
    back e = elim (Bool-cases (text_eq row.id r.id)) [
      | inl q ↦
          absurd (
            true≢false
              (sym ((text_eq_iff r.id row.id).1 (sym ((text_eq_iff row.id r.id).0 q))) ∙ e))
      | inr q ↦ q
    ]

-- What a row that was inserted tells.
pub insert-inv :
    (row : TxRow) (rows rows2 : List TxRow)
    → insert_tx row rows ≡ ok rows2
    → (any (has_id row.id) rows ≡ false) × (rows ++ row ∷ [] ≡ rows2)
unfolding insert_tx
insert-inv row rows rows2 h = elim (Bool-cases (any (has_id row.id) rows)) [
  | inl q ↦ ground arith
  | inr q ↦ (q, ground arith)
]

pub insert-Distinct :
    (row : TxRow) (rows rows2 : List TxRow)
    → insert_tx row rows ≡ ok rows2
    → Distinct rows
    → Distinct rows2
insert-Distinct row rows rows2 h d =
    let (fresh, made) = insert-inv row rows rows2 h in
    subst Distinct made (append-Distinct row rows fresh d)

pub find-id :
    (p : TxRow → Bool) (rows : List TxRow) (row : TxRow) → find_tx p rows ≡ some row → p row ≡ true
unfolding find_tx
find-id p [] row h = cc
find-id p (r ∷ rows) row h = elim (Bool-cases (p r)) [
  | inl e ↦ let same : r ≡ row = ground arith in subst (λ x. p x ≡ true) same e
  | inr e ↦ find-id p rows row (ground arith)
]

-- A row that is found by its id and more is one of the rows with that id.
pub find-any :
    (id : Text) (q : TxRow → Bool) (rows : List TxRow) (row : TxRow)
    → find_tx (λ r. has_id id r && q r) rows ≡ some row
    → any (has_id id) rows ≡ true
unfolding find_tx
find-any id q [] row h = cc
find-any id q (r ∷ rows) row h = elim (Bool-cases (has_id id r)) [
  | inl e ↦ rw e refl
  | inr e ↦ rw e (find-any id q rows row (ground arith))
]

pub any-update :
    (id : Text) (p : TxRow → Bool) (f : TxRow → TxRow) (rows : List TxRow)
    → KeepsId f
    → any (has_id id) (update_txs p f rows) ≡ any (has_id id) rows
unfolding update_txs
any-update id p f [] k = refl
any-update id p f (r ∷ rows) k = elim (Bool-cases (p r)) [
  | inl q ↦ rw (q, k r, any-update id p f rows k) refl
  | inr q ↦ rw (q, any-update id p f rows k) refl
]
