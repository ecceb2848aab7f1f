-- ===== src/WalletDb/Renamed.antt =====
-- UpdatePsbtTxId of src/storage.cpp: a transaction that is being signed gets another identifier.
use libnunchuk.Base.{
  ◌≡◌, refl, sym, ap, ◌∙◌, List, [], ◌∷◌, ◌++◌, none, some, Bool, true, false, true≢false,
  Bool-cases, inl, inr, arith, if◌then◌else◌,
}
use libnunchuk.Base.Lists.{any}
use libnunchuk.Base.Text.{Text, text_eq, text_eq_iff, text_eq_refl}
use libnunchuk.Types.{ok, throw, sql_error}
use libnunchuk.WalletDb.Transactions.{
  TxRow, Tables, bind, has_id, is_pending, pending_with, find_tx, insert_tx, delete_txs,
  delete_transaction, renamed_row, delete_after, rename_found, update_psbt_tx_id, value_or_empty,
  get_psbt,
}
use libnunchuk.WalletDb.TxRows.{find-any}

pending-none :
    (id : Text) (rows : List TxRow)
    → any (has_id id) rows ≡ false
    → find_tx (pending_with id) rows ≡ none
unfolding find_tx
pending-none id [] h = refl
pending-none id (r ∷ rows) h =
    let first : has_id id r ≡ false = ground arith in
    let rest : any (has_id id) rows ≡ false = ground arith in rw first (pending-none id rows rest)

deleted-none :
    (id : Text) (rows : List TxRow) → find_tx (pending_with id) (delete_txs id rows) ≡ none
unfolding find_tx delete_txs
deleted-none id [] = refl
deleted-none id (r ∷ rows) = elim (Bool-cases (has_id id r)) [
  | inl e ↦ rw e (deleted-none id rows)
  | inr e ↦ rw (e, e) (deleted-none id rows)
]

find-last :
    (p : TxRow → Bool) (id : Text) (rows : List TxRow) (row : TxRow)
    → find_tx p rows ≡ none
    → p row ≡ true
    → has_id id row ≡ false
    → find_tx p (delete_txs id (rows ++ row ∷ [])) ≡ some row
unfolding find_tx delete_txs
find-last p id [] row h k d = rw (d, k) refl
find-last p id (r ∷ rows) row h k d = elim (Bool-cases (p r)) [
  | inl e ↦ ground arith
  | inr e ↦ elim (Bool-cases (has_id id r)) [
    | inl q ↦ rw q (find-last p id rows row (ground arith) k d)
    | inr q ↦ rw (q, e) (find-last p id rows row (ground arith) k d)
  ]
]

any-append :
    (p : TxRow → Bool) (rows more : List TxRow) → any p rows ≡ true → any p (rows ++ more) ≡ true
any-append p [] more h = cc
any-append p (r ∷ rows) more h = elim (Bool-cases (p r)) [
  | inl e ↦ rw e refl
  | inr e ↦ rw e (any-append p rows more (ground arith))
]

any-absent :
    (i j : Text) (rows : List TxRow)
    → any (has_id i) rows ≡ true
    → any (has_id j) rows ≡ false
    → text_eq j i ≡ false
any-absent i j rows h k = elim (Bool-cases (text_eq j i)) [
  | inl e ↦
      absurd (true≢false (sym h ∙ sym (ap (λ x. any (has_id x) rows) ((text_eq_iff j i).0 e)) ∙ k))
  | inr e ↦ e
]

-- UpdatePsbtTxId of a transaction that is being signed, to an identifier that no row has: it returns
-- true, GetPsbt gives under the new identifier what it gave under the old one, and nothing under the
-- old one.
pub update_psbt_tx_id-get_psbt :
    (old_id new_id : Text) (t : Tables) (row : TxRow)
    → find_tx (pending_with old_id) t.txs ≡ some row
    → any (has_id new_id) t.txs ≡ false
    → let after = update_psbt_tx_id old_id new_id t in
      (after.0 ≡ ok true)
      × (get_psbt new_id after.1 ≡ get_psbt old_id t)
      × (get_psbt old_id after.1 ≡ [])
unfolding update_psbt_tx_id insert_tx delete_transaction get_psbt
update_psbt_tx_id-get_psbt old_id new_id t row h k =
    let made = renamed_row new_id row in
    let rows = t.txs ++ made ∷ [] in
    let there : any (has_id old_id) t.txs ≡ true = find-any old_id is_pending t.txs row h in
    let other : has_id old_id made ≡ false = any-absent old_id new_id t.txs there k in
    let own : pending_with new_id made ≡ true = rw (text_eq_refl new_id) refl in
    let left = record t { txs = delete_txs old_id rows } in
    let runs : update_psbt_tx_id old_id new_id t ≡ (ok (any (has_id old_id) rows), left) =
      ap (rename_found old_id new_id t) h
      ∙ ap (λ b. bind (if b then throw sql_error else ok rows) t (delete_after old_id t)) k in
    (
      ap (λ x. x.0) runs ∙ ap ok (any-append (has_id old_id) t.txs (made ∷ []) there),
      ap (λ x. get_psbt new_id x.1) runs
          ∙ ap value_or_empty (
              find-last (pending_with new_id) old_id t.txs made (pending-none new_id t.txs k) own
                other)
          ∙ sym (ap value_or_empty h),
      ap (λ x. get_psbt old_id x.1) runs ∙ ap value_or_empty (deleted-none old_id rows),
    )
