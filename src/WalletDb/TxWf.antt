-- ===== src/WalletDb/TxWf.antt =====
-- What every call on the table VTX of src/storage.cpp keeps.
use libnunchuk.Base.{
  ◌≡◌, refl, subst, List, [], ◌∷◌, Option, none, some, Bool, true, false, Bool-cases, inl, inr,
  arith,
}
use libnunchuk.Base.Lists.{All, All-append}
use libnunchuk.Base.Text.{Text}
use libnunchuk.Types.{TxOutput, Result, ok, throw}
use libnunchuk.WalletDb.Transaction.{Transaction, Extra}
use libnunchuk.WalletDb.Transactions.{
  TxRow, Tables, Done, bind, has_id, is_pending, pending_with, find_tx, insert_tx, update_txs,
  delete_transaction, replaced_row, replace_extra, replace_found, set_replaced_by, renamed_row,
  delete_after, rename_found, update_psbt_tx_id,
}
use libnunchuk.WalletDb.Broadcast.{use_outputs, use_if_mined}
use libnunchuk.WalletDb.TxRows.{
  KeepsId, Distinct, update-All, update-Distinct, delete-All, delete-Distinct, insert-inv,
  insert-Distinct,
}

abbrev pub HasExtra : TxRow → Type 0
HasExtra row = is_pending row ≡ true → (e : Extra) × (row.extra ≡ some e)

-- The rows have different ids, and each transaction that is still being signed has its JSON in EXTRA,
-- so that UpdateTransaction can read it.
pub record IsWf (t : Tables) : Type 0 where
  pub distinct : Distinct t.txs
  pub extras : All HasExtra t.txs

pub same_txs : {t u : Tables} → u.txs ≡ t.txs → IsWf t → IsWf u
same_txs e h = record { distinct = rw e h.distinct; extras = rw e h.extras }

pub bind-IsWf :
    {A B : Type 0} (m : Result A) (t : Tables) (f : A → Done B)
    → IsWf t
    → ((a : A) → m ≡ ok a → IsWf (f a).1)
    → IsWf (bind m t f).1
bind-IsWf (ok a) t f h k = k a refl
bind-IsWf (throw e) t f h k = h

pub update-IsWf :
    (p : TxRow → Bool) (f : TxRow → TxRow) (t : Tables)
    → KeepsId f
    → ((r : TxRow) → p r ≡ true → HasExtra r → HasExtra (f r))
    → IsWf t
    → IsWf (record t { txs = update_txs p f t.txs })
update-IsWf p f t k e h = record {
  distinct = update-Distinct p f t.txs k h.distinct;
  extras = update-All HasExtra p f t.txs e h.extras;
}

pub insert-IsWf :
    (row : TxRow) (t : Tables) (rows : List TxRow)
    → insert_tx row t.txs ≡ ok rows
    → HasExtra row
    → IsWf t
    → IsWf (record t { txs = rows })
insert-IsWf row t rows e x h =
    let (fresh, made) = insert-inv row t.txs rows e in
    record {
      distinct = insert-Distinct row t.txs rows e h.distinct;
      extras = subst (All HasExtra) made (All-append HasExtra t.txs (row ∷ []) h.extras (x, tt));
    }

pub use_outputs-txs : (outputs : List TxOutput) (t : Tables) → (use_outputs outputs t).txs ≡ t.txs
unfolding use_outputs
use_outputs-txs [] t = refl
use_outputs-txs (o ∷ outputs) t = use_outputs-txs outputs _

pub use_if_mined-txs :
    (b : Bool) (tx : Transaction) (t : Tables) → (use_if_mined b tx t).txs ≡ t.txs
use_if_mined-txs true tx t = use_outputs-txs tx.outputs t
use_if_mined-txs false tx t = refl

find-All :
    (P : TxRow → Type 0) (p : TxRow → Bool) (rows : List TxRow) (row : TxRow)
    → find_tx p rows ≡ some row
    → All P rows
    → P row × (p row ≡ true)
unfolding find_tx
find-All P p [] row e h = cc
find-All P p (r ∷ rows) row e h = elim (Bool-cases (p r)) [
  | inl q ↦ let same : r ≡ row = ground arith in subst (λ s. P s × (p s ≡ true)) same (h.0, q)
  | inr q ↦ find-All P p rows row (ground arith) h.1
]

mark-IsWf :
    (old_txid new_txid : Text) (t : Tables) (o : Option Extra)
    → IsWf t
    → IsWf (replace_extra old_txid new_txid t o).1
mark-IsWf old_txid new_txid t none h = h
mark-IsWf old_txid new_txid t (some extra) h =
    update-IsWf (has_id old_txid) (replaced_row new_txid extra) t (λ r. refl) (λ r q x p. (_, refl))
      h

pub set_replaced_by-IsWf :
    (old_txid new_txid : Text) (t : Tables) → IsWf t → IsWf (set_replaced_by old_txid new_txid t).1
unfolding set_replaced_by
set_replaced_by-IsWf old_txid new_txid t h = found (find_tx (has_id old_txid) t.txs)
  where
    found : (o : Option TxRow) → IsWf (replace_found old_txid new_txid t o).1
    found none = h
    found (some row) = mark-IsWf old_txid new_txid t row.extra h

pub rename-IsWf :
    (old_id new_id : Text) (t : Tables) → IsWf t → IsWf (update_psbt_tx_id old_id new_id t).1
unfolding update_psbt_tx_id delete_transaction
rename-IsWf old_id new_id t h = found (find_tx (pending_with old_id) t.txs) refl
  where
    found :
        (o : Option TxRow)
        → find_tx (pending_with old_id) t.txs ≡ o
        → IsWf (rename_found old_id new_id t o).1
    found none e = h
    found (some row) e =
        let (x, q) = find-All HasExtra (pending_with old_id) t.txs row e h.extras in
        let pending : is_pending row ≡ true = ground arith in
        bind-IsWf (insert_tx (renamed_row new_id row) t.txs) t (delete_after old_id t) h
          (λ rows made.
            let added = insert-IsWf (renamed_row new_id row) t rows made (λ p. x pending) h in
            record {
              distinct = delete-Distinct old_id rows added.distinct;
              extras = delete-All HasExtra old_id rows added.extras;
            })
