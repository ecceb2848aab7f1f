-- ===== src/WalletDb/Inserted.antt =====
-- A transaction that InsertTransaction of src/storage.cpp puts into a wallet.
use libnunchuk.Base.{
  ℕ, ◌<◌, ◌^◌, ◌≡◌, refl, ap, ◌∙◌, List, [], ◌∷◌, ◌++◌, none, some, Bool, true, false, Bool-cases,
  inl, inr, arith, if◌then◌else◌,
}
use libnunchuk.Base.Int.{ℤ, pos, negsuc, eqb_ℤ, ltb_ℤ}
use libnunchuk.Base.Lists.{All, any}
use libnunchuk.Base.Text.{Text, text_eq_refl, NotZero, c_string-whole}
use libnunchuk.Types.{Amount, TxOutput, Result, ok, throw, ◌>>=◌, sql_error}
use libnunchuk.WalletDb.{Address, use_address}
use libnunchuk.WalletDb.Transaction.{
  Transaction, RawTransaction, Psbt, from_raw, fill_extra, status_at,
}
use libnunchuk.WalletDb.Transactions.{
  TxRow, Tables, bind, has_id, find_tx, insert_tx, with_row, column_int,
}
use libnunchuk.WalletDb.Broadcast.{
  use_outputs, use_if_mined, new_row, get_transaction, found_transaction, decoded, read_inserted,
  insert_transaction,
}

find-none :
    (id : Text) (rows : List TxRow) → find_tx (has_id id) rows ≡ none → any (has_id id) rows ≡ false
unfolding find_tx
find-none id [] h = refl
find-none id (r ∷ rows) h = elim (Bool-cases (has_id id r)) [
  | inl e ↦ ground arith
  | inr e ↦ rw e (find-none id rows (ground arith))
]

find-append :
    (p : TxRow → Bool) (rows : List TxRow) (row : TxRow)
    → find_tx p rows ≡ none
    → p row ≡ true
    → find_tx p (rows ++ row ∷ []) ≡ some row
unfolding find_tx
find-append p [] row h k = rw k refl
find-append p (r ∷ rows) row h k = elim (Bool-cases (p r)) [
  | inl e ↦ ground arith
  | inr e ↦ rw e (find-append p rows row (ground arith) k)
]

-- Using addresses changes no other table.
use_outputs-addresses :
    (outputs : List TxOutput) (t : Tables)
    → (a : List Address) × (use_outputs outputs t ≡ record t { addresses = a })
unfolding use_outputs
use_outputs-addresses [] t = (t.addresses, refl)
use_outputs-addresses ((address, amount) ∷ outputs) t =
    use_outputs-addresses outputs (record t { addresses = (use_address address t.addresses).1 })

use_if_mined-addresses :
    (b : Bool) (tx : Transaction) (t : Tables)
    → (a : List Address) × (use_if_mined b tx t ≡ record t { addresses = a })
use_if_mined-addresses true tx t = use_outputs-addresses tx.outputs t
use_if_mined-addresses false tx t = (t.addresses, refl)

abbrev pub inserted_row : RawTransaction → Text → ℤ → ℤ → Amount → Text → ℤ → TxRow
inserted_row mtx raw_tx height blocktime fee memo change_pos =
    new_row mtx.hash raw_tx height fee memo change_pos blocktime none

-- The transaction of the block or of the mempool with what was passed with it.
pub record IsStored (t : Tables) (mtx : RawTransaction) (memo : Text) (height blocktime : ℤ)
    (fee : Amount) (change_pos : ℤ) (tr : Transaction) : Type 0 where
  pub txid_is : tr.txid ≡ mtx.hash
  pub inputs_are : tr.inputs ≡ mtx.vin
  pub outputs_are : tr.outputs ≡ mtx.vout
  pub height_is : tr.height ≡ height
  pub status_is : tr.status ≡ status_at height
  pub m_is : tr.m ≡ some t.m
  pub memo_is : tr.memo ≡ memo
  pub fee_is : tr.fee ≡ some fee
  pub change_is : tr.change_index ≡ some change_pos
  pub time_is : tr.blocktime ≡ some blocktime
  pub not_received : tr.is_receive ≡ some false

column_int-small : (n : ℕ) → n < 2 ^ 31 → column_int (pos n) ≡ pos n
unfolding column_int
column_int-small n h = ground arith

module _ (decode_raw : Text → Result RawTransaction) (decode_psbt : Text → Result Psbt) where
  get_transaction-mined :
      (id : Text) (b : Bool) (tx : Transaction) (t : Tables)
      → get_transaction decode_raw decode_psbt id (use_if_mined b tx t)
        ≡ get_transaction decode_raw decode_psbt id t
  unfolding get_transaction
  get_transaction-mined id b tx t =
      ap (get_transaction decode_raw decode_psbt id) (use_if_mined-addresses b tx t).1

  -- What InsertTransaction returns, and GetTransaction then, by the row that was stored.
  pub insert_transaction-row :
      (t : Tables) (raw_tx memo : Text) (height blocktime : ℤ) (fee : Amount) (change_pos : ℤ)
      (mtx : RawTransaction)
      → decode_raw raw_tx ≡ ok mtx
      → find_tx (has_id mtx.hash) t.txs ≡ none
      → eqb_ℤ height (negsuc 0) ≡ false
      → let row = inserted_row mtx raw_tx height blocktime fee memo change_pos in
        let after =
          insert_transaction decode_raw decode_psbt raw_tx height blocktime fee memo change_pos t in
        (after.0 ≡ ok (with_row t row (from_raw mtx height)))
        × (get_transaction decode_raw decode_psbt mtx.hash after.1
            ≡ ok (with_row t row (from_raw mtx height)))
  unfolding insert_transaction insert_tx get_transaction fill_extra
  insert_transaction-row t raw_tx memo height blocktime fee change_pos mtx d new sent =
      let row = inserted_row mtx raw_tx height blocktime fee memo change_pos in
      let stored = record t { txs = t.txs ++ row ∷ [] } in
      let tr = with_row t row (from_raw mtx height) in
      let fresh : any (has_id mtx.hash) t.txs ≡ false = find-none mtx.hash t.txs new in
      let read : get_transaction decode_raw decode_psbt mtx.hash stored ≡ ok tr =
        ap (found_transaction decode_raw decode_psbt stored)
          (find-append (has_id mtx.hash) t.txs row new (text_eq_refl mtx.hash))
        ∙ ap
            (λ b.
              ◌>>=◌ (decoded decode_raw decode_psbt t.m row b)
                (λ tx. fill_extra none (with_row stored row tx)))
            sent
        ∙ ap
            (λ m.
              ◌>>=◌ (◌>>=◌ m (λ x. ok (from_raw x height)))
                (λ tx. fill_extra none (with_row stored row tx)))
            d in
      let runs : insert_transaction decode_raw decode_psbt raw_tx height blocktime fee memo
            change_pos t
          ≡ (ok tr, use_if_mined (ltb_ℤ (pos 0) height) tr stored) =
        ap
          (λ m. bind m t (λ x.
            bind (insert_tx (inserted_row x raw_tx height blocktime fee memo change_pos) t.txs) t
              (read_inserted decode_raw decode_psbt height x.hash t)))
          d
        ∙ ap
            (λ b.
              bind (if b then throw sql_error else ok (t.txs ++ row ∷ [])) t
                (read_inserted decode_raw decode_psbt height mtx.hash t))
            fresh
        ∙ ap (λ m. bind m stored (λ tx. (ok tx, use_if_mined (ltb_ℤ (pos 0) height) tx stored)))
            read in
      (
        ap (λ x. x.0) runs,
        ap (λ x. get_transaction decode_raw decode_psbt mtx.hash x.1) runs
            ∙ get_transaction-mined mtx.hash (ltb_ℤ (pos 0) height) tr stored
            ∙ read,
      )

  -- InsertTransaction of a transaction that is not in the wallet, at a height other than -1, with a fee
  -- from 0 to 2^31 - 1 and a memo without a zero byte, returns what GetTransaction then gives: the
  -- identifier, inputs and outputs that were decoded, with the height and its status, the m of the
  -- wallet, and the memo, the fee, the position of the change and the time of the block as passed.
  pub insert_transaction-get_transaction :
      (t : Tables) (raw_tx memo : Text) (height blocktime : ℤ) (fee : ℕ) (change_pos : ℤ)
      (mtx : RawTransaction)
      → decode_raw raw_tx ≡ ok mtx
      → find_tx (has_id mtx.hash) t.txs ≡ none
      → eqb_ℤ height (negsuc 0) ≡ false
      → fee < 2 ^ 31
      → All NotZero memo
      → let after =
          insert_transaction decode_raw decode_psbt raw_tx height blocktime
            (pos fee)
            memo
            change_pos
            t in
        (tr : Transaction) × (after.0 ≡ ok tr)
        × (get_transaction decode_raw decode_psbt mtx.hash after.1 ≡ ok tr)
        × IsStored t mtx memo height blocktime (pos fee) change_pos tr
  unfolding from_raw
  insert_transaction-get_transaction t raw_tx memo height blocktime fee change_pos mtx d new sent
        small whole =
      let row = inserted_row mtx raw_tx height blocktime (pos fee) memo change_pos in
      let (made, read) =
        insert_transaction-row t raw_tx memo height blocktime (pos fee) change_pos mtx d new sent in
      (
        with_row t row (from_raw mtx height),
        made,
        read,
        record {
          txid_is = refl;
          inputs_are = refl;
          outputs_are = refl;
          height_is = refl;
          status_is = refl;
          m_is = refl;
          memo_is = c_string-whole memo whole;
          fee_is = ap some (column_int-small fee small);
          change_is = refl;
          time_is = refl;
          not_received = refl;
        },
      )
