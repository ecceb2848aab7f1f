-- ===== src/WalletDb/Replacing.antt =====
-- A transaction that is sent, or rejected, in place of another one: UpdateTransaction of src/storage.cpp.
use libnunchuk.Base.{◌≡◌, ◌≢◌, refl, sym, ap, ◌∙◌, none, some, true, false, if◌then◌else◌}
use libnunchuk.Base.Int.{ℤ, pos, negsuc, eqb_ℤ, ltb_ℤ}
use libnunchuk.Base.Text.{Text}
use libnunchuk.Types.{Result, ok, throw, std_exception}
use libnunchuk.WalletDb.Transaction.{Transaction, RawTransaction, Psbt, Extra, from_psbt}
use libnunchuk.WalletDb.Transactions.{
  TxRow, Tables, has_id, pending_with, find_tx, replaced_row, replace_extra, replace_found,
  set_replaced_by,
}
use libnunchuk.WalletDb.Broadcast.{
  sent_row, signed_extra, get_transaction, found_transaction, write_sent, after_mark,
  update_transaction,
}
use libnunchuk.WalletDb.TxRows.{has_id-other, find-update, find-id}
use libnunchuk.WalletDb.Replaced.{
  replaced_by, marked_tables, sent_tables, found-marked, update-marks, update-replacing,
}

find-marked :
    (old_id id : Text) (f kept : Extra) (raw_tx : Text) (height blocktime : ℤ) (t : Tables)
    (old : TxRow)
    → id ≢ old_id
    → find_tx (has_id old_id) t.txs ≡ some old
    → find_tx
        (has_id old_id)
        (sent_tables id raw_tx height blocktime kept (marked_tables old_id id f t)).txs
      ≡ some (replaced_row id f old)
find-marked old_id id f kept raw_tx height blocktime t old d h =
    let own : has_id old_id old ≡ true = find-id (has_id old_id) t.txs old h in
    let first : find_tx (has_id old_id) (marked_tables old_id id f t).txs
        ≡ some (replaced_row id f old) =
      find-update old_id (has_id old_id) (replaced_row id f) t.txs old (λ r. refl) h
      ∙ ap (λ b. some (if b then replaced_row id f old else old)) own in
    let other : has_id id (replaced_row id f old) ≡ false =
      has_id-other old_id id old (λ e. d (sym e)) own in
    find-update old_id (has_id id) (sent_row raw_tx height blocktime (some kept)) _
      (replaced_row id f old) (λ r. refl) first
    ∙ ap
        (λ b. some (
          if b
          then sent_row raw_tx height blocktime (some kept) (replaced_row id f old)
          else replaced_row id f old))
        other

module _ (decode_raw : Text → Result RawTransaction) (decode_psbt : Text → Result Psbt) where
  -- UpdateTransaction for a transaction that was signed here to replace another one of the mempool, at
  -- the height 0 or at that of a rejection, where the EXTRA of the replaced transaction is not empty
  -- but its JSON: it returns true, and GetTransaction, where it gave the
  -- replaced transaction before, gives it afterwards with the status REPLACED and the identifier of
  -- the new one, and changes nothing else of it. That holds for a new transaction that the network
  -- has rejected too.
  pub update_transaction-get_transaction :
      (t : Tables) (raw_tx reject_msg old_id : Text) (height blocktime : ℤ) (mtx : RawTransaction)
      (p : Psbt) (row old : TxRow) (e f : Extra) (tr : Transaction)
      → eqb_ℤ height (negsuc 0) ≡ false
      → ltb_ℤ (pos 0) height ≡ false
      → decode_raw raw_tx ≡ ok mtx
      → find_tx (pending_with mtx.hash) t.txs ≡ some row
      → decode_psbt row.value ≡ ok p
      → row.extra ≡ some e
      → e.replace_txid ≡ some old_id
      → find_tx (has_id old_id) t.txs ≡ some old
      → old.extra ≡ some f
      → old.height ≡ pos 0
      → mtx.hash ≢ old_id
      → get_transaction decode_raw decode_psbt old_id t ≡ ok tr
      → let after =
          update_transaction decode_raw decode_psbt raw_tx height blocktime reject_msg t in
        (after.0 ≡ ok true)
        × (get_transaction decode_raw decode_psbt old_id after.1 ≡ ok (replaced_by mtx.hash tr))
  unfolding get_transaction
  update_transaction-get_transaction t raw_tx reject_msg old_id height blocktime mtx p row old e f q
        h1 h2 d1 g1 d2 x1 r g2 x2 z d g =
      let id = mtx.hash in
      let kept = signed_extra (from_psbt p 0).signers reject_msg e in
      let left = sent_tables id raw_tx height blocktime kept (marked_tables old_id id f t) in
      let runs =
        update-replacing decode_raw decode_psbt t raw_tx reject_msg old_id height blocktime mtx p
          row old e f h1 h2 d1 g1 d2 x1 r g2 x2 in
      let before : found_transaction decode_raw decode_psbt t (some old) ≡ ok q =
        sym (ap (found_transaction decode_raw decode_psbt t) g2) ∙ g in
      (
        ap (λ x. x.0) runs,
        ap (λ x. get_transaction decode_raw decode_psbt old_id x.1) runs
            ∙ ap (found_transaction decode_raw decode_psbt left)
                (find-marked old_id id f kept raw_tx height blocktime t old d g2)
            ∙ found-marked decode_raw decode_psbt t left.txs id old f q z x2 before,
      )

  -- Where the replaced transaction has an empty EXTRA, as InsertTransaction stores it, UpdateTransaction
  -- throws the exception of json::parse and leaves the tables as they were, so that the transaction
  -- that was sent, or rejected, is still one that is being signed.
  pub update_transaction-throws :
      (t : Tables) (raw_tx reject_msg old_id : Text) (height blocktime : ℤ) (mtx : RawTransaction)
      (p : Psbt) (row old : TxRow) (e : Extra)
      → eqb_ℤ height (negsuc 0) ≡ false
      → ltb_ℤ (pos 0) height ≡ false
      → decode_raw raw_tx ≡ ok mtx
      → find_tx (pending_with mtx.hash) t.txs ≡ some row
      → decode_psbt row.value ≡ ok p
      → row.extra ≡ some e
      → e.replace_txid ≡ some old_id
      → find_tx (has_id old_id) t.txs ≡ some old
      → old.extra ≡ none
      → update_transaction decode_raw decode_psbt raw_tx height blocktime reject_msg t
        ≡ (throw std_exception, t)
  unfolding update_transaction set_replaced_by
  update_transaction-throws t raw_tx reject_msg old_id height blocktime mtx p row old e h1 h2 d1 g1
        d2 x1 r g2 x2 =
      let id = mtx.hash in
      let kept = signed_extra (from_psbt p 0).signers reject_msg e in
      let write = write_sent decode_raw decode_psbt id raw_tx height blocktime (some kept) in
      update-marks decode_raw decode_psbt t raw_tx reject_msg old_id height blocktime mtx p row e h1
        h2 d1 g1 d2 x1 r
      ∙ ap (λ o. after_mark (replace_found old_id id t o) write) g2
      ∙ ap (λ o. after_mark (replace_extra old_id id t o) write) x2
