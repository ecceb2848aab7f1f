-- ===== src/WalletDb/TxSteps.antt =====
-- The calls on the table VTX of src/storage.cpp, in any order.
use libnunchuk.Base.{◌≡◌, refl, sym, ◌∙◌, List, Option, none, some, Bool, true, false, true≢false}
use libnunchuk.Base.Int.{ℤ, pos, negsuc, eqb_ℤ, ltb_ℤ}
use libnunchuk.Base.Text.{Text}
use libnunchuk.Types.{Amount, TxOutput, Result, ok, throw}
use libnunchuk.WalletDb.Transaction.{RawTransaction, Psbt, Extra, from_psbt}
use libnunchuk.WalletDb.Transactions.{
  TxRow, Tables, Done, has_id, pending_with, find_tx, insert_tx, memo_row, update_transaction_memo,
  delete_transaction, update_psbt_tx_id, create_extra,
}
use libnunchuk.WalletDb.Broadcast.{
  new_row, psbt_row, sent_row, signed_extra, get_transaction, read_inserted, insert_transaction,
  create_psbt, update_psbt, read_mined, write_sent, mark_replaced, after_mark, keep_extra,
  keep_pending, update_at, update_unless, update_transaction,
}
use libnunchuk.WalletDb.TxWf.{
  HasExtra, IsWf, same_txs, bind-IsWf, update-IsWf, insert-IsWf, use_outputs-txs, use_if_mined-txs,
  set_replaced_by-IsWf, rename-IsWf,
}
use libnunchuk.WalletDb.TxRows.{KeepsId, delete-All, delete-Distinct}

-- A height that is not that of a transaction being signed.
abbrev pub IsSent : ℤ → Type 0
IsSent height = eqb_ℤ height (negsuc 0) ≡ false

sent_row-HasExtra :
    (raw_tx : Text) (height blocktime : ℤ) (o : Option Extra) (r : TxRow)
    → IsSent height
    → HasExtra (sent_row raw_tx height blocktime o r)
sent_row-HasExtra raw_tx height blocktime none r s p = absurd (true≢false (sym p ∙ s))
sent_row-HasExtra raw_tx height blocktime (some e) r s p = absurd (true≢false (sym p ∙ s))

sent_row-KeepsId :
    (raw_tx : Text) (height blocktime : ℤ) (o : Option Extra)
    → KeepsId (sent_row raw_tx height blocktime o)
sent_row-KeepsId raw_tx height blocktime none r = refl
sent_row-KeepsId raw_tx height blocktime (some e) r = refl

after_mark-IsWf :
    (d : Done Bool) (f : Tables → Done Bool)
    → IsWf d.1
    → ((t : Tables) → IsWf t → IsWf (f t).1)
    → IsWf (after_mark d f).1
after_mark-IsWf (ok b, t) f h k = k t h
after_mark-IsWf (throw e, t) f h k = h

mark_replaced-IsWf :
    (tx_id : Text) (o : Option Text) (t : Tables) → IsWf t → IsWf (mark_replaced tx_id o t).1
mark_replaced-IsWf tx_id none t h = h
mark_replaced-IsWf tx_id (some old) t h = set_replaced_by-IsWf old tx_id t h

module _ (decode_raw : Text → Result RawTransaction) (decode_psbt : Text → Result Psbt) where
  read_inserted-IsWf :
      (height : ℤ) (tx_id : Text) (t : Tables) (rows : List TxRow)
      → IsWf (record t { txs = rows })
      → IsWf (read_inserted decode_raw decode_psbt height tx_id t rows).1
  read_inserted-IsWf height tx_id t rows h =
      bind-IsWf (get_transaction decode_raw decode_psbt tx_id (record t { txs = rows })) _ _ h
        (λ tx e. same_txs (use_if_mined-txs (ltb_ℤ (pos 0) height) tx _) h)

  insert-step :
      (raw_tx memo : Text) (height blocktime : ℤ) (fee : Amount) (change_pos : ℤ) (t : Tables)
      → IsSent height
      → IsWf t
      → IsWf
          (insert_transaction decode_raw decode_psbt raw_tx height blocktime fee memo change_pos
            t).1
  unfolding insert_transaction
  insert-step raw_tx memo height blocktime fee change_pos t s h =
      bind-IsWf (decode_raw raw_tx) t _ h (λ mtx d.
        let row = new_row mtx.hash raw_tx height fee memo change_pos blocktime none in
        bind-IsWf (insert_tx row t.txs) t _ h (λ rows e.
          read_inserted-IsWf height mtx.hash t rows
            (insert-IsWf row t rows e (λ p. absurd (true≢false (sym p ∙ s))) h)))

  create-step :
      (psbt memo replace_tx : Text) (fee fee_rate : Amount) (change_pos : ℤ)
      (outputs : List TxOutput) (b : Bool) (t : Tables)
      → IsWf t
      → IsWf
          (create_psbt decode_raw decode_psbt psbt fee memo change_pos outputs fee_rate b replace_tx
            t).1
  unfolding create_psbt
  create-step psbt memo replace_tx fee fee_rate change_pos outputs b t h =
      bind-IsWf (decode_psbt psbt) t _ h (λ p d.
        let extra = create_extra outputs fee_rate b replace_tx in
        let row = new_row p.tx.hash psbt (negsuc 0) fee memo change_pos (pos 0) (some extra) in
        bind-IsWf (insert_tx row t.txs) t _ h (λ rows e.
          read_inserted-IsWf (negsuc 0) p.tx.hash t rows
            (insert-IsWf row t rows e (λ q. (extra, refl)) h)))

  update_psbt-step :
      (psbt : Text) (t : Tables) → IsWf t → IsWf (update_psbt decode_raw decode_psbt psbt t).1
  unfolding update_psbt
  update_psbt-step psbt t h =
      bind-IsWf (decode_psbt psbt) t _ h
        (λ p d. update-IsWf (pending_with p.tx.hash) (psbt_row psbt) t (λ r. refl) (λ r q x. x) h)

  read_mined-IsWf :
      (tx_id : Text) (updated mined : Bool) (t : Tables)
      → IsWf t
      → IsWf (read_mined decode_raw decode_psbt tx_id updated mined t).1
  read_mined-IsWf tx_id true true t h =
      bind-IsWf (get_transaction decode_raw decode_psbt tx_id t) t _ h
        (λ tx e. same_txs (use_outputs-txs tx.outputs t) h)
  read_mined-IsWf tx_id true false t h = h
  read_mined-IsWf tx_id false mined t h = h

  write_sent-IsWf :
      (tx_id raw_tx : Text) (height blocktime : ℤ) (o : Option Extra) (t : Tables)
      → IsSent height
      → IsWf t
      → IsWf (write_sent decode_raw decode_psbt tx_id raw_tx height blocktime o t).1
  unfolding write_sent
  write_sent-IsWf tx_id raw_tx height blocktime o t s h = read_mined-IsWf tx_id _ _ _ (
      update-IsWf (has_id tx_id) (sent_row raw_tx height blocktime o) t
        (sent_row-KeepsId raw_tx height blocktime o)
        (λ r q x. sent_row-HasExtra raw_tx height blocktime o r s) h)

  update-step :
      (raw_tx reject_msg : Text) (height blocktime : ℤ) (t : Tables)
      → IsWf t
      → IsWf (update_transaction decode_raw decode_psbt raw_tx height blocktime reject_msg t).1
  unfolding update_transaction
  update-step raw_tx reject_msg height blocktime t h = unless (eqb_ℤ height (negsuc 0)) refl
    where
      keep :
          (tx_id : Text) (p : Psbt) (o : Option Extra)
          → IsSent height
          → IsWf
              (keep_extra decode_raw decode_psbt tx_id raw_tx height blocktime reject_msg t p o).1
      keep tx_id p none s = h
      keep tx_id p (some e) s =
          let kept = signed_extra (from_psbt p 0).signers reject_msg e in
          after_mark-IsWf (mark_replaced tx_id kept.replace_txid t) _
            (mark_replaced-IsWf tx_id kept.replace_txid t h)
            (λ u g. write_sent-IsWf tx_id raw_tx height blocktime (some kept) u s g)

      pending :
          (tx_id : Text) (o : Option TxRow)
          → IsSent height
          → IsWf
              (keep_pending decode_raw decode_psbt tx_id raw_tx height blocktime reject_msg t o).1
      pending tx_id none s = write_sent-IsWf tx_id raw_tx height blocktime none t s h
      pending tx_id (some row) s =
          bind-IsWf (decode_psbt row.value) t _ h (λ p e. keep tx_id p row.extra s)

      at_height :
          (b : Bool) (tx_id : Text)
          → IsSent height
          → IsWf (update_at decode_raw decode_psbt b tx_id raw_tx height blocktime reject_msg t).1
      at_height true tx_id s = write_sent-IsWf tx_id raw_tx height blocktime none t s h
      at_height false tx_id s = pending tx_id (find_tx (pending_with tx_id) t.txs) s

      unless :
          (b : Bool)
          → eqb_ℤ height (negsuc 0) ≡ b
          → IsWf (update_unless decode_raw decode_psbt b raw_tx height blocktime reject_msg t).1
      unless true e = h
      unless false e =
          bind-IsWf (decode_raw raw_tx) t _ h (λ mtx d. at_height (ltb_ℤ (pos 0) height) mtx.hash e)

  -- A sequence of calls. InsertTransaction is not called with the height -1 of a transaction that is
  -- still being signed.
  pub data Calls (t : Tables) : Tables → Type 0 where
    none_yet : Calls t t
    inserts :
        {u : Tables} (raw_tx memo : Text) (height blocktime : ℤ) (fee : Amount) (change_pos : ℤ)
        → Calls t u
        → IsSent height
        → Calls t
            (insert_transaction decode_raw decode_psbt raw_tx height blocktime fee memo change_pos
              u).1
    creates :
        {u : Tables} (psbt memo replace_tx : Text) (fee fee_rate : Amount) (change_pos : ℤ)
        (outputs : List TxOutput) (b : Bool)
        → Calls t u
        → Calls t
            (create_psbt decode_raw decode_psbt psbt fee memo change_pos outputs fee_rate b
              replace_tx u).1
    signs :
        {u : Tables} (psbt : Text)
        → Calls t u
        → Calls t (update_psbt decode_raw decode_psbt psbt u).1
    updates :
        {u : Tables} (raw_tx reject_msg : Text) (height blocktime : ℤ)
        → Calls t u
        → Calls t (update_transaction decode_raw decode_psbt raw_tx height blocktime reject_msg u).1
    renames :
        {u : Tables} (old_id new_id : Text)
        → Calls t u
        → Calls t (update_psbt_tx_id old_id new_id u).1
    notes :
        {u : Tables} (tx_id memo : Text)
        → Calls t u
        → Calls t (update_transaction_memo tx_id memo u).1
    deletes : {u : Tables} (tx_id : Text) → Calls t u → Calls t (delete_transaction tx_id u).1

  -- Every sequence of calls on the table VTX, whether they return or throw, and with InsertTransaction
  -- only at heights other than -1, keeps the table well-formed: the
  -- identifiers of its rows stay different, and each row at the height -1 has its JSON in EXTRA.
  pub Calls-IsWf : (t u : Tables) → Calls t u → IsWf t → IsWf u
  unfolding update_transaction_memo delete_transaction
  Calls-IsWf t _ none_yet h = h
  Calls-IsWf t _ (inserts {u = u} raw_tx memo height blocktime fee change_pos c s) h =
      insert-step raw_tx memo height blocktime fee change_pos u s (Calls-IsWf t u c h)
  Calls-IsWf t _ (creates {u = u} psbt memo replace_tx fee fee_rate change_pos outputs b c) h =
      create-step psbt memo replace_tx fee fee_rate change_pos outputs b u (Calls-IsWf t u c h)
  Calls-IsWf t _ (signs {u = u} psbt c) h = update_psbt-step psbt u (Calls-IsWf t u c h)
  Calls-IsWf t _ (updates {u = u} raw_tx reject_msg height blocktime c) h =
      update-step raw_tx reject_msg height blocktime u (Calls-IsWf t u c h)
  Calls-IsWf t _ (renames {u = u} old_id new_id c) h =
      rename-IsWf old_id new_id u (Calls-IsWf t u c h)
  Calls-IsWf t _ (notes {u = u} tx_id memo c) h =
      update-IsWf (has_id tx_id) (memo_row memo) u (λ r. refl) (λ r q x. x) (Calls-IsWf t u c h)
  Calls-IsWf t _ (deletes {u = u} tx_id c) h =
      let g = Calls-IsWf t u c h in
      record {
        distinct = delete-Distinct tx_id u.txs g.distinct;
        extras = delete-All HasExtra tx_id u.txs g.extras;
      }
