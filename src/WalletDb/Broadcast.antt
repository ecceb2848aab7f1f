-- ===== src/WalletDb/Broadcast.antt =====
-- The calls on VTX of src/storage.cpp that decode a transaction.
use libnunchuk.Base.{ℕ, List, [], ◌∷◌, Option, none, some, Bool, true, false, if◌then◌else◌}
use libnunchuk.Base.Int.{ℤ, pos, negsuc, eqb_ℤ, ltb_ℤ}
use libnunchuk.Base.Lists.{any}
use libnunchuk.Base.Search.{is_empty}
use libnunchuk.Base.Text.{Text}
use libnunchuk.Types.{Amount, TxOutput, Result, ok, throw, ◌>>=◌, std_exception, tx_not_found}
use libnunchuk.WalletDb.{use_address}
use libnunchuk.WalletDb.Transaction.{
  Transaction, RawTransaction, Psbt, Extra, from_raw, from_psbt, fill_extra,
}
use libnunchuk.WalletDb.Transactions.{
  TxRow, Tables, Done, bind, has_id, is_pending, pending_with, find_tx, insert_tx, update_txs,
  with_row, create_extra, set_replaced_by,
}

-- `for (auto&& output : tx.get_outputs()) UseAddress(output.first);`
unfoldable pub use_outputs : List TxOutput → Tables → Tables
unfolding use_address
use_outputs [] t = t
use_outputs ((address, amount) ∷ outputs) t =
    use_outputs outputs (record t { addresses = (use_address address t.addresses).1 })

abbrev pub use_if_mined : Bool → Transaction → Tables → Tables
use_if_mined true tx t = use_outputs tx.outputs t
use_if_mined false tx t = t

abbrev pub new_row : Text → Text → ℤ → Amount → Text → ℤ → ℤ → Option Extra → TxRow
new_row id value height fee memo change_pos blocktime extra = record {
  id = id;
  value = value;
  height = height;
  fee = fee;
  memo = memo;
  change_pos = change_pos;
  blocktime = blocktime;
  extra = extra;
}

abbrev pub psbt_row : Text → TxRow → TxRow
psbt_row psbt row = record row { value = psbt }

-- EXTRA stays where the text for it is empty.
abbrev pub sent_row : Text → ℤ → ℤ → Option Extra → TxRow → TxRow
sent_row raw_tx height blocktime none row = record row {
  value = raw_tx;
  height = height;
  blocktime = blocktime;
}
sent_row raw_tx height blocktime (some extra) row = record row {
  value = raw_tx;
  height = height;
  blocktime = blocktime;
  extra = some extra;
}

abbrev pub signed_extra : List (Text × Bool) → Text → Extra → Extra
signed_extra signers reject_msg extra = record extra {
  signers = some signers;
  reject_msg = if is_empty reject_msg then extra.reject_msg else some reject_msg;
}

abbrev pub mark_replaced : Text → Option Text → Tables → Done Bool
mark_replaced tx_id none t = (ok false, t)
mark_replaced tx_id (some replace_txid) t = set_replaced_by replace_txid tx_id t

abbrev pub after_mark : Done Bool → (Tables → Done Bool) → Done Bool
after_mark (ok b, t) f = f t
after_mark (throw e, t) f = (throw e, t)

-- `decode_raw` is DecodeRawTransaction and `decode_psbt` is DecodePsbt.
module _ (decode_raw : Text → Result RawTransaction) (decode_psbt : Text → Result Psbt) where
  abbrev pub decoded : ℕ → TxRow → Bool → Result Transaction
  decoded m row true = decode_psbt row.value >>= (λ psbt. ok (from_psbt psbt m))
  decoded m row false = decode_raw row.value >>= (λ mtx. ok (from_raw mtx row.height))

  abbrev pub found_transaction : Tables → Option TxRow → Result Transaction
  found_transaction t none = throw tx_not_found
  found_transaction t (some row) =
      decoded t.m row (is_pending row) >>= (λ tx. fill_extra row.extra (with_row t row tx))

  unfoldable pub get_transaction : Text → Tables → Result Transaction
  unfolding find_tx fill_extra
  get_transaction tx_id t = found_transaction t (find_tx (has_id tx_id) t.txs)

  abbrev pub read_inserted : ℤ → Text → Tables → List TxRow → Done Transaction
  read_inserted height tx_id t rows =
      let stored = record t { txs = rows } in
      bind (get_transaction tx_id stored) stored
        (λ tx. (ok tx, use_if_mined (ltb_ℤ (pos 0) height) tx stored))

  unfoldable pub insert_transaction : Text → ℤ → ℤ → Amount → Text → ℤ → Tables → Done Transaction
  unfolding insert_tx get_transaction use_outputs
  insert_transaction raw_tx height blocktime fee memo change_pos t =
      bind (decode_raw raw_tx) t (λ mtx.
        bind (insert_tx (new_row mtx.hash raw_tx height fee memo change_pos blocktime none) t.txs) t
          (read_inserted height mtx.hash t))

  unfoldable pub create_psbt :
      Text → Amount → Text → ℤ → List TxOutput → Amount → Bool → Text → Tables → Done Transaction
  unfolding insert_tx get_transaction
  create_psbt psbt fee memo change_pos outputs fee_rate subtract_fee_from_amount replace_tx t =
      bind (decode_psbt psbt) t (λ psbtx.
        let extra = create_extra outputs fee_rate subtract_fee_from_amount replace_tx in
        bind
          (insert_tx
            (new_row psbtx.tx.hash psbt (negsuc 0) fee memo change_pos (pos 0) (some extra)) t.txs)
          t (read_inserted (negsuc 0) psbtx.tx.hash t))

  unfoldable pub update_psbt : Text → Tables → Done Bool
  unfolding update_txs
  update_psbt psbt t = bind (decode_psbt psbt) t (λ psbtx.
      let pending = pending_with psbtx.tx.hash in
      (ok (any pending t.txs), record t { txs = update_txs pending (psbt_row psbt) t.txs }))

  -- The end of UpdateTransaction.
  abbrev pub read_mined : Text → Bool → Bool → Tables → Done Bool
  read_mined tx_id true true t =
      bind (get_transaction tx_id t) t (λ tx. (ok true, use_outputs tx.outputs t))
  read_mined tx_id updated mined t = (ok updated, t)

  unfoldable pub write_sent : Text → Text → ℤ → ℤ → Option Extra → Tables → Done Bool
  unfolding update_txs get_transaction use_outputs
  write_sent tx_id raw_tx height blocktime extra t =
      read_mined tx_id (any (has_id tx_id) t.txs) (ltb_ℤ (pos 0) height) (record t {
        txs = update_txs (has_id tx_id) (sent_row raw_tx height blocktime extra) t.txs;
      })

  -- The transaction that was signed here: its signers are kept, and what it replaces is marked.
  abbrev pub keep_extra : Text → Text → ℤ → ℤ → Text → Tables → Psbt → Option Extra → Done Bool
  keep_extra tx_id raw_tx height blocktime reject_msg t psbt none = (throw std_exception, t)
  keep_extra tx_id raw_tx height blocktime reject_msg t psbt (some extra) =
      let kept = signed_extra (from_psbt psbt 0).signers reject_msg extra in
      after_mark (mark_replaced tx_id kept.replace_txid t)
        (write_sent tx_id raw_tx height blocktime (some kept))

  abbrev pub keep_pending : Text → Text → ℤ → ℤ → Text → Tables → Option TxRow → Done Bool
  keep_pending tx_id raw_tx height blocktime reject_msg t none =
      write_sent tx_id raw_tx height blocktime none t
  keep_pending tx_id raw_tx height blocktime reject_msg t (some row) =
      bind (decode_psbt row.value) t
        (λ psbt. keep_extra tx_id raw_tx height blocktime reject_msg t psbt row.extra)

  abbrev pub update_at : Bool → Text → Text → ℤ → ℤ → Text → Tables → Done Bool
  update_at true tx_id raw_tx height blocktime reject_msg t =
      write_sent tx_id raw_tx height blocktime none t
  update_at false tx_id raw_tx height blocktime reject_msg t =
      keep_pending tx_id raw_tx height blocktime reject_msg t (find_tx (pending_with tx_id) t.txs)

  abbrev pub update_unless : Bool → Text → ℤ → ℤ → Text → Tables → Done Bool
  update_unless true raw_tx height blocktime reject_msg t = (ok false, t)
  update_unless false raw_tx height blocktime reject_msg t =
      bind (decode_raw raw_tx) t
        (λ mtx. update_at (ltb_ℤ (pos 0) height) mtx.hash raw_tx height blocktime reject_msg t)

  unfoldable pub update_transaction : Text → ℤ → ℤ → Text → Tables → Done Bool
  unfolding find_tx set_replaced_by write_sent
  update_transaction raw_tx height blocktime reject_msg t =
      update_unless (eqb_ℤ height (negsuc 0)) raw_tx height blocktime reject_msg t
