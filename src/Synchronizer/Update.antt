-- ===== src/Synchronizer/Update.antt =====
-- UpdateTransactions of src/synchronizer.cpp on the tables of a wallet, with the calls of NunchukStorage
-- in src/storage.cpp that it makes. The server is a function; a wallet that is missing is left out.
use libnunchuk.Base.{
  List, [], ◌∷◌, ◌++◌, Option, none, some, Bool, true, false, not, ◌&&◌, if◌then◌else◌,
}
use libnunchuk.Base.Int.{ℤ, pos, negsuc, ltb_ℤ, leb_ℤ}
use libnunchuk.Base.Text.{Text}
use libnunchuk.Types.{
  Amount, TransactionStatus, pending_confirmation, confirmed, Exception, Result, ok, throw, ◌>>=◌,
  std_exception, tx_not_found, wallet_not_found, mastersigner_not_found, signer_used,
  invalid_datadir, sql_error, wallet_existed,
}
use libnunchuk.WalletDb.{Address, filter_addresses}
use libnunchuk.WalletDb.SendReceive.{Transfer, fill_send_receive_data}
use libnunchuk.WalletDb.Transaction.{Transaction, RawTransaction, Psbt}
use libnunchuk.WalletDb.Transactions.{Tables}
use libnunchuk.WalletDb.Broadcast.{get_transaction, insert_transaction, update_transaction}

-- An item of the history of an address, as the server gives it.
pub record HistoryItem : Type 0 where
  pub tx_hash : Text
  pub height : ℤ
  pub fee : Option Amount

-- blockchain_transaction_get
pub record ServerTransaction : Type 0 where
  pub hex : Text
  pub blocktime : Option ℤ

-- `catch (StorageException&)`
abbrev pub is_storage_exception : Exception → Bool
is_storage_exception wallet_not_found = true
is_storage_exception mastersigner_not_found = true
is_storage_exception tx_not_found = true
is_storage_exception signer_used = true
is_storage_exception invalid_datadir = true
is_storage_exception sql_error = true
is_storage_exception wallet_existed = true
is_storage_exception _ = false

abbrev pub Event : Type 0
Event = Text × TransactionStatus

-- An exception, or none; the tables; and what transaction_listener_ was told.
abbrev pub Updated : Type 0
Updated = Option Exception × Tables × List Event

abbrev pub amount_or_zero : Option Amount → Amount
amount_or_zero none = pos 0
amount_or_zero (some a) = a

abbrev pub transfer_of : Transaction → Transfer
transfer_of tx = record {
  inputs = tx.inputs;
  outputs = tx.outputs;
  fee = amount_or_zero tx.fee;
  receive = false;
  sub_amount = pos 0;
  receive_outputs = tx.receive_outputs;
}

abbrev pub with_transfer : Transaction → Transfer → Transaction
with_transfer tx r = record tx {
  is_receive = some r.receive;
  sub_amount = some r.sub_amount;
  receive_outputs = r.receive_outputs;
}

abbrev pub is_confirmed : Option TransactionStatus → Bool
is_confirmed (some confirmed) = true
is_confirmed _ = false

abbrev pub needed : Option ℤ → Result ℤ
needed none = throw std_exception
needed (some n) = ok n

abbrev pub time_or_zero : Option ℤ → ℤ
time_or_zero none = pos 0
time_or_zero (some time) = time

-- The height and the fee that a transaction is inserted with; a fee that the server leaves out is
-- null, which is no number.
abbrev pub inserted_at : Bool → HistoryItem → Result (ℤ × Amount)
inserted_at true item = needed item.fee >>= (λ fee. ok (pos 0, fee))
inserted_at false item = ok (item.height, pos 0)

abbrev pub status_told : ℤ → TransactionStatus
status_told height = if leb_ℤ height (pos 0) then pending_confirmation else confirmed

module _ (decode_raw : Text → Result RawTransaction) (decode_psbt : Text → Result Psbt)
    (visit : List Address → List Address) (server : Text → Result ServerTransaction) where
  -- NunchukStorage::GetTransaction
  unfoldable pub read_transaction : Text → Tables → Result Transaction
  unfolding get_transaction fill_send_receive_data filter_addresses
  read_transaction tx_id t = do
    tx ← get_transaction decode_raw decode_psbt tx_id t
    r ←
        fill_send_receive_data
          (λ id. get_transaction decode_raw decode_psbt id t >>= (λ prev. ok prev.outputs))
          (filter_addresses (λ r. true) (visit t.addresses)) (transfer_of tx)
    ok (with_transfer tx r)

  -- What is left after a change of the tables, with the event where it did not throw.
  abbrev pub told {ℓ} : {A : Type ℓ} → Event → Result A × Tables → Updated
  told event (ok a, t) = (none, t, event ∷ [])
  told event (throw e, t) = (some e, t, [])

  abbrev pub confirm_with : HistoryItem → Tables → ServerTransaction → Result ℤ → Updated
  confirm_with item t tx (throw e) = (some e, t, [])
  confirm_with item t tx (ok blocktime) =
      told (item.tx_hash, confirmed)
        (update_transaction decode_raw decode_psbt tx.hex item.height blocktime [] t)

  abbrev pub confirm : HistoryItem → Tables → Result ServerTransaction → Updated
  confirm item t (throw e) = (some e, t, [])
  confirm item t (ok tx) = confirm_with item t tx (needed tx.blocktime)

  abbrev pub confirm_if : Bool → HistoryItem → Tables → Updated
  confirm_if true item t = confirm item t (server item.tx_hash)
  confirm_if false item t = (none, t, [])

  abbrev pub update_known : HistoryItem → Tables → Result Transaction → Updated
  update_known item t (throw e) = (some e, t, [])
  update_known item t (ok tx) =
      confirm_if (not (is_confirmed tx.status) && ltb_ℤ (pos 0) item.height) item t

  abbrev pub insert_at : HistoryItem → Tables → ServerTransaction → Result (ℤ × Amount) → Updated
  insert_at item t tx (throw e) = (some e, t, [])
  insert_at item t tx (ok (height, fee)) =
      told (item.tx_hash, status_told height)
        (insert_transaction decode_raw decode_psbt tx.hex height (time_or_zero tx.blocktime) fee []
          (negsuc 0) t)

  abbrev pub insert_new : HistoryItem → Tables → Result ServerTransaction → Updated
  insert_new item t (throw e) = (some e, t, [])
  insert_new item t (ok tx) = insert_at item t tx (inserted_at (leb_ℤ item.height (pos 0)) item)

  abbrev pub caught : Bool → HistoryItem → Exception → Tables → Updated
  caught true item tx_not_found t = insert_new item t (server item.tx_hash)
  caught true item e t = (none, t, [])
  caught false item e t = (some e, t, [])

  abbrev pub catch_storage : HistoryItem → Updated → Updated
  catch_storage item (none, t, events) = (none, t, events)
  catch_storage item (some e, t, events) = caught (is_storage_exception e) item e t

  unfoldable pub update_item : HistoryItem → Tables → Updated
  unfolding read_transaction update_transaction insert_transaction
  update_item item t = catch_storage item (update_known item t (read_transaction item.tx_hash t))

  -- The loop, to which an exception puts an end.
  abbrev pub after_item : List Event → Updated → (Tables → Updated) → Updated
  after_item before (some e, t, events) f = (some e, t, before ++ events)
  after_item before (none, t, events) f =
      let (e, u, more) = f t in (e, u, before ++ (events ++ more))

  unfoldable pub update_transactions : List HistoryItem → Tables → Updated
  unfolding update_item
  update_transactions [] t = (none, t, [])
  update_transactions (item ∷ history) t =
      after_item [] (update_item item t) (λ u. update_transactions history u)
