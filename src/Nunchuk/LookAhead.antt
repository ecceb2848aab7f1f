-- ===== src/Nunchuk/LookAhead.antt =====
-- LookAhead of src/synchronizer.cpp, with AddAddress and SetUtxos of src/storage.cpp, on the tables of a
-- wallet: the calls of the searches of src/nunchukimpl.cpp. The server is two functions: the history of
-- an address, where a JSON that is no array is empty, and the text of its unspent outputs. The
-- status of the synchronizer and the server's answers stay as they are during a search.
use libnunchuk.Base.{ℕ, List, [], ◌∷◌, ◌++◌, none, some, Bool, true, false}
use libnunchuk.Base.Int.{pos}
use libnunchuk.Base.Text.{Text}
use libnunchuk.Types.{Result, ok, throw, ◌>>=◌}
use libnunchuk.WalletDb.{Address, add_address, set_utxos}
use libnunchuk.WalletDb.Transaction.{RawTransaction, Psbt}
use libnunchuk.WalletDb.Transactions.{Tables}
use libnunchuk.Synchronizer.Update.{
  HistoryItem, ServerTransaction, Event, Updated, update_transactions,
}
use libnunchuk.Nunchuk.{Calls}

-- The tables of the wallet, and what transaction_listener_ was told.
abbrev pub Seen : Type 0
Seen = Tables × List Event

-- NunchukWalletDb::AddAddress
unfoldable pub store_address : Bool → Text → ℕ → Seen → Result Seen
unfolding add_address
store_address internal address index (t, events) = do
  added ← add_address address (pos index) internal t.addresses
  ok (record t { addresses = added.1 }, events)

abbrev pub without_exception : List Event → Updated → Result Seen
without_exception events (some e, t, more) = throw e
without_exception events (none, t, more) = ok (t, events ++ more)

abbrev pub put_utxos : Text → Text → Seen → Seen
put_utxos address utxo (t, events) =
    (record t { addresses = (set_utxos address utxo t.addresses).1 }, events)

module _ (decode_raw : Text → Result RawTransaction) (decode_psbt : Text → Result Psbt)
    (visit : List Address → List Address) (server : Text → Result ServerTransaction)
    (get_history : Text → Result (List HistoryItem)) (listunspent : Text → Result Text) where
  abbrev pub update_seen : List HistoryItem → Seen → Result Seen
  update_seen history (t, events) =
      without_exception events (update_transactions decode_raw decode_psbt visit server history t)

  -- An address with a history: it is stored, and so are its transactions and its unspent outputs.
  abbrev pub look_history :
      Bool → Text → ℕ → Seen → Result (List HistoryItem) → Result (Bool × Seen)
  look_history internal address index s (throw e) = throw e
  look_history internal address index s (ok []) = ok (false, s)
  look_history internal address index s (ok (item ∷ history)) = do
    stored ← store_address internal address index s
    updated ← update_seen (item ∷ history) stored
    utxo ← listunspent address
    ok (true, put_utxos address utxo updated)

  -- `online`: the status is READY or SYNCING, and the chain that of the settings.
  abbrev pub look_status : Bool → Bool → Text → ℕ → Seen → Result (Bool × Seen)
  look_status false internal address index s = ok (false, s)
  look_status true internal address index s =
      look_history internal address index s (get_history address)

  unfoldable pub look_ahead : Bool → Bool → Text → ℕ → Seen → Result (Bool × Seen)
  unfolding store_address set_utxos update_transactions
  look_ahead online internal address index s = look_status online internal address index s

  -- The calls of a search; `derive` gives the address of an index of the wallet's descriptor.
  abbrev pub wallet_calls : Bool → Bool → (ℕ → Text) → Calls Seen
  wallet_calls online internal derive = record {
    derive_address = derive;
    look_ahead = look_ahead online internal;
    add_address = store_address internal;
  }
