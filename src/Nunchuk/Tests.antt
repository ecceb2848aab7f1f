-- ===== src/Nunchuk/Tests.antt =====
-- Examples of src/nunchukimpl.cpp.
use libnunchuk.Base.{ℕ, ◌≡◌, refl, List, [], ◌∷◌, none, some, ltb, Bool, true, false, arith}
use libnunchuk.Base.Int.{pos}
use libnunchuk.Base.Text.{Text, codes, text_eq}
use libnunchuk.Types.{Result, ok, throw, wallet_not_found, invalid_raw_tx, invalid_psbt}
use libnunchuk.Nunchuk.{Calls, get_unused_address, new_address}
use libnunchuk.Nunchuk.LookAhead.{Seen, look_ahead, wallet_calls}
use libnunchuk.Nunchuk.Gap.{Finds}
use libnunchuk.Nunchuk.NewAddress.{FindsFirst}
use libnunchuk.Nunchuk.Search.{is_seen, get_unused_address-look_ahead, new_address-look_ahead}
use libnunchuk.Synchronizer.Update.{HistoryItem, ServerTransaction}
use libnunchuk.WalletDb.Transaction.{from_raw, lookup, RawTransaction, Psbt}
use libnunchuk.Nunchuk.Wallets.{Store, delete_wallet, get_wallets, get_wallet_db}
use libnunchuk.Nunchuk.Selected.{delete_wallet-get_wallets}

-- The addresses of the indices 0 and 1 have a history, of one transaction each.
abbrev address_of : ℕ → Text
address_of i = i ∷ []

abbrev history_if : Bool → Text → List HistoryItem
history_if true address = record { tx_hash = address; height = pos 5; fee = none } ∷ []
history_if false address = []

abbrev history_of : Text → Result (List HistoryItem)
history_of [] = ok []
history_of (i ∷ rest) = ok (history_if (ltb i 2) (i ∷ rest))

abbrev utxos_of : Text → Result Text
utxos_of address = ok (codes "[]")

abbrev decode : Text → Result RawTransaction
decode [] = throw invalid_raw_tx
decode (c ∷ s) = ok (record { hash = c ∷ []; vin = []; vout = [] })

abbrev no_psbt : Text → Result Psbt
no_psbt s = throw invalid_psbt

abbrev served : Text → Result ServerTransaction
served id = ok (record { hex = id; blocktime = none })

abbrev example_calls : Calls Seen
example_calls =
    wallet_calls decode no_psbt (λ rows. rows) served history_of utxos_of true false address_of

abbrev nothing_stored : Seen
nothing_stored = (record { m = 1; fingerprints = []; addresses = []; txs = [] }, [])

-- The search finds the gap behind the two used addresses, which it stores.
finds_gap : get_unused_address example_calls 30 0 nothing_stored ≡ some (ok (address_of 2, 2))
unfolding get_unused_address look_ahead text_eq from_raw
finds_gap = refl

get_unused_address-look_ahead_example :
    Finds example_calls
      (λ i. is_seen true (history_of (address_of i)))
      0
      (get_unused_address example_calls 30 0 nothing_stored)
get_unused_address-look_ahead_example =
    get_unused_address-look_ahead decode no_psbt (λ rows. rows) served history_of utxos_of true
      false address_of 2 (λ i l. ground (arith, l)) 30 0 nothing_stored (omega arith) (omega arith)

new_address-look_ahead_example :
    FindsFirst example_calls
      (λ i. is_seen true (history_of (address_of i)))
      1
      (new_address example_calls 5 1 nothing_stored)
new_address-look_ahead_example =
    new_address-look_ahead decode no_psbt (λ rows. rows) served history_of utxos_of true false
      address_of 2 (λ i l. ground (arith, l)) 5 1 nothing_stored (omega arith) (omega arith)

abbrev example_store : Store ℕ ℕ (λ w. ok w)
example_store = record {
  files = (codes "w1", 1) ∷ (codes "w2", 2) ∷ [];
  selected_wallet = codes "w2";
}

abbrev left_store : Store ℕ ℕ (λ w. ok w)
left_store = record example_store { files = (codes "w1", 1) ∷ [] }

deletes : delete_wallet ℕ ℕ (λ w. ok w) (codes "w2") example_store ≡ ok left_store
unfolding delete_wallet get_wallet_db lookup text_eq
deletes = refl

delete_wallet-get_wallets_example : get_wallets ℕ ℕ (λ w. ok w) left_store ≡ throw wallet_not_found
delete_wallet-get_wallets_example =
    delete_wallet-get_wallets ℕ ℕ (λ w. ok w) example_store left_store refl deletes ((1, refl), tt)
