-- ===== src/Nunchuk/Search.antt =====
-- The searches of src/nunchukimpl.cpp with LookAhead of src/synchronizer.cpp and AddAddress of
-- src/storage.cpp.
use libnunchuk.Base.{ℕ, ◌+◌, ◌≤◌, ◌<◌, ◌≡◌, List, [], ◌∷◌, Bool, true, false}
use libnunchuk.Base.Text.{Text}
use libnunchuk.Types.{Result, ok, throw, ok->>=}
use libnunchuk.WalletDb.{Address}
use libnunchuk.WalletDb.Transaction.{RawTransaction, Psbt}
use libnunchuk.Synchronizer.Update.{HistoryItem, ServerTransaction}
use libnunchuk.Nunchuk.{get_unused_address, new_address, gap_limit}
use libnunchuk.Nunchuk.LookAhead.{
  Seen, store_address, update_seen, look_history, look_status, look_ahead, wallet_calls,
}
use libnunchuk.Nunchuk.Answers.{Answers}
use libnunchuk.Nunchuk.Gap.{Finds, get_unused_address-IsGap}
use libnunchuk.Nunchuk.NewAddress.{FindsFirst, new_address-IsFirst}

-- Whether the server has a history of an address.
abbrev pub has_history : Result (List HistoryItem) → Bool
has_history (throw e) = false
has_history (ok []) = false
has_history (ok (item ∷ history)) = true

-- Whether the client sees that an address is used.
abbrev pub is_seen : Bool → Result (List HistoryItem) → Bool
is_seen false history = false
is_seen true history = has_history history

module _ (decode_raw : Text → Result RawTransaction) (decode_psbt : Text → Result Psbt)
    (visit : List Address → List Address) (server : Text → Result ServerTransaction)
    (get_history : Text → Result (List HistoryItem)) (listunspent : Text → Result Text) where
  look_history-has :
      (internal : Bool) (address : Text) (index : ℕ) (s t : Seen) (b : Bool)
      (history : Result (List HistoryItem))
      → look_history decode_raw decode_psbt visit server get_history listunspent internal address
          index s history
        ≡ ok (b, t)
      → b ≡ has_history history
  look_history-has internal address index s t b (throw e) h = cc
  look_history-has internal address index s t b (ok []) h = cc
  look_history-has internal address index s t b (ok (item ∷ history)) h =
      let (stored, _, h1) = ok->>= (store_address internal address index s) _ (b, t) h in
      let (updated, _, h2) =
        ok->>=
          (update_seen decode_raw decode_psbt visit server get_history listunspent (item ∷ history)
            stored)
          _ (b, t) h1 in
      let (utxo, _, h3) = ok->>= (listunspent address) _ (b, t) h2 in cc

  look_status-is_seen :
      (online internal : Bool) (address : Text) (index : ℕ) (s t : Seen) (b : Bool)
      → look_status decode_raw decode_psbt visit server get_history listunspent online internal
          address index s
        ≡ ok (b, t)
      → b ≡ is_seen online (get_history address)
  look_status-is_seen false internal address index s t b h = cc
  look_status-is_seen true internal address index s t b h =
      look_history-has internal address index s t b (get_history address) h

  module _ (online internal : Bool) (derive : ℕ → Text) (bound : ℕ)
      (ends : (i : ℕ) → bound ≤ i → is_seen online (get_history (derive i)) ≡ false) where
    wallet_calls-Answers :
        Answers
          (wallet_calls decode_raw decode_psbt visit server get_history listunspent online internal
            derive)
          (λ i. is_seen online (get_history (derive i)))
          bound
    unfolding look_ahead
    wallet_calls-Answers = record {
      looks = λ i s t b h. look_status-is_seen online internal (derive i) i s t b h;
      ends = ends;
    }

    -- Where the client sees no history of an address from a bound on, and its status and the
    -- server's answers stay as they are, GetUnusedAddress ends, within a number of rounds that the
    -- bound gives, with an exception of LookAhead or AddAddress, or with the first address of the
    -- first gap: of 20 addresses without a history, behind one that has one or at the index that it
    -- started from, while among the 20 addresses from every index before there is one with a history.
    pub get_unused_address-look_ahead :
        (fuel start : ℕ) (s : Seen)
        → gap_limit + bound ≤ fuel + start
        → gap_limit ≤ fuel
        → let calls =
            wallet_calls decode_raw decode_psbt visit server get_history listunspent online internal
              derive in
          Finds calls
            (λ i. is_seen online (get_history (derive i)))
            start
            (get_unused_address calls fuel start s)
    get_unused_address-look_ahead fuel start s enough most =
        get_unused_address-IsGap _ _ bound wallet_calls-Answers fuel start s enough most

    -- Where the client sees no history of an address from a bound on, and its status and the
    -- server's answers stay as they are, NewAddress ends, within a number of rounds that the bound
    -- gives, with an exception of LookAhead or AddAddress, or with the address of the first index from
    -- its start that has no history.
    pub new_address-look_ahead :
        (fuel start : ℕ) (s : Seen)
        → bound < fuel + start
        → 0 < fuel
        → let calls =
            wallet_calls decode_raw decode_psbt visit server get_history listunspent online internal
              derive in
          FindsFirst calls
            (λ i. is_seen online (get_history (derive i)))
            start
            (new_address calls fuel start s)
    new_address-look_ahead fuel start s b f =
        new_address-IsFirst _ _ bound wallet_calls-Answers fuel start s b f
