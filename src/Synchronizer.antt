-- ===== src/Synchronizer.antt =====
-- BlockSynchronizer of src/synchronizer.cpp: its status, its settings and its cache of fees. The jobs of
-- its thread are steps, one after another; the calls of the server are functions that are given.
pub mod Update
mod Settings
mod Fees
mod Life
mod NewItem
mod Tests
use libnunchuk.Base.{
  ℕ, zero, suc, ◌+◌, List, [], ◌∷◌, ◌++◌, Option, none, some, Bool, true, false, not, ◌&&◌, ◌||◌,
  if◌then◌else◌,
}
use libnunchuk.Base.Int.{ℤ, pos, negsuc, ◌-ℤ◌, leb_ℤ, eqb_ℤ}
use libnunchuk.Base.Lists.{get_elem?}
use libnunchuk.Base.Text.{Text, text_eq}
use libnunchuk.Types.{
  Amount, AppSettings, Chain, main, testnet, regtest, Result, ok, throw, ◌>>=◌,
  server_request_error,
}
use libnunchuk.Utils.{Core, amount_from_value}

pub data Status : Type 0 where
  uninitialized connecting syncing ready stopped : Status

-- `has_client` tells whether `client_` points to a client, `posted` how many jobs of Connect wait, and
-- `in_sync` whether one has come to BlockchainSync. `asked` is the history of the fees that the server
-- was asked for. The slots of the cache are a time and a value.
pub record Sync : Type 0 where
  pub status : Status
  pub app_settings : AppSettings
  pub first_run : Bool
  pub chain_tip : ℤ
  pub has_client : Bool
  pub posted : ℕ
  pub in_sync : Bool
  pub fee_cache : List (ℤ × Amount)
  pub asked : List ℤ

abbrev pub chain_eq : Chain → Chain → Bool
chain_eq main main = true
chain_eq testnet testnet = true
chain_eq regtest regtest = true
chain_eq _ _ = false

abbrev pub bool_same : Bool → Bool → Bool
bool_same true b = b
bool_same false b = not b

abbrev pub texts_eq : List Text → List Text → Bool
texts_eq [] [] = true
texts_eq (s ∷ ss) (t ∷ ts) = text_eq s t && texts_eq ss ts
texts_eq _ _ = false

abbrev pub same_proxy : AppSettings → AppSettings → Bool
same_proxy a b =
    text_eq a.proxy_host b.proxy_host
    && (eqb_ℤ a.proxy_port b.proxy_port
        && (text_eq a.proxy_password b.proxy_password && text_eq a.proxy_username b.proxy_username))

abbrev pub same_servers : Chain → AppSettings → AppSettings → Bool
same_servers testnet a b = texts_eq a.testnet_servers b.testnet_servers
same_servers main a b = texts_eq a.mainnet_servers b.mainnet_servers
same_servers regtest a b = true

abbrev pub settings_differ : AppSettings → AppSettings → Bool
settings_differ a b =
    not (chain_eq a.chain b.chain)
    || (not (bool_same a.use_proxy b.use_proxy)
        || ((b.use_proxy && not (same_proxy a b)) || not (same_servers b.chain a b)))

-- Whether a new client is needed, and that this was not the first run.
unfoldable pub need_update_client : AppSettings → Sync → Bool × Sync
need_update_client new_settings s =
    (s.first_run || settings_differ s.app_settings new_settings, record s { first_run = false })

abbrev pub clear_slots : List (ℤ × Amount) → List (ℤ × Amount)
clear_slots [] = []
clear_slots (slot ∷ slots) = (pos 0, pos 0) ∷ clear_slots slots

abbrev pub connect_from : Status → Sync → Sync
connect_from stopped s = s
connect_from _ s = record s {
  status = connecting;
  chain_tip = pos 0;
  fee_cache = clear_slots s.fee_cache;
  posted = s.posted + 1;
}

unfoldable pub connect : Sync → Sync
connect s = connect_from s.status s

abbrev pub run_with : AppSettings → Bool × Sync → Sync
run_with settings (false, s) = record s { app_settings = settings }
run_with settings (true, s) =
    let t = record s { app_settings = settings } in connect_from t.status t

unfoldable pub run : AppSettings → Sync → Sync
unfolding need_update_client
run settings s = run_with settings (need_update_client settings s)

-- The destructor, up to its wait for the thread.
unfoldable pub stop : Sync → Sync
stop s = record s { status = stopped }

abbrev pub start_sync : Status → Sync → Sync
start_sync connecting s = record s { status = syncing; in_sync = true }
start_sync _ s = s

-- The job of Connect up to BlockchainSync; whether the constructor of the client has returned.
abbrev pub pred : ℕ → ℕ
pred zero = zero
pred (suc n) = n

unfoldable pub create_client : Bool → Sync → Sync
create_client false s = record s { status = uninitialized; posted = pred s.posted }
create_client true s = start_sync s.status (record s { has_client = true; posted = pred s.posted })

abbrev pub ready_from : Status → Sync → Sync
ready_from syncing s = record s { status = ready; in_sync = false }
ready_from _ s = record s { in_sync = false }

-- The job after BlockchainSync, which may have thrown.
unfoldable pub finish_sync : Sync → Sync
finish_sync s = ready_from s.status s

abbrev pub is_online : Status → Bool
is_online ready = true
is_online syncing = true
is_online _ = false

-- CONF_TARGET_PRIORITY, CONF_TARGET_STANDARD and CONF_TARGET_ECONOMICAL
unfoldable pub cached_index : ℤ → Option ℕ
cached_index target =
    if eqb_ℤ target (pos 2)
    then some 0
    else if eqb_ℤ target (pos 6)
    then some 1
    else if eqb_ℤ target (pos 144)
    then some 2
    else none

abbrev pub cache_second : ℤ
cache_second = pos 600

abbrev pub fresh : ℤ → Option (ℤ × Amount) → Option Amount
fresh now none = none
fresh now (some (time, value)) = if leb_ℤ (now -ℤ time) cache_second then some value else none

abbrev pub cached_fee : ℤ → Option ℕ → List (ℤ × Amount) → Option Amount
cached_fee now none slots = none
cached_fee now (some i) slots = fresh now (get_elem? slots i)

unfoldable pub set_slot : ℕ → ℤ × Amount → List (ℤ × Amount) → List (ℤ × Amount)
set_slot i slot [] = []
set_slot zero slot (old ∷ slots) = slot ∷ slots
set_slot (suc i) slot (old ∷ slots) = old ∷ set_slot i slot slots

abbrev pub store_fee : Option ℕ → ℤ → Amount → Sync → Sync
store_fee none now fee s = s
store_fee (some i) now fee s = record s { fee_cache = set_slot i (now, fee) s.fee_cache }

abbrev pub fee_answer : Option ℕ → ℤ → Sync → Result Amount → Result Amount × Sync
fee_answer i now s (throw e) = (throw e, s)
fee_answer i now s (ok fee) = (ok fee, store_fee i now fee s)

module _ (core : Core) (ask : ℤ → Result Text) where
  abbrev pub ask_fee : Bool → ℤ → ℤ → Sync → Result Amount × Sync
  ask_fee false now target s = (throw server_request_error, s)
  ask_fee true now target s =
      fee_answer (cached_index target) now (record s { asked = s.asked ++ target ∷ [] })
        (ask target >>= (λ value. amount_from_value core value false))

  abbrev pub fee_from : ℤ → ℤ → Sync → Option Amount → Result Amount × Sync
  fee_from now target s (some fee) = (ok fee, s)
  fee_from now target s none = ask_fee (is_online s.status) now target s

  -- EstimateFee at a time.
  unfoldable pub estimate_fee : ℤ → ℤ → Sync → Result Amount × Sync
  unfolding cached_index set_slot amount_from_value
  estimate_fee now target s =
      fee_from now target s (cached_fee now (cached_index target) s.fee_cache)

abbrev pub if_online : Bool → Result Text → Result Text
if_online true answer = answer
if_online false answer = throw server_request_error

-- The answer of the server to blockchain_transaction_broadcast.
unfoldable pub broadcast : Result Text → Sync → Result Text
broadcast answer s = if_online (is_online s.status) answer

unfoldable pub relay_fee : Core → Result Text → Sync → Result Amount
relay_fee core answer s =
    if_online (is_online s.status) answer >>= (λ value. amount_from_value core value false)

-- The tip that the storage has for the chain is given.
unfoldable pub get_chain_tip : ℤ → Sync → ℤ
get_chain_tip stored s = if leb_ℤ s.chain_tip (pos 0) then stored else s.chain_tip
