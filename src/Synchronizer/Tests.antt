-- ===== src/Synchronizer/Tests.antt =====
-- Examples of src/synchronizer.cpp.
use libnunchuk.Base.{◌≡◌, ◌≢◌, refl, sym, [], ◌∷◌, none, some, true, false, true≢false, arith}
use libnunchuk.Base.Int.{ℤ, pos, negsuc, ◌-ℤ◌}
use libnunchuk.Base.Text.{Text, codes, text_eq}
use libnunchuk.Types.{
  AppSettings, testnet, Result, ok, throw, invalid_raw_tx, invalid_psbt, server_request_error,
}
use libnunchuk.Utils.{Core, checked_amount}
use libnunchuk.Electrum.Server.{open_endpoint}
use libnunchuk.WalletDb.Transaction.{Transaction, RawTransaction, Psbt}
use libnunchuk.WalletDb.Transactions.{Tables}
use libnunchuk.Synchronizer.{
  Sync, uninitialized, ready, need_update_client, run, create_client, finish_sync, stop,
  estimate_fee, cached_index,
}
use libnunchuk.Synchronizer.Settings.{need_update_client-open_endpoint}
use libnunchuk.Synchronizer.Fees.{nothing, estimates, stops, estimate_fee-estimate_fee}
use libnunchuk.Synchronizer.Life.{begins, runs, creates, finishes, IsSafe, Life-IsSafe}
use libnunchuk.Synchronizer.Update.{HistoryItem, ServerTransaction, Updated, update_item}

abbrev example_settings : AppSettings
example_settings = record {
  chain = testnet;
  mainnet_servers = codes "a" ∷ [];
  testnet_servers = codes "ssl://b:5" ∷ [];
  hwi_path = [];
  storage_path = [];
  use_proxy = true;
  proxy_host = codes "p";
  proxy_port = pos 9050;
  proxy_username = codes "me";
  proxy_password = codes "pw";
  certificate_file = [];
}

-- Another list of servers for the chain that is not used.
abbrev other_settings : AppSettings
other_settings = record example_settings { mainnet_servers = [] }

abbrev online : Sync
online = record {
  status = ready;
  app_settings = example_settings;
  first_run = false;
  chain_tip = pos 7;
  has_client = true;
  posted = 0;
  in_sync = false;
  fee_cache = (pos 0, pos 0) ∷ (pos 0, pos 0) ∷ (pos 0, pos 0) ∷ [];
  asked = [];
}

need_update_client-open_endpoint_example :
    open_endpoint other_settings ≡ open_endpoint example_settings
unfolding need_update_client text_eq
need_update_client-open_endpoint_example =
    need_update_client-open_endpoint other_settings online refl

-- A parser that knows one number.
abbrev one_core : Core
one_core = record {
  coin = 100000000;
  max_money = 2100000000000000;
  parse_fixed_point = λ s n. some (pos 1000);
  decode_base58_check = λ s n. none;
  encode_base58_check = λ s. s;
  is_hex = λ s. false;
  parse_hex = λ s. [];
  parse_hd_keypath = λ s. none;
}

abbrev answers : ℤ → Result Text
answers target = ok (codes "0.00001")

abbrev silent : ℤ → Result Text
silent target = throw server_request_error

abbrev asked_once : Sync
asked_once = record online {
  fee_cache = (pos 0, pos 0) ∷ (pos 10000, pos 1000) ∷ (pos 0, pos 0) ∷ [];
  asked = pos 6 ∷ [];
}

first_fee : estimate_fee one_core answers (pos 10000) (pos 6) online ≡ (ok (pos 1000), asked_once)
unfolding estimate_fee checked_amount ◌-ℤ◌
first_fee = refl

abbrev later : Sync
later = stop (estimate_fee one_core answers (pos 10100) (pos 2) asked_once).1

other_target : cached_index (pos 2) ≢ some 1
unfolding cached_index
other_target e = ground arith

estimate_fee-estimate_fee_example :
    estimate_fee one_core silent (pos 10600) (pos 6) later ≡ (ok (pos 1000), later)
unfolding cached_index ◌-ℤ◌
estimate_fee-estimate_fee_example =
    estimate_fee-estimate_fee one_core answers silent 1 (pos 10000) (pos 10600) (pos 6) online
      asked_once later (pos 1000) refl (ground arith) refl first_fee
      (stops (estimates answers (pos 10100) (pos 2) nothing other_target)) refl

abbrev start : Sync
start = record online { status = uninitialized; has_client = false; first_run = true }

abbrev connected : Sync
connected = finish_sync (create_client true (run example_settings start))

Life-IsSafe_example : IsSafe connected
unfolding run need_update_client create_client
Life-IsSafe_example =
    Life-IsSafe start connected
      (finishes (creates true (runs example_settings begins) refl refl) refl)
      (λ p. absurd (true≢false (sym p)))

abbrev example_raw : RawTransaction
example_raw = record {
  hash = codes "tx";
  vin = (codes "aa", 0) ∷ [];
  vout = (codes "bc1a", pos 900) ∷ [];
}

abbrev decode_example : Text → Result RawTransaction
decode_example [] = throw invalid_raw_tx
decode_example (c ∷ s) = ok example_raw

abbrev no_psbt : Text → Result Psbt
no_psbt s = throw invalid_psbt

abbrev server_example : Text → Result ServerTransaction
server_example id = ok (record { hex = codes "00"; blocktime = none })

abbrev empty_tables : Tables
empty_tables = record { m = 1; fingerprints = codes "f1" ∷ []; addresses = []; txs = [] }

abbrev example_item : HistoryItem
example_item = record { tx_hash = codes "tx"; height = negsuc 0; fee = some (pos 12) }

abbrev example_updated : Updated
example_updated =
    update_item decode_example no_psbt (λ rows. rows) server_example example_item empty_tables
