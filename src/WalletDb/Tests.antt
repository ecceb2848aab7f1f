-- ===== src/WalletDb/Tests.antt =====
-- A wallet with an output in use, and the theorems there.
use libnunchuk.Base.{ℕ, ◌≡◌, refl, List, [], ◌∷◌, ◌++◌, Option, some, true, false}
use libnunchuk.Base.Int.{ℤ, pos, ◌+ℤ◌}
use libnunchuk.Base.Text.{Text, codes, text_eq}
use libnunchuk.Base.Decimal.{show, show_ℕ}
use libnunchuk.Types.{TxOutput, UnspentOutput, Result, ok}
use libnunchuk.WalletDb.{
  Address, Item, Tx, add_address, new_address, max_of, get_current_address_index, input_str,
  locked_utxos, unlocked, unspent_of, unspent_rows, get_unspent_outputs, filter_addresses,
  get_addresses, sum_balance, get_balance,
}
use libnunchuk.WalletDb.Unspent.{keep_unspent, get_unspent_outputs-keep_unspent}
use libnunchuk.WalletDb.SendReceive.{
  Transfer, known, add_sent, is_my_address, fill_send_receive_data, IsFilled,
  fill_send_receive_data-IsFilled,
}
use libnunchuk.WalletDb.Current.{add_address-get_current_address_index}

abbrev item : ℕ → ℤ → Item
item n value = record { tx_hash = codes "aa"; tx_pos = n; amounts = some (value, pos 7) }

-- Every text stands for two outputs.
abbrev toy_parse : Text → Option (List Item)
toy_parse s = some (item 0 (pos 500) ∷ item 1 (pos 20) ∷ [])

abbrev in_order : List Address → List Address
in_order rows = rows

abbrev wallet : List Address
wallet =
    record {
      addr = codes "bc1a";
      idx = pos 0;
      internal = false;
      used = true;
      utxo = some (codes "[]");
    }
    ∷ []

abbrev mempool : List Tx
mempool =
    record { height = pos 0; inputs = (codes "aa", 1) ∷ [] }
    ∷ record { height = pos 3; inputs = (codes "aa", 0) ∷ [] }
    ∷ []

unspent_runs :
    get_unspent_outputs toy_parse in_order true (ok mempool) wallet
    ≡ ok (unspent_of (codes "bc1a") (item 0 (pos 500)) (pos 500) (pos 7) ∷ [])
unfolding get_unspent_outputs unspent_rows unlocked locked_utxos input_str text_eq show show_ℕ
unspent_runs = refl

balance_runs : get_balance toy_parse in_order (ok mempool) wallet ≡ ok (pos 500)
unfolding get_balance get_unspent_outputs unspent_rows unlocked locked_utxos input_str text_eq show
    show_ℕ get_addresses filter_addresses sum_balance ◌+ℤ◌
balance_runs = refl

abbrev all_outputs : List UnspentOutput
all_outputs =
    unspent_of (codes "bc1a") (item 0 (pos 500)) (pos 500) (pos 7)
    ∷ unspent_of (codes "bc1a") (item 1 (pos 20)) (pos 20) (pos 7)
    ∷ []

all_runs : get_unspent_outputs toy_parse in_order false (ok mempool) wallet ≡ ok all_outputs
unfolding get_unspent_outputs unspent_rows unlocked locked_utxos
all_runs = refl

get_unspent_outputs-keep_unspent_example :
    get_unspent_outputs toy_parse in_order true (ok mempool) wallet
    ≡ ok (keep_unspent mempool all_outputs)
get_unspent_outputs-keep_unspent_example =
    get_unspent_outputs-keep_unspent toy_parse in_order (ok mempool) wallet all_outputs all_runs

add_runs :
    add_address (codes "bc1b") (get_current_address_index false wallet +ℤ pos 1) false wallet
    ≡ ok (true, wallet ++ new_address (codes "bc1b") (pos 1) false ∷ [])
unfolding add_address get_current_address_index max_of text_eq ◌+ℤ◌
add_runs = refl

add_address-get_current_address_index_example :
    (get_current_address_index false (wallet ++ new_address (codes "bc1b") (pos 1) false ∷ [])
      ≡ get_current_address_index false wallet +ℤ pos 1)
    × (get_current_address_index true (wallet ++ new_address (codes "bc1b") (pos 1) false ∷ [])
        ≡ get_current_address_index true wallet)
add_address-get_current_address_index_example =
    add_address-get_current_address_index (codes "bc1b") false true wallet
      (wallet ++ new_address (codes "bc1b") (pos 1) false ∷ []) add_runs

abbrev spending : Transfer
spending = record {
  inputs = (codes "aa", 1) ∷ [];
  outputs = (codes "bc1x", pos 300) ∷ (codes "bc1a", pos 150) ∷ [];
  fee = pos 50;
  receive = true;
  sub_amount = pos 0;
  receive_outputs = [];
}

abbrev spent : Transfer
spent = record spending { receive = false; sub_amount = pos 350 }

abbrev earlier : Text → Result (List TxOutput)
earlier txid = ok ((codes "bc1x", pos 9) ∷ (codes "bc1a", pos 500) ∷ [])

fill_runs : fill_send_receive_data earlier (codes "bc1a" ∷ []) spending ≡ ok spent
unfolding fill_send_receive_data add_sent text_eq ◌+ℤ◌
fill_runs = refl

fill_send_receive_data-IsFilled_example :
    (t : Transfer) × (fill_send_receive_data earlier (codes "bc1a" ∷ []) spending ≡ ok t)
    × IsFilled (codes "bc1a" ∷ []) spending t (is_my_address (codes "bc1a" ∷ []) (codes "bc1a"))
fill_send_receive_data-IsFilled_example =
    fill_send_receive_data-IsFilled earlier (codes "bc1a" ∷ []) spending (codes "aa") 1 []
      (codes "bc1a") refl
      (known ((codes "bc1x", pos 9) ∷ (codes "bc1a", pos 500) ∷ []) (pos 500) refl refl)
