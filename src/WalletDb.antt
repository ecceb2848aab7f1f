-- ===== src/WalletDb.antt =====
-- NunchukWalletDb of src/storage.cpp: the table ADDRESS of a wallet's addresses with the outputs
-- that can be spent, and the balance. The transactions that GetTransactions lists are an argument.
pub mod InputStr
pub mod Transaction
pub mod Transactions
pub mod Broadcast
mod TxRows
mod TxWf
mod TxSteps
mod Replaced
mod Replacing
mod Renamed
pub mod Inserted
pub mod Signers
mod SignersKept
mod TxTests
mod SignerTests
mod Unspent
mod Current
pub mod SendReceive
mod Tests
use libnunchuk.Base.{
  ℕ, zero, suc, List, [], ◌∷◌, ◌++◌, Option, none, some, ◌==◌, Bool, true, false, not, ◌&&◌, ◌||◌,
  map, if◌then◌else◌,
}
use libnunchuk.Base.Int.{ℤ, pos, negsuc, eqb_ℤ, ltb_ℤ, ◌+ℤ◌}
use libnunchuk.Base.Lists.{any}
use libnunchuk.Base.Text.{Text, codes, text_eq}
use libnunchuk.Base.Decimal.{show}
use libnunchuk.Types.{
  Amount, TxInput, UnspentOutput, Result, ok, throw, ◌>>=◌, sql_error, std_exception,
}

-- The columns of ADDRESS; UTXO is JSON, or NULL.
pub record Address : Type 0 where
  pub addr : Text
  pub idx : ℤ
  pub internal : Bool
  pub used : Bool
  pub utxo : Option Text

-- An item of the JSON in UTXO, as the server lists it; `amounts` are its value and its height, where
-- both can be read.
pub record Item : Type 0 where
  pub tx_hash : Text
  pub tx_pos : ℕ
  pub amounts : Option (ℤ × ℤ)

-- What is read of a transaction.
pub record Tx : Type 0 where
  pub height : ℤ
  pub inputs : List TxInput

abbrev pub bool_eq : Bool → Bool → Bool
bool_eq true b = b
bool_eq false b = not b

abbrev pub has_addr : Text → Address → Bool
has_addr address r = text_eq r.addr address

abbrev pub new_address : Text → ℤ → Bool → Address
new_address address index internal = record {
  addr = address;
  idx = index;
  internal = internal;
  used = false;
  utxo = none;
}

-- INSERT: ADDR is the primary key, so that an address that is there is an error.
unfoldable pub add_address : Text → ℤ → Bool → List Address → Result (Bool × List Address)
add_address address index internal rows =
    if any (has_addr address) rows
    then throw sql_error
    else ok (true, rows ++ new_address address index internal ∷ [])

abbrev pub use_row : Text → Address → Address
use_row address r = if has_addr address r then record r { used = true } else r

-- The statement changes the one row of the address, if there is one.
unfoldable pub use_address : Text → List Address → Bool × List Address
use_address [] rows = (false, rows)
use_address (c ∷ s) rows = (any (has_addr (c ∷ s)) rows, map (use_row (c ∷ s)) rows)

unfoldable pub set_utxos : Text → Text → List Address → Bool × List Address
set_utxos address utxo rows = (
  any (has_addr address) rows,
  map (λ r. if has_addr address r then record r { utxo = some utxo } else r) rows,
)

unfoldable pub filter_addresses : (Address → Bool) → List Address → List Text
filter_addresses p [] = []
filter_addresses p (r ∷ rows) =
    let rest = filter_addresses p rows in if p r then r.addr ∷ rest else rest

-- MAX(IDX) of the rows so far, and -1 where there is none.
abbrev pub max_index : Option ℤ → ℤ → Option ℤ
max_index none i = some i
max_index (some m) i = some (if ltb_ℤ m i then i else m)

unfoldable pub max_of : Bool → Option ℤ → List Address → Option ℤ
max_of internal m [] = m
max_of internal m (r ∷ rows) =
    max_of internal (if bool_eq r.internal internal then max_index m r.idx else m) rows

abbrev pub or_minus_one : Option ℤ → ℤ
or_minus_one none = negsuc 0
or_minus_one (some m) = m

unfoldable pub get_current_address_index : Bool → List Address → ℤ
unfolding max_of
get_current_address_index internal rows = or_minus_one (max_of internal none rows)

-- "%s:%d"
unfoldable pub input_str : TxInput → Text
input_str (tx_id, vout) = tx_id ++ (b':' ∷ show (pos vout))

-- The set of the inputs of the transactions in the mempool.
unfoldable pub locked_utxos : List Tx → List Text
unfolding input_str
locked_utxos [] = []
locked_utxos (tx ∷ txs) =
    let rest = locked_utxos txs in
    if not (eqb_ℤ tx.height (pos 0)) then rest else map input_str tx.inputs ++ rest

abbrev pub unspent_of : Text → Item → ℤ → ℤ → UnspentOutput
unspent_of address item value height = record {
  txid = item.tx_hash;
  vout = item.tx_pos;
  address = address;
  amount = value;
  height = height;
}

-- An item that is not locked, and the items behind it.
abbrev pub add_item :
    Text → Item → Option (ℤ × ℤ) → Result (List UnspentOutput) → Result (List UnspentOutput)
add_item address item none rest = throw std_exception
add_item address item (some (value, height)) rest =
    rest >>= (λ us. ok (unspent_of address item value height ∷ us))

-- The items of one address that are not locked; of one that is, no more is read.
unfoldable pub unlocked : List Text → Text → List Item → Result (List UnspentOutput)
unfolding input_str
unlocked locked address [] = ok []
unlocked locked address (item ∷ items) =
    let rest = unlocked locked address items in
    if any (text_eq (input_str (item.tx_hash, item.tx_pos))) locked
    then rest
    else add_item address item item.amounts rest

abbrev pub join :
    Result (List UnspentOutput) → Result (List UnspentOutput) → Result (List UnspentOutput)
join (throw e) second = throw e
join (ok us) (throw e) = throw e
join (ok us) (ok vs) = ok (us ++ vs)

-- The rows come in the order that SQLite visits them; `parse` is json::parse with the reading of the
-- items, which throws where it answers `none`. `get_transactions` is what GetTransactions returns or throws.
module _ (parse : Text → Option (List Item)) (visit : List Address → List Address) where
  abbrev pub unspent_at : List Text → Text → Option (List Item) → Result (List UnspentOutput)
  unspent_at locked address none = throw std_exception
  unspent_at locked address (some items) = unlocked locked address items

  abbrev pub unspent_row : List Text → Address → Option Text → Result (List UnspentOutput)
  unspent_row locked r none = ok []
  unspent_row locked r (some utxo) = unspent_at locked r.addr (parse utxo)

  unfoldable pub unspent_rows : List Text → List Address → Result (List UnspentOutput)
  unfolding unlocked
  unspent_rows locked [] = ok []
  unspent_rows locked (r ∷ rows) = join (unspent_row locked r r.utxo) (unspent_rows locked rows)

  unfoldable pub get_unspent_outputs :
      Bool → Result (List Tx) → List Address → Result (List UnspentOutput)
  unfolding unspent_rows locked_utxos
  get_unspent_outputs remove_locked get_transactions rows = do
    transactions ← if remove_locked then get_transactions else ok []
    unspent_rows (locked_utxos transactions) (visit rows)

  unfoldable pub get_addresses : Bool → Bool → List Address → List Text
  unfolding filter_addresses
  get_addresses used internal rows =
      filter_addresses (λ r. bool_eq r.used used && bool_eq r.internal internal) (visit rows)

  unfoldable pub get_all_addresses : List Address → List Text
  unfolding filter_addresses
  get_all_addresses rows = filter_addresses (λ r. true) (visit rows)

  -- Confirmed outputs, and outputs of the mempool to an unused change address.
  unfoldable pub sum_balance : List Text → List UnspentOutput → Amount
  sum_balance change [] = pos 0
  sum_balance change (u ∷ us) =
      let rest = sum_balance change us in
      if ltb_ℤ (pos 0) u.height || any (text_eq u.address) change then u.amount +ℤ rest else rest

  unfoldable pub get_balance : Result (List Tx) → List Address → Result Amount
  unfolding get_unspent_outputs get_addresses sum_balance
  get_balance get_transactions rows = do
    utxos ← get_unspent_outputs true get_transactions rows
    ok (sum_balance (get_addresses false true rows) utxos)
