-- ===== src/WalletDb/Transactions.antt =====
-- The table VTX of NunchukWalletDb of src/storage.cpp. The decoding of transactions is a parameter; the
-- JSON of EXTRA is data, and its empty text is `none`. A call gives what it returns or throws, and the
-- tables as it leaves them.
use libnunchuk.Base.{
  ℕ, suc, ◌^◌, ◌%◌, ◌-◌, List, [], ◌∷◌, ◌++◌, Option, none, some, Bool, true, false, ◌&&◌, ltb,
  if◌then◌else◌,
}
use libnunchuk.Base.Int.{ℤ, pos, negsuc, sub_ℕ, eqb_ℤ, leb_ℤ}
use libnunchuk.Base.Lists.{any}
use libnunchuk.Base.Search.{is_empty}
use libnunchuk.Base.Text.{Text, text_eq, c_string}
use libnunchuk.Types.{Amount, TxOutput, Result, ok, throw, sql_error, std_exception, tx_not_found}
use libnunchuk.WalletDb.Transaction.{Transaction, Extra, set_signer}
use libnunchuk.WalletDb.{Address}

pub record TxRow : Type 0 where
  pub id : Text
  pub value : Text
  pub height : ℤ
  pub fee : Amount
  pub memo : Text
  pub change_pos : ℤ
  pub blocktime : ℤ
  pub extra : Option Extra

-- `m` of the immutable data, the fingerprints of the table SIGNER, and the tables ADDRESS and VTX.
pub record Tables : Type 0 where
  pub m : ℕ
  pub fingerprints : List Text
  pub addresses : List Address
  pub txs : List TxRow

abbrev pub Done {ℓ} : Type ℓ → Type ℓ
Done A = Result A × Tables

abbrev pub bind {ℓ κ} : {A : Type ℓ} {B : Type κ} → Result A → Tables → (A → Done B) → Done B
bind (ok a) t f = f a
bind (throw e) t f = (throw e, t)

abbrev pub has_id : Text → TxRow → Bool
has_id id row = text_eq row.id id

abbrev pub is_pending : TxRow → Bool
is_pending row = eqb_ℤ row.height (negsuc 0)

unfoldable pub find_tx : (TxRow → Bool) → List TxRow → Option TxRow
find_tx p [] = none
find_tx p (row ∷ rows) = let rest = find_tx p rows in if p row then some row else rest

-- ID is the primary key.
unfoldable pub insert_tx : TxRow → List TxRow → Result (List TxRow)
insert_tx row rows = if any (has_id row.id) rows then throw sql_error else ok (rows ++ row ∷ [])

unfoldable pub update_txs : (TxRow → Bool) → (TxRow → TxRow) → List TxRow → List TxRow
update_txs p f [] = []
update_txs p f (row ∷ rows) =
    let rest = update_txs p f rows in (if p row then f row else row) ∷ rest

unfoldable pub delete_txs : Text → List TxRow → List TxRow
delete_txs id [] = []
delete_txs id (row ∷ rows) =
    let rest = delete_txs id rows in if has_id id row then rest else row ∷ rest

-- The low 32 bits with their sign: sqlite3_column_int.
abbrev pub signed_32 : ℕ → ℤ
signed_32 n = if ltb n (2 ^ 31) then pos n else sub_ℕ n (2 ^ 32)

unfoldable pub column_int : ℤ → ℤ
column_int (pos n) = signed_32 (n % 2 ^ 32)
column_int (negsuc n) = signed_32 (2 ^ 32 - (suc (n % 2 ^ 32)))

abbrev pub reset_signers : List Text → List (Text × Bool) → List (Text × Bool)
reset_signers [] signers = signers
reset_signers (f ∷ fingerprints) signers = reset_signers fingerprints (set_signer f false signers)

abbrev pub sent_signers : Bool → List Text → List (Text × Bool) → List (Text × Bool)
sent_signers false fingerprints signers = signers
sent_signers true fingerprints signers = reset_signers fingerprints signers

-- The columns of a row put into the transaction that its value decodes to; MEMO is read as a C string,
-- while VALUE, in hexadecimal digits or base 64, has no zero byte.
abbrev pub with_row : Tables → TxRow → Transaction → Transaction
with_row t row tx = record tx {
  txid = row.id;
  m = some t.m;
  fee = some (column_int row.fee);
  memo = c_string row.memo;
  change_index = some row.change_pos;
  blocktime = some row.blocktime;
  is_receive = some false;
  sub_amount = some (pos 0);
  signers = sent_signers (leb_ℤ (pos 0) row.height) t.fingerprints tx.signers;
}

abbrev pub create_extra : List TxOutput → Amount → Bool → Text → Extra
create_extra outputs fee_rate subtract_fee_from_amount replace_tx = record {
  signers = none;
  outputs = some outputs;
  fee_rate = some fee_rate;
  subtract = some subtract_fee_from_amount;
  reject_msg = none;
  replace_txid = if is_empty replace_tx then none else some replace_tx;
  replaced_by_txid = none;
}

abbrev pub memo_row : Text → TxRow → TxRow
memo_row memo row = record row { memo = memo }

unfoldable pub update_transaction_memo : Text → Text → Tables → Bool × Tables
unfolding update_txs
update_transaction_memo tx_id memo t =
    (any (has_id tx_id) t.txs, record t { txs = update_txs (has_id tx_id) (memo_row memo) t.txs })

unfoldable pub delete_transaction : Text → Tables → Bool × Tables
unfolding delete_txs
delete_transaction tx_id t = (any (has_id tx_id) t.txs, record t { txs = delete_txs tx_id t.txs })

abbrev pub pending_with : Text → TxRow → Bool
pending_with id row = has_id id row && is_pending row

abbrev pub value_or_empty : Option TxRow → Text
value_or_empty none = []
value_or_empty (some row) = row.value

unfoldable pub get_psbt : Text → Tables → Text
unfolding find_tx
get_psbt tx_id t = value_or_empty (find_tx (pending_with tx_id) t.txs)

-- Into the row of the replaced transaction; json::parse of an empty text throws.
abbrev pub replaced_row : Text → Extra → TxRow → TxRow
replaced_row new_txid extra row = record row {
  extra = some (record extra { replaced_by_txid = some new_txid });
}

abbrev pub replace_extra : Text → Text → Tables → Option Extra → Done Bool
replace_extra old_txid new_txid t none = (throw std_exception, t)
replace_extra old_txid new_txid t (some extra) =
    (ok true, record t { txs = update_txs (has_id old_txid) (replaced_row new_txid extra) t.txs })

abbrev pub replace_found : Text → Text → Tables → Option TxRow → Done Bool
replace_found old_txid new_txid t none = (ok false, t)
replace_found old_txid new_txid t (some row) = replace_extra old_txid new_txid t row.extra

-- Whether there was a row to change; the source returns nothing.
unfoldable pub set_replaced_by : Text → Text → Tables → Done Bool
unfolding find_tx update_txs
set_replaced_by old_txid new_txid t =
    replace_found old_txid new_txid t (find_tx (has_id old_txid) t.txs)

-- The row under another identifier, with its fee read by column_int and its memo as a C string.
abbrev pub renamed_row : Text → TxRow → TxRow
renamed_row new_id row = record row {
  id = new_id;
  height = negsuc 0;
  fee = column_int row.fee;
  memo = c_string row.memo;
  blocktime = pos 0;
}

abbrev pub delete_after : Text → Tables → List TxRow → Done Bool
delete_after old_id t rows =
    let (deleted, left) = delete_transaction old_id (record t { txs = rows }) in (ok deleted, left)

abbrev pub rename_found : Text → Text → Tables → Option TxRow → Done Bool
rename_found old_id new_id t none = (throw tx_not_found, t)
rename_found old_id new_id t (some row) =
    bind (insert_tx (renamed_row new_id row) t.txs) t (delete_after old_id t)

unfoldable pub update_psbt_tx_id : Text → Text → Tables → Done Bool
unfolding find_tx insert_tx delete_transaction
update_psbt_tx_id old_id new_id t =
    rename_found old_id new_id t (find_tx (pending_with old_id) t.txs)
