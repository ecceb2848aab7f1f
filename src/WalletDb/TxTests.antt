-- ===== src/WalletDb/TxTests.antt =====
-- Examples of the table VTX of src/storage.cpp.
use libnunchuk.Base.{
  ◌≡◌, arith, ◌≢◌, refl, sym, [], ◌∷◌, Option, none, some, ◌==◌, true, false, true≢false,
  if◌then◌else◌,
}
use libnunchuk.Base.Int.{pos, negsuc}
use libnunchuk.Base.Text.{Text, codes, text_eq, text_eq_iff, c_string}
use libnunchuk.Types.{pending_confirmation, Result, ok, throw, invalid_raw_tx, std_exception}
use libnunchuk.WalletDb.Transaction.{
  Transaction, RawTransaction, Psbt, Extra, from_raw, fill_extra, set_signer, known_signers,
  user_outputs_of, lookup,
}
use libnunchuk.WalletDb.Transactions.{
  update_psbt_tx_id, get_psbt, TxRow, Tables, find_tx, create_extra, column_int,
}
use libnunchuk.WalletDb.Broadcast.{new_row, insert_transaction, get_transaction, update_transaction}
use libnunchuk.WalletDb.Inserted.{IsStored, insert_transaction-get_transaction}
use libnunchuk.WalletDb.Renamed.{update_psbt_tx_id-get_psbt}
use libnunchuk.WalletDb.TxWf.{IsWf}
use libnunchuk.WalletDb.TxSteps.{none_yet, updates, Calls-IsWf}
use libnunchuk.WalletDb.Replaced.{replaced_by}
use libnunchuk.WalletDb.Replacing.{update_transaction-get_transaction, update_transaction-throws}

abbrev old_raw : RawTransaction
old_raw = record {
  hash = codes "old";
  vin = (codes "aa", 0) ∷ [];
  vout = (codes "bc1a", pos 900) ∷ [];
}

abbrev new_raw : RawTransaction
new_raw = record {
  hash = codes "new";
  vin = (codes "aa", 0) ∷ [];
  vout = (codes "bc1a", pos 800) ∷ [];
}

-- The texts "o" and "n" are the two transactions, and "p" the one that is being signed.
abbrev example_raw : Text → Result RawTransaction
example_raw [] = throw invalid_raw_tx
example_raw (c ∷ s) =
    if c == b'o' then ok old_raw else if c == b'n' then ok new_raw else throw invalid_raw_tx

abbrev example_psbt : Text → Result Psbt
example_psbt s = ok (record {
  tx = new_raw;
  partial_sigs = codes "k1" ∷ [];
  hd_keypaths = (codes "k1", codes "f1") ∷ (codes "k2", codes "f2") ∷ [];
})

abbrev old_extra : Extra
old_extra = create_extra ((codes "bc1a", pos 900) ∷ []) (pos 1000) false []

abbrev new_extra : Extra
new_extra = create_extra ((codes "bc1a", pos 800) ∷ []) (pos 2000) true (codes "old")

abbrev old_row : Option Extra → TxRow
old_row = new_row (codes "old") (codes "o") (pos 0) (pos 100) [] (pos 1) (pos 0)

abbrev pending_row : TxRow
pending_row =
    new_row (codes "new") (codes "p") (negsuc 0) (pos 200) [] (pos 1) (pos 0) (some new_extra)

abbrev example_tables : Option Extra → Tables
example_tables extra = record {
  m = 1;
  fingerprints = codes "f1" ∷ codes "f2" ∷ [];
  addresses = [];
  txs = old_row extra ∷ pending_row ∷ [];
}

abbrev old_transaction : Transaction
old_transaction = record {
  txid = codes "old";
  height = pos 0;
  inputs = (codes "aa", 0) ∷ [];
  outputs = (codes "bc1a", pos 900) ∷ [];
  user_outputs = (codes "bc1a", pos 900) ∷ [];
  receive_outputs = [];
  change_index = some (pos 1);
  m = some 1;
  signers = (codes "f1", false) ∷ (codes "f2", false) ∷ [];
  memo = [];
  status = some pending_confirmation;
  replaced_by_txid = [];
  fee = some (pos 100);
  fee_rate = some (pos 1000);
  blocktime = some (pos 0);
  subtract_fee_from_amount = some false;
  is_receive = some false;
  sub_amount = some (pos 0);
}

reads_old :
    get_transaction example_raw example_psbt (codes "old") (example_tables (some old_extra))
    ≡ ok old_transaction
unfolding get_transaction find_tx text_eq from_raw fill_extra set_signer known_signers
    user_outputs_of lookup column_int c_string
reads_old = refl

other_id : codes "new" ≢ codes "old"
unfolding text_eq
other_id e = absurd (true≢false (sym ((text_eq_iff (codes "new") (codes "old")).1 e)))

update_transaction-get_transaction_example :
    ((update_transaction example_raw example_psbt
        (codes "n")
        (negsuc 1)
        (pos 0)
        (codes "fee")
        (example_tables (some old_extra))).0
      ≡ ok true)
    × (get_transaction example_raw example_psbt
          (codes "old")
          (update_transaction example_raw example_psbt
            (codes "n")
            (negsuc 1)
            (pos 0)
            (codes "fee")
            (example_tables (some old_extra))).1
        ≡ ok (replaced_by (codes "new") old_transaction))
unfolding find_tx text_eq
update_transaction-get_transaction_example =
    update_transaction-get_transaction example_raw example_psbt (example_tables (some old_extra))
      (codes "n") (codes "fee") (codes "old") (negsuc 1) (pos 0) new_raw _ pending_row
      (old_row (some old_extra)) new_extra old_extra old_transaction refl refl refl refl refl refl
      refl refl refl refl other_id reads_old

update_transaction-throws_example :
    update_transaction example_raw example_psbt (codes "n") (pos 0) (pos 0) [] (example_tables none)
    ≡ (throw std_exception, example_tables none)
unfolding find_tx text_eq
update_transaction-throws_example =
    update_transaction-throws example_raw example_psbt (example_tables none) (codes "n") []
      (codes "old") (pos 0) (pos 0) new_raw _ pending_row (old_row none) new_extra refl refl refl
      refl refl refl refl refl refl

example_IsWf : IsWf (example_tables none)
unfolding text_eq
example_IsWf = record {
  distinct = ((refl, tt), (tt, tt));
  extras = (λ p. absurd (true≢false (sym p)), ((λ p. (new_extra, refl)), tt));
}

abbrev after_calls : Tables
after_calls =
    (update_transaction example_raw example_psbt (codes "n") (pos 7) (pos 5) []
      (example_tables none)).1

Calls-IsWf_example : IsWf after_calls
Calls-IsWf_example =
    Calls-IsWf example_raw example_psbt (example_tables none) after_calls
      (updates (codes "n") [] (pos 7) (pos 5) none_yet) example_IsWf

abbrev no_tables : Tables
no_tables = record (example_tables none) { txs = [] }

insert_transaction-get_transaction_example :
    let after =
      insert_transaction example_raw example_psbt
        (codes "o")
        (pos 7)
        (pos 5)
        (pos 100)
        (codes "memo")
        (pos 1)
        no_tables in
    (tr : Transaction) × (after.0 ≡ ok tr)
    × (get_transaction example_raw example_psbt (codes "old") after.1 ≡ ok tr)
    × IsStored no_tables old_raw (codes "memo") (pos 7) (pos 5) (pos 100) (pos 1) tr
unfolding find_tx
insert_transaction-get_transaction_example =
    insert_transaction-get_transaction example_raw example_psbt no_tables (codes "o") (codes "memo")
      (pos 7) (pos 5) 100 (pos 1) old_raw refl refl refl (omega arith)
      (refl, (refl, (refl, (refl, tt))))

update_psbt_tx_id-get_psbt_example :
    ((update_psbt_tx_id (codes "new") (codes "id") (example_tables none)).0 ≡ ok true)
    × (get_psbt (codes "id") (update_psbt_tx_id (codes "new") (codes "id") (example_tables none)).1
        ≡ get_psbt (codes "new") (example_tables none))
    × (get_psbt (codes "new") (update_psbt_tx_id (codes "new") (codes "id") (example_tables none)).1
        ≡ [])
unfolding find_tx text_eq
update_psbt_tx_id-get_psbt_example =
    update_psbt_tx_id-get_psbt (codes "new") (codes "id") (example_tables none) pending_row refl
      refl
