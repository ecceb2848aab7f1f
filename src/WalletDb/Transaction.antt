-- ===== src/WalletDb/Transaction.antt =====
-- A transaction as src/utils/txutils.hpp makes it and as FillExtra of src/storage.cpp completes it.
-- What Bitcoin Core decodes is data. A member that the constructor leaves without a value is `none`.
use libnunchuk.Base.{
  ℕ, List, [], ◌∷◌, ◌++◌, Option, none, some, ◌==◌, Bool, true, false, if◌then◌else◌,
}
use libnunchuk.Base.Int.{ℤ, pos, negsuc, eqb_ℤ, ltb_ℤ, leb_ℤ}
use libnunchuk.Base.Lists.{length, any}
use libnunchuk.Base.Text.{Text, text_eq}
use libnunchuk.Types.{
  Amount, TxInput, TxOutput, TransactionStatus, pending_signatures, ready_to_broadcast,
  network_rejected, pending_confirmation, replaced, confirmed, Result, ok, throw, ◌>>=◌,
  std_exception,
}

pub record Transaction : Type 0 where
  pub txid : Text
  pub height : ℤ
  pub inputs : List TxInput
  pub outputs : List TxOutput
  pub user_outputs : List TxOutput
  pub receive_outputs : List TxOutput
  pub change_index : Option ℤ
  pub m : Option ℕ
  pub signers : List (Text × Bool)
  pub memo : Text
  pub status : Option TransactionStatus
  pub replaced_by_txid : Text
  pub fee : Option Amount
  pub fee_rate : Option Amount
  pub blocktime : Option ℤ
  pub subtract_fee_from_amount : Option Bool
  pub is_receive : Option Bool
  pub sub_amount : Option Amount

-- CMutableTransaction, with the addresses of its outputs.
pub record RawTransaction : Type 0 where
  pub hash : Text
  pub vin : List TxInput
  pub vout : List TxOutput

-- PartiallySignedTransaction: of its first input the keys that have signed, and those with a
-- derivation path, with their fingerprints.
pub record Psbt : Type 0 where
  pub tx : RawTransaction
  pub partial_sigs : List Text
  pub hd_keypaths : List (Text × Text)

-- std::map: a key that is there keeps its place.
unfoldable pub set_signer : Text → Bool → List (Text × Bool) → List (Text × Bool)
set_signer id signed [] = (id, signed) ∷ []
set_signer id signed ((i, b) ∷ signers) =
    let rest = set_signer id signed signers in
    if text_eq i id then (i, signed) ∷ signers else (i, b) ∷ rest

abbrev pub status_at : ℤ → Option TransactionStatus
status_at height =
    if eqb_ℤ height (pos 0)
    then some pending_confirmation
    else if eqb_ℤ height (negsuc 1)
    then some network_rejected
    else if ltb_ℤ (pos 0) height
    then some confirmed
    else none

unfoldable pub from_raw : RawTransaction → ℤ → Transaction
from_raw mtx height = record {
  txid = mtx.hash;
  height = height;
  inputs = mtx.vin;
  outputs = mtx.vout;
  user_outputs = [];
  receive_outputs = [];
  change_index = none;
  m = none;
  signers = [];
  memo = [];
  status = status_at height;
  replaced_by_txid = [];
  fee = none;
  fee_rate = none;
  blocktime = none;
  subtract_fee_from_amount = none;
  is_receive = none;
  sub_amount = none;
}

unfoldable pub signers_of : List Text → List (Text × Text) → List (Text × Bool) → List (Text × Bool)
unfolding set_signer
signers_of signed [] signers = signers
signers_of signed ((key, fingerprint) ∷ paths) signers =
    signers_of signed paths (set_signer fingerprint (any (text_eq key) signed) signers)

abbrev pub psbt_status : ℕ → ℕ → TransactionStatus
psbt_status signed m = if signed == m then ready_to_broadcast else pending_signatures

unfoldable pub from_psbt : Psbt → ℕ → Transaction
unfolding from_raw signers_of
from_psbt psbt m = record (from_raw psbt.tx (negsuc 0)) {
  m = some m;
  signers = signers_of psbt.partial_sigs psbt.hd_keypaths [];
  status = some (psbt_status (length psbt.partial_sigs) m);
}

-- The JSON of the column EXTRA.
pub record Extra : Type 0 where
  pub signers : Option (List (Text × Bool))
  pub outputs : Option (List TxOutput)
  pub fee_rate : Option Amount
  pub subtract : Option Bool
  pub reject_msg : Option Text
  pub replace_txid : Option Text
  pub replaced_by_txid : Option Text

unfoldable pub lookup {ℓ} : {A : Type ℓ} → Text → List (Text × A) → Option A
lookup key [] = none
lookup key ((k, a) ∷ items) = let rest = lookup key items in if text_eq k key then some a else rest

-- A signer that the JSON does not name is null there, which is no Boolean.
abbrev pub with_value :
    Text → Option Bool → Result (List (Text × Bool)) → Result (List (Text × Bool))
with_value id none rest = throw std_exception
with_value id (some b) (throw e) = throw e
with_value id (some b) (ok rest) = ok ((id, b) ∷ rest)

unfoldable pub known_signers : List (Text × Bool) → List (Text × Bool) → Result (List (Text × Bool))
unfolding lookup
known_signers known [] = ok []
known_signers known ((id, b) ∷ signers) =
    with_value id (lookup id known) (known_signers known signers)

abbrev pub fill_signers :
    Option (List (Text × Bool)) → Bool → List (Text × Bool) → Result (List (Text × Bool))
fill_signers none sent signers = ok signers
fill_signers (some known) false signers = ok signers
fill_signers (some known) true signers = known_signers known signers

abbrev pub add_user_output : Text → Option Amount → List TxOutput → List TxOutput
add_user_output address none outputs = outputs
add_user_output address (some amount) outputs = (address, amount) ∷ outputs

unfoldable pub user_outputs_of : List TxOutput → List TxOutput → List TxOutput
unfolding lookup
user_outputs_of wanted [] = []
user_outputs_of wanted ((address, amount) ∷ outputs) =
    add_user_output address (lookup address wanted) (user_outputs_of wanted outputs)

abbrev pub fill_outputs : Option (List TxOutput) → Transaction → Transaction
fill_outputs none tx = tx
fill_outputs (some wanted) tx = record tx {
  user_outputs = tx.user_outputs ++ user_outputs_of wanted tx.outputs;
}

abbrev pub fill_fee_rate : Option Amount → Transaction → Transaction
fill_fee_rate none tx = tx
fill_fee_rate (some rate) tx = record tx { fee_rate = some rate }

abbrev pub fill_subtract : Option Bool → Transaction → Transaction
fill_subtract none tx = tx
fill_subtract (some b) tx = record tx { subtract_fee_from_amount = some b }

abbrev pub fill_replaced : Option TransactionStatus → Option Text → Transaction → Transaction
fill_replaced (some pending_confirmation) (some id) tx = record tx {
  status = some replaced;
  replaced_by_txid = id;
}
fill_replaced _ _ tx = tx

abbrev pub fill_known : Extra → Transaction → List (Text × Bool) → Transaction
fill_known extra tx signers =
    fill_subtract extra.subtract
      (fill_fee_rate extra.fee_rate (fill_outputs extra.outputs (record tx { signers = signers })))

abbrev pub fill_rest : Extra → Transaction → List (Text × Bool) → Transaction
fill_rest extra tx signers =
    fill_replaced tx.status extra.replaced_by_txid (fill_known extra tx signers)

-- The empty text is `none`.
unfoldable pub fill_extra : Option Extra → Transaction → Result Transaction
unfolding known_signers user_outputs_of
fill_extra none tx = ok tx
fill_extra (some extra) tx =
    fill_signers extra.signers (leb_ℤ (pos 0) tx.height) tx.signers
    >>= (λ signers. ok (fill_rest extra tx signers))
