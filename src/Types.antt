-- ===== src/Types.antt =====
-- The value types of include/nunchuk.h, and the classes of src/dto that the other modules use.
-- Texts are byte strings. An `Amount` (`int64_t`) and an `int` are integers; an output index is a
-- number: one of 2^31 or more, which src/utils/txutils.hpp narrows from uint32_t to int, is left out.
use libnunchuk.Base.{ℕ, ◌⊎◌, inl, inr, Bool, List, Option, none, some, ◌≡◌, refl, ap}
use libnunchuk.Base.Int.{ℤ, negsuc}
use libnunchuk.Base.Text.{Text}

abbrev pub Amount : Type 0
Amount = ℤ

-- txid and vout
abbrev pub TxInput : Type 0
TxInput = Text × ℕ

-- address and amount
abbrev pub TxOutput : Type 0
TxOutput = Text × Amount

pub record UnspentOutput : Type 0 where
  pub txid : Text
  pub vout : ℕ
  pub address : Text
  pub amount : Amount
  pub height : ℤ

pub data AddressType : Type 0 where
  any legacy nested_segwit native_segwit : AddressType

pub data Chain : Type 0 where
  main testnet regtest : Chain

pub data WalletType : Type 0 where
  single_sig multi_sig escrow : WalletType

pub data TransactionStatus : Type 0 where
  pending_signatures ready_to_broadcast network_rejected pending_confirmation replaced confirmed :
      TransactionStatus

-- The exceptions of Nunchuk and of its storage, by the names of their codes, and `std_exception`
-- for those of the C++ library.
pub data Exception : Type 0 where
  invalid_address : Exception
  invalid_amount : Exception
  invalid_psbt : Exception
  invalid_raw_tx : Exception
  invalid_fee_rate : Exception
  invalid_address_type : Exception
  invalid_wallet_type : Exception
  amount_out_of_range : Exception
  run_out_of_cached_xpub : Exception
  message_too_short : Exception
  coin_selection_error : Exception
  psbt_incomplete : Exception
  server_request_error : Exception
  invalid_passphrase : Exception
  passphrase_already_used : Exception
  invalid_chain : Exception
  invalid_parameter : Exception
  create_dummy_signature_error : Exception
  wallet_not_found : Exception
  mastersigner_not_found : Exception
  tx_not_found : Exception
  signer_used : Exception
  invalid_datadir : Exception
  sql_error : Exception
  wallet_existed : Exception
  std_exception : Exception

-- `code()`; the C++ library's exceptions have none.
pub code_of : Exception → Option ℤ
code_of invalid_address = some (negsuc 1000)
code_of invalid_amount = some (negsuc 1001)
code_of invalid_psbt = some (negsuc 1002)
code_of invalid_raw_tx = some (negsuc 1003)
code_of invalid_fee_rate = some (negsuc 1004)
code_of invalid_address_type = some (negsuc 1005)
code_of invalid_wallet_type = some (negsuc 1006)
code_of amount_out_of_range = some (negsuc 1007)
code_of run_out_of_cached_xpub = some (negsuc 1008)
code_of message_too_short = some (negsuc 1009)
code_of coin_selection_error = some (negsuc 1010)
code_of psbt_incomplete = some (negsuc 1011)
code_of server_request_error = some (negsuc 1012)
code_of invalid_passphrase = some (negsuc 1013)
code_of passphrase_already_used = some (negsuc 1014)
code_of invalid_chain = some (negsuc 1015)
code_of invalid_parameter = some (negsuc 1016)
code_of create_dummy_signature_error = some (negsuc 1017)
code_of wallet_not_found = some (negsuc 2000)
code_of mastersigner_not_found = some (negsuc 2001)
code_of tx_not_found = some (negsuc 2002)
code_of signer_used = some (negsuc 2004)
code_of invalid_datadir = some (negsuc 2005)
code_of sql_error = some (negsuc 2006)
code_of wallet_existed = some (negsuc 2007)
code_of std_exception = none

-- A value, or an exception that was thrown.
pub data Result {ℓ} (A : Type ℓ) : Type ℓ where
  ok : A → Result A
  throw : Exception → Result A

infixl 5 ◌>>=◌
abbrev pub ◌>>=◌ {ℓ κ} : {A : Type ℓ} {B : Type κ} → Result A → (A → Result B) → Result B
ok a >>= f = f a
throw e >>= f = throw e

pub record SingleSigner : Type 0 where
  pub name : Text
  pub xpub : Text
  pub public_key : Text
  pub derivation_path : Text
  pub master_fingerprint : Text
  pub master_signer_id : Text
  pub last_health_check : ℤ

pub record AppSettings : Type 0 where
  pub chain : Chain
  pub mainnet_servers : List Text
  pub testnet_servers : List Text
  pub hwi_path : Text
  pub storage_path : Text
  pub use_proxy : Bool
  pub proxy_host : Text
  pub proxy_port : ℤ
  pub proxy_username : Text
  pub proxy_password : Text
  pub certificate_file : Text

-- What an ok result of a chain tells of its first part.
pub ok->>= {ℓ κ} :
    {A : Type ℓ} {B : Type κ} (m : Result A) (f : A → Result B) (b : B)
    → (m >>= f) ≡ ok b
    → (a : A) × (m ≡ ok a) × (f a ≡ ok b)
ok->>= (ok a) f b e = (a, refl, e)
ok->>= (throw x) f b e = cc

pub Result-cases {ℓ} :
    {A : Type ℓ} (r : Result A) → ((a : A) × (r ≡ ok a)) ⊎ ((e : Exception) × (r ≡ throw e))
Result-cases (ok a) = inl (a, refl)
Result-cases (throw e) = inr (e, refl)

pub throw->>= {ℓ κ} :
    {A : Type ℓ} {B : Type κ} (m : Result A) (f : A → Result B) (e : Exception)
    → m ≡ throw e
    → (m >>= f) ≡ throw e
throw->>= m f e h = ap (λ x. x >>= f) h
