-- ===== src/Descriptor.antt =====
-- src/descriptor.cpp: the descriptors of a wallet, and the wallet of a descriptor.
pub mod Signer
pub mod Parse
mod Accepted
mod Key
mod Tests
use libnunchuk.Base.{ℕ, List, [], ◌∷◌, ◌++◌, ◌==◌, Bool, true, false, map, if◌then◌else◌}
use libnunchuk.Base.Int.{ℤ}
use libnunchuk.Base.Text.{Text, codes}
use libnunchuk.Base.Decimal.{show}
use libnunchuk.Utils.{quote_h}
use libnunchuk.Types.{
  AddressType, any, legacy, nested_segwit, native_segwit, WalletType, single_sig, multi_sig, escrow,
  SingleSigner, Result, ok, throw, std_exception,
}

-- What the descriptors take from Bitcoin Core: GetDescriptorChecksum, and the public key of an
-- extended key in hexadecimal.
pub record Core : Type 0 where
  pub descriptor_checksum : Text → Text
  pub hex_public_key : Text → Text

-- "Remove leading m"
abbrev pub without_m : Text → Text
without_m [] = []
without_m (c ∷ s) = if c == b'm' then s else c ∷ s

abbrev pub path_text : SingleSigner → Text
path_text signer = map quote_h (without_m signer.derivation_path)

-- "[fingerprint/path]"
abbrev pub origin : SingleSigner → Text
origin signer = codes "[" ++ (signer.master_fingerprint ++ (path_text signer ++ codes "]"))

-- "/0/*" or "/1/*"
abbrev pub branch : Bool → Text
branch true = codes "/1/*"
branch false = codes "/0/*"

abbrev pub ranged_key : Bool → SingleSigner → Text
ranged_key internal signer = origin signer ++ (signer.xpub ++ branch internal)

abbrev pub opening : AddressType → Text
opening nested_segwit = codes "sh("
opening _ = []

abbrev pub closing : AddressType → Text
closing nested_segwit = codes ")"
closing _ = []

abbrev pub single_name : AddressType → Text
single_name legacy = codes "pkh"
single_name _ = codes "wpkh"

abbrev pub multi_name : AddressType → Text
multi_name legacy = codes "sh"
multi_name _ = codes "wsh"

module _ (core : Core) where
  abbrev pub add_checksum : Text → Text
  add_checksum s = s ++ (codes "#" ++ core.descriptor_checksum s)

  abbrev pub public_key_text : SingleSigner → Text
  public_key_text signer = elim signer.public_key [
    | [] ↦ core.hex_public_key signer.xpub
    | c ∷ s ↦ c ∷ s
  ]

  -- The key of one signer of several.
  abbrev pub multi_key : WalletType → Bool → SingleSigner → Text
  multi_key multi_sig internal signer = ranged_key internal signer
  multi_key _ internal signer = origin signer ++ public_key_text signer

  unfoldable pub multi_keys : WalletType → Bool → List SingleSigner → Text
  multi_keys w internal [] = []
  multi_keys w internal (signer ∷ signers) =
      codes "," ++ (multi_key w internal signer ++ multi_keys w internal signers)

  abbrev pub multi_descriptor : List SingleSigner → ℤ → Bool → AddressType → WalletType → Text
  multi_descriptor signers m internal a w =
      opening a
      ++ (multi_name a
          ++ (codes "(sortedmulti("
              ++ (show m ++ (multi_keys w internal signers ++ (codes "))" ++ closing a)))))

  abbrev pub single_descriptor : SingleSigner → Bool → AddressType → Text
  single_descriptor signer internal a =
      opening a
      ++ (single_name a ++ (codes "(" ++ (ranged_key internal signer ++ (codes ")" ++ closing a))))

  -- The code takes `signers[0]` of a single-signature wallet; on no signers, which C++ leaves
  -- undefined, the model throws.
  abbrev pub first_descriptor : List SingleSigner → Bool → AddressType → Result Text
  first_descriptor [] internal a = throw std_exception
  first_descriptor (signer ∷ _) internal a = ok (add_checksum (single_descriptor signer internal a))

  unfoldable pub get_descriptor_for_signers :
      List SingleSigner → ℤ → Bool → AddressType → WalletType → Result Text
  unfolding multi_keys
  get_descriptor_for_signers signers m internal a single_sig = first_descriptor signers internal a
  get_descriptor_for_signers signers m internal a multi_sig =
      ok (add_checksum (multi_descriptor signers m internal a multi_sig))
  get_descriptor_for_signers signers m internal a escrow =
      ok (add_checksum (multi_descriptor signers m internal a escrow))

  unfoldable pub get_pkh_descriptor : Text → Text
  get_pkh_descriptor address = add_checksum (codes "pkh(" ++ (address ++ codes ")"))
