-- ===== src/Descriptor/Parse.antt =====
-- ParseDescriptors of src/descriptor.cpp. Where the code answers false, or catches an exception and
-- answers false, the model answers `none`. The signers are pushed to a list that is empty at first.
use libnunchuk.Base.{
  ℕ, List, [], ◌∷◌, Option, none, some, ◌==◌, Bool, true, false, ◌||◌, if◌then◌else◌,
}
use libnunchuk.Base.Int.{ℤ, pos}
use libnunchuk.Base.Lists.{length}
use libnunchuk.Base.Text.{Text, codes, text_eq}
use libnunchuk.Base.Search.{behind_prefix, up_to, behind, is_empty}
use libnunchuk.Base.Decimal.{stoi}
use libnunchuk.Types.{
  AddressType, legacy, nested_segwit, native_segwit, WalletType, single_sig, multi_sig, escrow,
  SingleSigner, Result, ok, throw,
}
use libnunchuk.Descriptor.{Core, get_descriptor_for_signers}
use libnunchuk.Descriptor.Signer.{parse_signer_string}

-- The values that the call gives its parameters.
pub record Parsed : Type 0 where
  pub address_type : AddressType
  pub wallet_type : WalletType
  pub m : ℤ
  pub n : ℕ
  pub signers : List SingleSigner

-- PREFIX_MATCHER, in the order of a std::map.
abbrev pub prefix_matcher : List (Text × AddressType × WalletType)
prefix_matcher =
    (codes "pkh(", legacy, single_sig)
    ∷ (codes "sh(sortedmulti(", legacy, multi_sig)
    ∷ (codes "sh(wpkh(", nested_segwit, single_sig)
    ∷ (codes "sh(wsh(sortedmulti(", nested_segwit, multi_sig)
    ∷ (codes "wpkh(", native_segwit, single_sig)
    ∷ (codes "wsh(sortedmulti(", native_segwit, multi_sig)
    ∷ []

unfoldable pub match_prefix :
    Text → List (Text × AddressType × WalletType) → Option (Text × AddressType × WalletType)
unfolding behind_prefix
match_prefix s [] = none
match_prefix s ((prefix, a, w) ∷ table) = elim (behind_prefix prefix s) [
  | none ↦ match_prefix s table
  | some rest ↦ some (rest, a, w)
]

abbrev pub add_char : ℕ → List Text → List Text
add_char c [] = (c ∷ []) ∷ []
add_char c (part ∷ parts) = (c ∷ part) ∷ parts

-- boost::split at the commas: a list of one part or more
unfoldable pub split_commas : Text → List Text
split_commas [] = [] ∷ []
split_commas (c ∷ s) = let rest = split_commas s in if c == b',' then [] ∷ rest else add_char c rest

abbrev pub add_signer :
    Result SingleSigner → Option (List SingleSigner) → Option (List SingleSigner)
add_signer (ok signer) (some signers) = some (signer ∷ signers)
add_signer _ _ = none

unfoldable pub parse_signers : List Text → Option (List SingleSigner)
unfolding parse_signer_string
parse_signers [] = some []
parse_signers (part ∷ parts) = add_signer (parse_signer_string part) (parse_signers parts)

unfoldable pub any_without_xpub : List SingleSigner → Bool
any_without_xpub [] = false
any_without_xpub (signer ∷ signers) = is_empty signer.xpub || any_without_xpub signers

abbrev pub several : AddressType → Option ℤ → Option (List SingleSigner) → Option Parsed
several a (some m) (some signers) = some (record {
  address_type = a;
  wallet_type = if any_without_xpub signers then escrow else multi_sig;
  m = m;
  n = length signers;
  signers = signers;
})
several a _ _ = none

abbrev pub parse_several : AddressType → List Text → Option Parsed
parse_several a [] = none
parse_several a (first ∷ parts) = several a (stoi first) (parse_signers parts)

abbrev pub parse_one : AddressType → Result SingleSigner → Option Parsed
parse_one a (ok signer) =
    some (record {
      address_type = a;
      wallet_type = single_sig;
      m = pos 1;
      n = 1;
      signers = signer ∷ [];
    })
parse_one a (throw e) = none

abbrev pub parse_keys : AddressType → WalletType → Text → Option Parsed
parse_keys a single_sig info = parse_one a (parse_signer_string info)
parse_keys a _ info = parse_several a (split_commas info)

abbrev pub same_text : Text → Result Text → Bool
same_text s (ok t) = text_eq s t
same_text s (throw e) = false

module _ (core : Core) where
  abbrev pub descriptor_of : Bool → Parsed → Result Text
  descriptor_of internal p =
      get_descriptor_for_signers core p.signers p.m internal p.address_type p.wallet_type

  -- The internal descriptor must be missing for an escrow wallet; elsewhere a missing one is "".
  abbrev pub internal_right : WalletType → Option Text → Result Text → Bool
  internal_right escrow none expected = true
  internal_right escrow (some internal) expected = false
  internal_right w none expected = same_text [] expected
  internal_right w (some internal) expected = same_text internal expected

  abbrev pub checked : Text → Option Text → Option Parsed → Option Parsed
  checked external internal none = none
  checked external internal (some p) =
      if same_text external (descriptor_of false p)
      then (if internal_right p.wallet_type internal (descriptor_of true p) then some p else none)
      else none

  abbrev pub parse_matched :
      Text → Option Text → Option (Text × AddressType × WalletType) → Option Parsed
  parse_matched external internal none = none
  parse_matched external internal (some (rest, a, w)) =
      checked external internal (parse_keys a w (up_to b')' rest))

  unfoldable pub parse_descriptors : Text → Option Parsed
  unfolding up_to behind match_prefix
  parse_descriptors descs =
      let external = up_to 10 descs in
      parse_matched external (behind 10 descs) (match_prefix external prefix_matcher)
