-- ===== src/Descriptor/Tests.antt =====
-- Descriptors of small wallets, read and written.
use libnunchuk.Base.{◌≡◌, refl, [], ◌∷◌, ◌++◌, some, Bool, true, false}
use libnunchuk.Base.Int.{pos}
use libnunchuk.Base.Text.{Text, codes, text_eq}
use libnunchuk.Base.Decimal.{show, show_ℕ, stoi, read_signed, skip_space}
use libnunchuk.Types.{native_segwit, multi_sig, escrow, SingleSigner, ok}
use libnunchuk.Descriptor.{Core, multi_key, get_descriptor_for_signers, multi_keys}
use libnunchuk.Descriptor.Key.{parse_signer_string-multi_key}
use libnunchuk.Descriptor.Signer.{
  signer_of, parse_signer_string, take_hex, split_last, all_dots, split_key,
}
use libnunchuk.Base.Search.{behind_prefix, up_to, behind}
use libnunchuk.Descriptor.Parse.{
  Parsed, match_prefix, split_commas, parse_signers, any_without_xpub, parse_descriptors,
  descriptor_of,
}
use libnunchuk.Descriptor.Accepted.{IsTextOf, parse_descriptors-IsTextOf}

abbrev toy : Core
toy = record { descriptor_checksum = λ s. codes "sum"; hex_public_key = λ xpub. codes "02" }

abbrev signer : Text → Text → SingleSigner
signer fingerprint xpub = record {
  name = fingerprint;
  xpub = xpub;
  public_key = [];
  derivation_path = codes "m/48'/0'/1'";
  master_fingerprint = fingerprint;
  master_signer_id = [];
  last_health_check = pos 0;
}

abbrev two_keys : Parsed
two_keys = record {
  address_type = native_segwit;
  wallet_type = multi_sig;
  m = pos 2;
  n = 2;
  signers =
      signer (codes "0a1b2c3d") (codes "xpub1") ∷ signer (codes "deadbeef") (codes "xpub2") ∷ [];
}

abbrev external : Text
external =
    codes "wsh(sortedmulti(2,[0a1b2c3d/48'/0'/1']xpub1/0/*,[deadbeef/48'/0'/1']xpub2/0/*))#sum"

abbrev internal : Text
internal =
    codes "wsh(sortedmulti(2,[0a1b2c3d/48'/0'/1']xpub1/1/*,[deadbeef/48'/0'/1']xpub2/1/*))#sum"

writes :
    (descriptor_of toy false two_keys ≡ ok external)
    × (descriptor_of toy true two_keys ≡ ok internal)
unfolding get_descriptor_for_signers multi_keys show show_ℕ
writes = (refl, refl)

reads : parse_descriptors toy (external ++ 10 ∷ internal) ≡ some two_keys
unfolding parse_descriptors parse_signer_string take_hex split_last all_dots split_key behind_prefix
    match_prefix up_to behind split_commas parse_signers any_without_xpub get_descriptor_for_signers
    multi_keys text_eq stoi read_signed skip_space show show_ℕ
reads = refl

parse_descriptors-IsTextOf_example :
    (e : Text) × (descriptor_of toy false two_keys ≡ ok e)
    × (two_keys.n ≡ 2)
    × IsTextOf toy (external ++ 10 ∷ internal) e multi_sig (descriptor_of toy true two_keys)
parse_descriptors-IsTextOf_example =
    parse_descriptors-IsTextOf toy (external ++ 10 ∷ internal) two_keys reads

abbrev some_key : Bool → SingleSigner
some_key ranged = signer_of (codes "0a1b2c3d") (codes "/48'/1'") (codes "key9", ranged)

parse_signer_string-multi_key_example :
    (parse_signer_string (multi_key toy multi_sig false (some_key true)) ≡ ok (some_key true))
    × (parse_signer_string (multi_key toy escrow false (some_key false)) ≡ ok (some_key false))
parse_signer_string-multi_key_example =
    parse_signer_string-multi_key toy (codes "0a1b2c3d") b'/' (codes "48'/1'") b'k' (codes "ey9")
      false (refl, (refl, (refl, (refl, (refl, (refl, (refl, (refl, tt)))))))) refl
      (
        (refl, refl),
        (
          (refl, refl),
          ((refl, refl), ((refl, refl), ((refl, refl), ((refl, refl), ((refl, refl), tt))))),
        ),
      )
      ((refl, refl, refl), ((refl, refl, refl), ((refl, refl, refl), ((refl, refl, refl), tt))))
