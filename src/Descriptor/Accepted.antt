-- ===== src/Descriptor/Accepted.antt =====
-- The texts that ParseDescriptors of src/descriptor.cpp accepts.
use libnunchuk.Base.{
  ◌≡◌, ◌≢◌, true≢false, refl, sym, ap, subst, ◌∙◌, List, [], ◌∷◌, ◌++◌, Option, none, some, Bool,
  true, false, arith, Bool-cases, Option-cases, ◌⊎◌, inl, inr,
}
use libnunchuk.Base.Int.{ℤ}
use libnunchuk.Base.Lists.{length}
use libnunchuk.Base.Text.{Text, text_eq, text_eq_iff}
use libnunchuk.Base.Search.{up_to, behind, is_empty, up_to-behind, up_to-missing}
use libnunchuk.Base.Decimal.{stoi}
use libnunchuk.Types.{
  AddressType, any, legacy, nested_segwit, native_segwit, WalletType, single_sig, multi_sig, escrow,
  SingleSigner, Result, ok, throw,
}
use libnunchuk.Descriptor.{
  Core, add_checksum, single_descriptor, multi_descriptor, first_descriptor,
  get_descriptor_for_signers,
}
use libnunchuk.Descriptor.Signer.{parse_signer_string}
use libnunchuk.Descriptor.Parse.{
  Parsed, prefix_matcher, match_prefix, split_commas, parse_signers, several, parse_several,
  parse_one, parse_keys, same_text, descriptor_of, internal_right, checked, parse_matched,
  parse_descriptors,
}

same_text-ok : (s : Text) (r : Result Text) → same_text s r ≡ true → r ≡ ok s
unfolding text_eq
same_text-ok s (ok t) e = ap ok (sym ((text_eq_iff s t).0 e))
same_text-ok s (throw x) e = cc

-- As many signers as `n` says.
abbrev IsCounted : Parsed → Type 0
IsCounted p = p.n ≡ length p.signers

ok_inj : {s t : Text} → ok s ≡ ok t → s ≡ t
ok_inj e = cc

some_subst : (P : Parsed → Type 0) (p q : Parsed) → some q ≡ some p → P q → P p
some_subst P p q e h = let same : q ≡ p = cc in subst P same h

parse_one-IsCounted :
    (a : AddressType) (r : Result SingleSigner) (p : Parsed) → parse_one a r ≡ some p → IsCounted p
parse_one-IsCounted a (ok signer) p e = some_subst IsCounted p _ e refl
parse_one-IsCounted a (throw x) p e = cc

parse_several-IsCounted :
    (a : AddressType) (parts : List Text) (p : Parsed)
    → parse_several a parts ≡ some p
    → IsCounted p
parse_several-IsCounted a [] p e = cc
parse_several-IsCounted a (first ∷ parts) p e = go (stoi first) (parse_signers parts) e
  where
    go :
        (m : Option ℤ) (signers : Option (List SingleSigner))
        → several a m signers ≡ some p
        → IsCounted p
    go none none e = cc
    go none (some s) e = cc
    go (some m) none e = cc
    go (some m) (some s) e = some_subst IsCounted p _ e refl

parse_keys-IsCounted :
    (a : AddressType) (w : WalletType) (info : Text) (p : Parsed)
    → parse_keys a w info ≡ some p
    → IsCounted p
parse_keys-IsCounted a single_sig info p e = parse_one-IsCounted a (parse_signer_string info) p e
parse_keys-IsCounted a multi_sig info p e = parse_several-IsCounted a (split_commas info) p e
parse_keys-IsCounted a escrow info p e = parse_several-IsCounted a (split_commas info) p e

module _ (core : Core) where
  -- What the last tests of ParseDescriptors ask for.
  abbrev Passes : Text → Option Text → Parsed → Type 0
  Passes external internal p =
      (descriptor_of core false p ≡ ok external)
      × (internal_right core p.wallet_type internal (descriptor_of core true p) ≡ true)

  checked-Passes :
      (external : Text) (internal : Option Text) (o : Option Parsed) (p : Parsed)
      → checked core external internal o ≡ some p
      → (o ≡ some p) × Passes external internal p
  checked-Passes external internal none p e = cc
  checked-Passes external internal (some q) p e =
      elim (Bool-cases (same_text external (descriptor_of core false q))) [
        | inl right ↦
            elim (Bool-cases
              (internal_right core q.wallet_type internal (descriptor_of core true q))) [
                | inl both ↦
                    let same : some q ≡ some p = ground arith in
                    (
                      same,
                      some_subst (Passes external internal) p q same
                          (same_text-ok external _ right, both),
                    )
                | inr wrong ↦ ground arith
              ]
        | inr wrong ↦ ground arith
      ]

  parse_matched-Passes :
      (external : Text) (internal : Option Text) (o : Option (Text × AddressType × WalletType))
      (p : Parsed)
      → parse_matched core external internal o ≡ some p
      → IsCounted p × Passes external internal p
  parse_matched-Passes external internal none p e = cc
  parse_matched-Passes external internal (some (rest, a, w)) p e =
      let (keys, passes) = checked-Passes external internal _ p e in
      (parse_keys-IsCounted a w _ p keys, passes)

  -- No descriptor is the empty text.
  single_is_text :
      (signer : SingleSigner) (i : Bool) (a : AddressType)
      → is_empty (add_checksum core (single_descriptor core signer i a)) ≡ false
  single_is_text signer i any = refl
  single_is_text signer i legacy = refl
  single_is_text signer i nested_segwit = refl
  single_is_text signer i native_segwit = refl

  multi_is_text :
      (signers : List SingleSigner) (m : ℤ) (i : Bool) (a : AddressType) (w : WalletType)
      → is_empty (add_checksum core (multi_descriptor core signers m i a w)) ≡ false
  multi_is_text signers m i any w = refl
  multi_is_text signers m i legacy w = refl
  multi_is_text signers m i nested_segwit w = refl
  multi_is_text signers m i native_segwit w = refl

  first_is_text :
      (signers : List SingleSigner) (i : Bool) (a : AddressType)
      → first_descriptor core signers i a ≢ ok []
  first_is_text [] i a e = cc
  first_is_text (signer ∷ rest) i a e =
      let empty : add_checksum core (single_descriptor core signer i a) ≡ [] = ok_inj e in
      true≢false (ap is_empty (sym empty) ∙ single_is_text signer i a)

  descriptor_is_text :
      (signers : List SingleSigner) (m : ℤ) (i : Bool) (a : AddressType) (w : WalletType)
      → get_descriptor_for_signers core signers m i a w ≢ ok []
  unfolding get_descriptor_for_signers
  descriptor_is_text signers m i a single_sig e = first_is_text signers i a e
  descriptor_is_text signers m i a multi_sig e =
      true≢false (ap is_empty (sym (ok_inj e)) ∙ multi_is_text signers m i a multi_sig)
  descriptor_is_text signers m i a escrow e =
      true≢false (ap is_empty (sym (ok_inj e)) ∙ multi_is_text signers m i a escrow)

  -- The text of a wallet: one descriptor for an escrow wallet, else two, a line for each.
  abbrev pub IsTextOf : Text → Text → WalletType → Result Text → Type 0
  IsTextOf descs external w second =
      ((w ≡ escrow) × (descs ≡ external))
      ⊎ ((internal : Text) × (second ≡ ok internal) × (descs ≡ external ++ 10 ∷ internal))

  without_line :
      (descs external : Text) (w : WalletType) (second : Result Text)
      → second ≢ ok []
      → internal_right core w none second ≡ true
      → descs ≡ external
      → IsTextOf descs external w second
  without_line descs external escrow second full right e = inl (refl, e)
  without_line descs external single_sig second full right e =
      elim (full (same_text-ok [] second right)) [ ]
  without_line descs external multi_sig second full right e =
      elim (full (same_text-ok [] second right)) [ ]

  with_line :
      (descs external internal : Text) (w : WalletType) (second : Result Text)
      → internal_right core w (some internal) second ≡ true
      → descs ≡ external ++ 10 ∷ internal
      → IsTextOf descs external w second
  with_line descs external internal escrow second right e = elim (true≢false (sym right)) [ ]
  with_line descs external internal single_sig second right e =
      inr (internal, same_text-ok internal second right, e)
  with_line descs external internal multi_sig second right e =
      inr (internal, same_text-ok internal second right, e)

  -- A text that ParseDescriptors accepts is the text that GetDescriptorForSigners gives for the
  -- wallet that is read from it: the external descriptor alone for an escrow wallet, and else the
  -- external and the internal one in two lines. The wallet has as many signers as `n` says.
  pub parse_descriptors-IsTextOf :
      (descs : Text) (p : Parsed)
      → parse_descriptors core descs ≡ some p
      → (external : Text) × (descriptor_of core false p ≡ ok external)
        × (p.n ≡ length p.signers)
        × IsTextOf descs external p.wallet_type (descriptor_of core true p)
  unfolding parse_descriptors
  parse_descriptors-IsTextOf descs p e =
      let (counted, (first, right)) =
        parse_matched-Passes (up_to 10 descs) (behind 10 descs)
          (match_prefix (up_to 10 descs) prefix_matcher) p e in
      let full : descriptor_of core true p ≢ ok [] =
        descriptor_is_text p.signers p.m true p.address_type p.wallet_type in
      (
        up_to 10 descs,
        first,
        counted,
        elim (Option-cases (behind 10 descs)) [
          | inl missing ↦
              without_line descs (up_to 10 descs) p.wallet_type (descriptor_of core true p) full
                (subst (λ o. internal_right core p.wallet_type o (descriptor_of core true p) ≡ true)
                  missing right)
                (up_to-missing 10 descs missing)
          | inr (internal, found) ↦
              with_line descs (up_to 10 descs) internal p.wallet_type (descriptor_of core true p)
                (subst (λ o. internal_right core p.wallet_type o (descriptor_of core true p) ≡ true)
                  found right)
                (up_to-behind 10 descs internal found)
        ],
      )
