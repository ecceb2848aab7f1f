-- ===== src/WalletDb/SignersKept.antt =====
-- A signer that is added to a wallet in src/storage.cpp, and what its name and its id become.
use libnunchuk.Base.{
  ℕ, ◌≡◌, refl, sym, ap, ◌∙◌, List, [], ◌∷◌, ◌++◌, Bool, true, false, arith, Bool-cases, inl, inr,
}
use libnunchuk.Base.Lists.{All, any}
use libnunchuk.Base.Search.{lower}
use libnunchuk.Base.Text.{Text, text_eq_refl, NotZero, c_string-whole}
use libnunchuk.Types.{SingleSigner, ok}
use libnunchuk.WalletDb.Signers.{
  SignerKey, SignerRow, to_lower, key_eq, get_single_signer_key, row_of, has_key, add_signer,
  set_rows, named, set_signer_name, signer_of_row, get_signers,
}

lower-lower : (c : ℕ) → lower (lower c) ≡ lower c
lower-lower c = ground arith

to_lower-to_lower : (s : Text) → to_lower (to_lower s) ≡ to_lower s
to_lower-to_lower [] = refl
to_lower-to_lower (c ∷ s) =
    ap (λ d. d ∷ to_lower (to_lower s)) (lower-lower c)
    ∙ ap (λ t. lower c ∷ t) (to_lower-to_lower s)

key_eq_refl : (k : SignerKey) → key_eq k k ≡ true
key_eq_refl k =
    rw
      (
        text_eq_refl k.xpub,
        text_eq_refl k.public_key,
        text_eq_refl k.derivation_path,
        text_eq_refl k.master_fingerprint,
      )
      refl

-- The signer with its fingerprint and its master signer in small letters.
abbrev pub small : SingleSigner → SingleSigner
small signer = record signer {
  master_fingerprint = to_lower signer.master_fingerprint;
  master_signer_id = to_lower signer.master_signer_id;
}

get_signers-append :
    (rows : List SignerRow) (row : SignerRow)
    → get_signers (rows ++ row ∷ []) ≡ get_signers rows ++ signer_of_row row ∷ []
unfolding get_signers
get_signers-append [] row = refl
get_signers-append (r ∷ rows) row = ap (λ l. signer_of_row r ∷ l) (get_signers-append rows row)

named-new :
    (value : Text) (key : SignerKey) (rows : List SignerRow) (row : SignerRow)
    → any (has_key key) rows ≡ false
    → has_key key row ≡ true
    → set_rows (named value) key (rows ++ row ∷ []) ≡ rows ++ named value row ∷ []
unfolding set_rows
named-new value key [] row h k = rw k refl
named-new value key (r ∷ rows) row h k =
    let first : has_key key r ≡ false = ground arith in
    let rest : any (has_key key) rows ≡ false = ground arith in
    rw first (ap (λ l. r ∷ l) (named-new value key rows row rest k))

lower-NotZero : (c : ℕ) → NotZero c → NotZero (lower c)
lower-NotZero c h = ground arith

to_lower-NotZero : (s : Text) → All NotZero s → All NotZero (to_lower s)
to_lower-NotZero [] h = tt
to_lower-NotZero (c ∷ s) h = (lower-NotZero c h.0, to_lower-NotZero s h.1)

-- The signer that is read from its row, under a name.
read_row :
    (signer : SingleSigner) (name : Text)
    → All NotZero name
    → All NotZero signer.master_signer_id
    → signer_of_row (named name (row_of signer)) ≡ small (record signer { name = name })
unfolding get_single_signer_key
read_row signer name whole master_whole =
    ap (λ n. record (signer_of_row (named name (row_of signer))) { name = n })
      (c_string-whole name whole)
    ∙ ap
        (λ f. record (signer_of_row (named name (row_of signer))) {
          name = name;
          master_fingerprint = f;
        })
        (to_lower-to_lower signer.master_fingerprint)
    ∙ ap (λ i. record (small (record signer { name = name })) { master_signer_id = i })
        (c_string-whole (to_lower signer.master_signer_id)
          (to_lower-NotZero signer.master_signer_id master_whole))

-- With the rows in the order of their insertion: a signer that AddSigner accepts, with no zero byte in
-- its name and its master signer, is listed by GetSigners behind those that were there, with its
-- fingerprint and its master signer in small letters; and a name without a zero byte that SetSignerName
-- then gives it is its name, while the other signers stay as they were.
pub add_signer-get_signers :
    (signer : SingleSigner) (value : Text) (b : Bool) (rows rows2 : List SignerRow)
    → add_signer signer rows ≡ ok (b, rows2)
    → All NotZero signer.name
    → All NotZero signer.master_signer_id
    → All NotZero value
    → (get_signers rows2 ≡ get_signers rows ++ small signer ∷ [])
      × (get_signers (set_signer_name signer value rows2).1
          ≡ get_signers rows ++ small (record signer { name = value }) ∷ [])
unfolding add_signer set_signer_name get_single_signer_key
add_signer-get_signers signer value b rows rows2 h named_whole master_whole value_whole =
    let key = get_single_signer_key signer in
    let row = row_of signer in
    elim (Bool-cases (any (has_key key) rows)) [
      | inl there ↦ ground arith
      | inr fresh ↦
          let made : rows ++ row ∷ [] ≡ rows2 = ground arith in
          (
            ap get_signers (sym made)
                ∙ get_signers-append rows row
                ∙ ap (λ s. get_signers rows ++ s ∷ [])
                    (read_row signer signer.name named_whole master_whole),
            ap (λ l. get_signers (set_rows (named value) key l)) (sym made)
                ∙ ap get_signers (named-new value key rows row fresh (key_eq_refl key))
                ∙ get_signers-append rows (named value row)
                ∙ ap (λ s. get_signers rows ++ s ∷ [])
                    (read_row signer value value_whole master_whole),
          )
    ]
