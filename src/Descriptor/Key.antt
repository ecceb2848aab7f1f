-- ===== src/Descriptor/Key.antt =====
-- ParseSignerString of src/descriptor.cpp on the keys that a descriptor is made of.
use libnunchuk.Base.{
  ℕ, ◌≡◌, refl, sym, ap, ◌∙◌, [], ◌∷◌, ◌++◌, none, some, ◌==◌, Bool, true, false, arith, map, ◌&&◌,
}
use mathlib.Core.List.{append_assoc}
use libnunchuk.Base.Lists.{length, All, All-append}
use libnunchuk.Base.Text.{Text, text_eq}
use libnunchuk.Utils.{quote_h}
use libnunchuk.Types.{multi_sig, escrow, ok}
use libnunchuk.Descriptor.{Core, multi_key, branch, origin}
use libnunchuk.Descriptor.Signer.{
  is_hex_digit, is_dot, all_dots, take_hex, split_last, split_origin, split_key, signer_of,
  parse_behind, parse_origin, parse_signer_string, add_front,
}

abbrev pub IsHexDigit : ℕ → Type 0
IsHexDigit c = is_hex_digit c ≡ true

-- A character of a path: not the `h` that is printed as a quote, and no end of a line.
abbrev pub IsPathChar : ℕ → Type 0
IsPathChar c = ((c == b'h') ≡ false) × (is_dot c ≡ true)

-- A character of a key: no bracket, no slash, and no end of a line.
abbrev pub IsKeyChar : ℕ → Type 0
IsKeyChar c = ((c == b']') ≡ false) × ((c == b'/') ≡ false) × (is_dot c ≡ true)

take_hex-append : (s t : Text) → All IsHexDigit s → take_hex (length s) (s ++ t) ≡ some (s, t)
unfolding take_hex
take_hex-append [] t h = refl
take_hex-append (c ∷ s) t h = rw (h.0, take_hex-append s t h.1) refl

split_last-none : (s : Text) → All (λ c. (c == b']') ≡ false) s → split_last s ≡ none
unfolding split_last
split_last-none [] h = refl
split_last-none (c ∷ []) h = refl
split_last-none (c ∷ d ∷ s) h = rw (split_last-none (d ∷ s) h.1, h.0) refl

split_last-append :
    (front : Text) (c : ℕ) (back : Text)
    → All (λ c. (c == b']') ≡ false) (c ∷ back)
    → split_last (front ++ b']' ∷ c ∷ back) ≡ some (front, c ∷ back)
unfolding split_last
split_last-append [] c back h = rw (split_last-none (c ∷ back) h) refl
split_last-append (d ∷ front) c back h = rw (split_last-append front c back h) refl

all_dots-path : (path : Text) → All IsPathChar path → all_dots path ≡ true
unfolding all_dots
all_dots-path [] h = refl
all_dots-path (c ∷ path) h = rw (h.0.1, all_dots-path path h.1) refl

all_dots-key : (key t : Text) → All IsKeyChar key → all_dots t ≡ true → all_dots (key ++ t) ≡ true
unfolding all_dots
all_dots-key [] t h e = e
all_dots-key (c ∷ key) t h e = ground (arith, h.0, all_dots-key key t h.1 e)

branch_dots : (internal : Bool) → all_dots (branch internal) ≡ true
unfolding all_dots
branch_dots true = refl
branch_dots false = refl

quote_path : (path : Text) → All IsPathChar path → map quote_h path ≡ path
quote_path [] h = refl
quote_path (c ∷ path) h = rw h.0.0 (ap (λ s. c ∷ s) (quote_path path h.1))

split_key-branch :
    (c : ℕ) (key : Text) (internal : Bool)
    → All IsKeyChar key
    → split_key (c ∷ (key ++ branch internal)) ≡ (c ∷ key, true)
unfolding split_key text_eq
split_key-branch c [] true h = refl
split_key-branch c [] false h = refl
split_key-branch c (d ∷ key) internal h = rw (h.0.1, split_key-branch d key internal h.1) refl

split_key-plain : (key : Text) → All IsKeyChar key → split_key key ≡ (key, false)
unfolding split_key text_eq
split_key-plain [] h = refl
split_key-plain (c ∷ []) h = refl
split_key-plain (c ∷ d ∷ key) h = rw (h.1.0.1, split_key-plain (d ∷ key) h.1) refl

dots_of_key : (key : Text) → All IsKeyChar key → all_dots key ≡ true
unfolding all_dots
dots_of_key [] h = refl
dots_of_key (c ∷ key) h = ground (arith, h.0, dots_of_key key h.1)

no_bracket : (key : Text) → All IsKeyChar key → All (λ c. (c == b']') ≡ false) key
no_bracket [] h = tt
no_bracket (c ∷ key) h = (h.0.0, no_bracket key h.1)

branch_no_bracket : (internal : Bool) → All (λ c. (c == b']') ≡ false) (branch internal)
branch_no_bracket true = (refl, (refl, (refl, (refl, tt))))
branch_no_bracket false = (refl, (refl, (refl, (refl, tt))))

-- An origin and a key, if the key ends in `tail`.
parse_key :
    (fp : Text) (c : ℕ) (path : Text) (k : ℕ) (back : Text) (r : Text × Bool)
    → All IsHexDigit fp
    → length fp ≡ 8
    → All IsPathChar (c ∷ path)
    → All (λ c. (c == b']') ≡ false) (k ∷ back)
    → all_dots (k ∷ back) ≡ true
    → split_key (k ∷ back) ≡ r
    → parse_signer_string (b'[' ∷ (fp ++ ((c ∷ path) ++ (b']' ∷ k ∷ back))))
      ≡ ok (signer_of fp (c ∷ path) r)
unfolding parse_signer_string
parse_key fp c path k back r hex eight dots plain key_dots key_is =
    let read : take_hex 8 (fp ++ ((c ∷ path) ++ (b']' ∷ k ∷ back)))
        ≡ some (fp, (c ∷ path) ++ b']' ∷ k ∷ back) =
      ap (λ n. take_hex n (fp ++ ((c ∷ path) ++ (b']' ∷ k ∷ back)))) (sym eight)
      ∙ take_hex-append fp ((c ∷ path) ++ b']' ∷ k ∷ back) hex in
    let cut : split_origin ((c ∷ path) ++ b']' ∷ k ∷ back) ≡ some (c ∷ path, k ∷ back) =
      ap (add_front c) (split_last-append path k back plain) in
    let both : (all_dots (c ∷ path) && all_dots (k ∷ back)) ≡ true =
      rw (all_dots-path (c ∷ path) dots) key_dots in
    ap parse_origin read
    ∙ ap (parse_behind fp) cut
    ∙ rw both (ap (λ x. ok (signer_of fp (c ∷ path) x)) key_is)

-- The text of an origin, with no `h` in its path.
origin_text :
    (fp path : Text) (r : Text × Bool) (back : Text)
    → All IsPathChar path
    → origin (signer_of fp path r) ++ back ≡ b'[' ∷ (fp ++ (path ++ (b']' ∷ back)))
origin_text fp path r back h =
    let regroup : origin (signer_of fp path r) ++ back
        ≡ b'[' ∷ (fp ++ (map quote_h path ++ (b']' ∷ back))) =
      simp append_assoc in
    regroup ∙ ap (λ q. b'[' ∷ (fp ++ (q ++ (b']' ∷ back)))) (quote_path path h)

-- ParseSignerString reads back the key of a signer as a descriptor has it, with the range of an
-- extended key or, in an escrow wallet, with a public key and none. The fingerprint has eight
-- digits of 0 to 9 and a to f, the path and the key have one character or more, there is no `h` in the
-- path, no bracket and no slash in the key, and no end of a line in either.
pub parse_signer_string-multi_key :
    (core : Core) (fp : Text) (c : ℕ) (path : Text) (k : ℕ) (key : Text) (internal : Bool)
    → All IsHexDigit fp
    → length fp ≡ 8
    → All IsPathChar (c ∷ path)
    → All IsKeyChar (k ∷ key)
    → (parse_signer_string
          (multi_key core multi_sig internal (signer_of fp (c ∷ path) (k ∷ key, true)))
        ≡ ok (signer_of fp (c ∷ path) (k ∷ key, true)))
      × (parse_signer_string
            (multi_key core escrow internal (signer_of fp (c ∷ path) (k ∷ key, false)))
          ≡ ok (signer_of fp (c ∷ path) (k ∷ key, false)))
parse_signer_string-multi_key core fp c path k key internal hex eight dots plain =
    let ranged = key ++ branch internal in
    (
      ap parse_signer_string (origin_text fp (c ∷ path) (k ∷ key, true) (k ∷ ranged) dots)
          ∙ parse_key fp c path k ranged (k ∷ key, true) hex eight dots
              (All-append _ (k ∷ key) (branch internal) (no_bracket (k ∷ key) plain)
                (branch_no_bracket internal))
              (all_dots-key (k ∷ key) (branch internal) plain (branch_dots internal))
              (split_key-branch k key internal plain.1),
      ap parse_signer_string (origin_text fp (c ∷ path) (k ∷ key, false) (k ∷ key) dots)
          ∙ parse_key fp c path k key (k ∷ key, false) hex eight dots (no_bracket (k ∷ key) plain)
              (dots_of_key (k ∷ key) plain) (split_key-plain (k ∷ key) plain),
    )
