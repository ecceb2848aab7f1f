-- ===== src/WalletDb/InputStr.antt =====
-- The text of an input in GetUnspentOutputs of src/storage.cpp, and the input.
use libnunchuk.Base.{
  ℕ, true≢false, ◌≡◌, refl, sym, ap, ◌∙◌, [], ◌∷◌, ◌++◌, Option, none, some, ◌==◌, Bool, true,
  false, ◌&&◌, arith, Bool-cases, inl, inr, if◌then◌else◌,
}
use libnunchuk.Base.Lists.{All}
use libnunchuk.Base.Text.{Text, text_eq, text_eq_iff}
use libnunchuk.Base.Decimal.{show, show_ℕ, IsDigit, read_digits}
use libnunchuk.Types.{TxInput}
use libnunchuk.Utils.Numeral.{read_digits-show_ℕ, show_ℕ-IsDigit}
use libnunchuk.WalletDb.{input_str}

abbrev cons_front : ℕ → Option (Text × Text) → Option (Text × Text)
cons_front c none = none
cons_front c (some (front, back)) = some (c ∷ front, back)

abbrev first_some : Option (Text × Text) → Option (Text × Text) → Option (Text × Text)
first_some none o = o
first_some (some p) o = some p

-- Around the last colon.
at_colon : Text → Option (Text × Text)
at_colon [] = none
at_colon (c ∷ s) = first_some (cons_front c (at_colon s)) (if c == b':' then some ([], s) else none)

at_colon-none : (s : Text) → All IsDigit s → at_colon s ≡ none
unfolding at_colon
at_colon-none [] h = refl
at_colon-none (c ∷ s) h =
    let no_colon : (c == b':') ≡ false = ground (arith, h.0) in
    rw (at_colon-none s h.1, no_colon) refl

at_colon-append : (s t : Text) → All IsDigit t → at_colon (s ++ (b':' ∷ t)) ≡ some (s, t)
unfolding at_colon
at_colon-append [] t h = rw (at_colon-none t h) refl
at_colon-append (c ∷ s) t h = rw (at_colon-append s t h) refl

some_inj : {a b : Text × Text} → some a ≡ some b → a ≡ b
some_inj e = cc

-- Different inputs have different texts.
pub input_str_inj : (i j : TxInput) → input_str i ≡ input_str j → i ≡ j
unfolding input_str show
input_str_inj (s, n) (t, k) e =
    let split : ◌≡◌ {A = Option (Text × Text)} (some (s, show_ℕ n)) (some (t, show_ℕ k)) =
      sym (at_colon-append s (show_ℕ n) (show_ℕ-IsDigit n))
      ∙ ap at_colon e
      ∙ at_colon-append t (show_ℕ k) (show_ℕ-IsDigit k) in
    let same : ◌≡◌ {A = Text × Text} (s, show_ℕ n) (t, show_ℕ k) = some_inj split in
    let same_text : s ≡ t = ap (λ p. p.0) same in
    let same_number : n ≡ k =
      sym (read_digits-show_ℕ n) ∙ ap (λ p. read_digits 0 p.1) same ∙ read_digits-show_ℕ k in
    cc

abbrev pub same_input : TxInput → TxInput → Bool
same_input (s, n) (t, k) = text_eq s t && (n == k)

same_input_iff : (i j : TxInput) → same_input i j ≡ true → i ≡ j
same_input_iff (s, n) (t, k) e =
    let same_text : s ≡ t = ground (arith, text_eq_iff s t) in
    let same_number : n ≡ k = ground arith in cc

same_input_refl : (i : TxInput) → same_input i i ≡ true
same_input_refl (s, n) = ground (arith, text_eq_iff s s)

-- The comparison of the texts is the comparison of the inputs.
pub text_eq-input_str : (i j : TxInput) → text_eq (input_str i) (input_str j) ≡ same_input i j
text_eq-input_str i j = elim (Bool-cases (text_eq (input_str i) (input_str j))) [
  | inl e ↦
      let same : i ≡ j = input_str_inj i j ((text_eq_iff (input_str i) (input_str j)).0 e) in
      e ∙ sym (ap (same_input i) (sym same) ∙ same_input_refl i)
  | inr e ↦ elim (Bool-cases (same_input i j)) [
    | inl f ↦
        let both : text_eq (input_str i) (input_str j) ≡ true =
          (text_eq_iff (input_str i) (input_str j)).1 (ap input_str (same_input_iff i j f)) in
        elim (true≢false (sym both ∙ e)) [ ]
    | inr f ↦ e ∙ sym f
  ]
]
