-- ===== src/Utils/Tests.antt =====
-- A small stand-in for Bitcoin Core's calls, and the theorems on amounts and versions there.
use libnunchuk.Base.{
  ℕ, ◌+◌, ◌*◌, ◌^◌, ◌≡◌, refl, sym, subst, [], ◌∷◌, ◌++◌, Option, none, some, Bool, true, false,
  true≢false, arith, leb, ◌==◌, inl, inr, if◌then◌else◌,
}
use libnunchuk.Base.Int.{ℤ, negsuc}
use libnunchuk.Base.Lists.{length, All}
use libnunchuk.Base.Text.{Text, codes, text_eq}
use libnunchuk.Base.Decimal.{IsDigit, read_digits, show_ℕ}
use libnunchuk.Types.{ok, throw, amount_out_of_range}
use libnunchuk.Utils.{
  Core, copy_over, find_prefix, pad_8, zeros, sanitize_bip32_input, amount_from_value,
  value_from_amount,
}
use libnunchuk.Utils.Numeral.{IsNumeral}
use libnunchuk.Utils.Money.{
  CoreLaws, signed, sign_text, in_range, amount_from_value-value_from_amount,
}
use libnunchuk.Utils.Prefix.{Base58Laws, Listed, slip132_version, bytes_be, sanitize-sanitize}

before_dot : Text → Text
before_dot [] = []
before_dot (c ∷ s) = if c == b'.' then [] else c ∷ before_dot s

after_dot : Text → Text
after_dot [] = []
after_dot (c ∷ s) = if c == b'.' then s else after_dot s

abbrev number : Bool → Text → Option ℤ
number negative s =
    some (signed negative (read_digits 0 (before_dot s) * 10 ^ 8 + read_digits 0 (after_dot s)))

toy_parse : Text → ℕ → Option ℤ
toy_parse [] places = none
toy_parse (c ∷ s) places = if c == b'-' then number true s else number false (c ∷ s)

-- A key is its bytes.
abbrev toy : Core
toy = record {
  coin = 10 ^ 8;
  max_money = 21 * 10 ^ 14;
  parse_fixed_point = toy_parse;
  decode_base58_check = λ s max. if leb (length s) max then some s else none;
  encode_base58_check = λ bytes. bytes;
  is_hex = λ s. false;
  parse_hex = λ s. [];
  parse_hd_keypath = λ s. none;
}

split :
    (whole places : Text)
    → All IsDigit whole
    → (before_dot (whole ++ b'.' ∷ places) ≡ whole) × (after_dot (whole ++ b'.' ∷ places) ≡ places)
unfolding before_dot after_dot
split [] places h = (refl, refl)
split (c ∷ whole) places h =
    let (front, back) = split whole places h.1 in (ground (arith, front), ground (arith, back))

numeral_digits : (whole : Text) → IsNumeral whole → All IsDigit whole
numeral_digits whole (inl e) = subst (All IsDigit) (sym e) (refl, tt)
numeral_digits whole (inr h) = h.1

number_at :
    (negative : Bool) (whole places : Text)
    → All IsDigit whole
    → number negative (whole ++ b'.' ∷ places)
      ≡ some (signed negative (read_digits 0 whole * 10 ^ 8 + read_digits 0 places))
number_at negative whole places h =
    let (front, back) = split whole places h in rw (front, back) refl

toy_parses :
    (negative : Bool) (whole places : Text)
    → IsNumeral whole
    → toy_parse (sign_text negative ++ (whole ++ b'.' ∷ places)) 8
      ≡ some (signed negative (read_digits 0 whole * 10 ^ 8 + read_digits 0 places))
unfolding toy_parse
toy_parses true whole places h = number_at true whole places (numeral_digits whole h)
toy_parses false [] places (inl e) = cc
toy_parses false [] places (inr h) = elim (true≢false (sym h.0)) [ ]
toy_parses false (c ∷ s) places h =
    let digits = numeral_digits (c ∷ s) h in
    let no_sign : (c == b'-') ≡ false = ground (arith, digits.0) in
    rw no_sign (number_at false (c ∷ s) places digits)

toy-CoreLaws : CoreLaws toy
toy-CoreLaws = record {
  coin_is = refl;
  max_money_small = omega arith;
  parses = λ negative whole places h _ _ _. toy_parses negative whole places h;
}

toy-Base58Laws : Base58Laws toy
toy-Base58Laws = record { decodes = λ bytes max h. ground arith }

amount_runs :
    (value_from_amount toy (negsuc 149999999) ≡ codes "-1.50000000")
    × (amount_from_value toy (codes "21000000.00000001") false ≡ throw amount_out_of_range)
unfolding value_from_amount pad_8 zeros show_ℕ amount_from_value toy_parse before_dot after_dot
    read_digits
amount_runs = (refl, refl)

amount_from_value-value_from_amount_example :
    amount_from_value toy (value_from_amount toy (negsuc 149999999)) true ≡ (
      if in_range (21 * 10 ^ 14) true (negsuc 149999999)
      then ok (negsuc 149999999)
      else throw amount_out_of_range)
amount_from_value-value_from_amount_example =
    amount_from_value-value_from_amount toy toy-CoreLaws (negsuc 149999999) true (omega arith)

abbrev key : Text
key = 4 ∷ 136 ∷ 178 ∷ 30 ∷ 7 ∷ 9 ∷ []

abbrev zpub_key : Text
zpub_key = 4 ∷ 178 ∷ 71 ∷ 70 ∷ 7 ∷ 9 ∷ []

sanitize_runs : sanitize_bip32_input toy key (codes "zpub") ≡ ok zpub_key
unfolding sanitize_bip32_input find_prefix copy_over text_eq
sanitize_runs = refl

sanitize-sanitize_example :
    ((v : ℕ) × Listed (codes "zpub") v slip132_version
      × (toy.decode_base58_check zpub_key 78 ≡ some (bytes_be v ++ 7 ∷ 9 ∷ [])))
    × (sanitize_bip32_input toy zpub_key (codes "Vpub")
        ≡ sanitize_bip32_input toy key (codes "Vpub"))
sanitize-sanitize_example =
    sanitize-sanitize toy toy-Base58Laws key zpub_key (codes "zpub") (codes "Vpub") key refl
      (omega arith) (omega arith) sanitize_runs
