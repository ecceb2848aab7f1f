-- ===== src/Utils/Prefix.antt =====
-- SanitizeBIP32Input of src/nunchukutils.cpp: the version of a key, and a second conversion.
use libnunchuk.Base.{
  ℕ, zero, suc, ◌≤◌, ◌≡◌, refl, sym, ap, subst, ◌∙◌, List, [], ◌∷◌, Option, none, some, arith,
  Bool-cases, Option-cases, inl, inr, ◌++◌, map, ◌/◌, ◌%◌, ◌^◌,
}
use libnunchuk.Base.Lists.{length, All}
use libnunchuk.Base.Text.{Text, codes, text_eq, text_eq_iff}
use libnunchuk.Types.{ok, throw, invalid_parameter}
use libnunchuk.Utils.{
  Core, copy_over, find_prefix, version_prefixes, with_prefix, sanitize_bip32_input,
}

-- Base58Check is documented to decode what it has encoded, if that is no longer than asked for.
pub record Base58Laws (core : Core) : Type 0 where
  pub decodes :
      (bytes : List ℕ) (max : ℕ)
      → length bytes ≤ max
      → core.decode_base58_check (core.encode_base58_check bytes) max ≡ some bytes

length-copy_over : (p bytes : List ℕ) → length (copy_over p bytes) ≡ length bytes
unfolding copy_over
length-copy_over [] bytes = refl
length-copy_over (x ∷ p) [] = refl
length-copy_over (x ∷ p) (c ∷ bytes) = ap suc (length-copy_over p bytes)

-- The bytes that one prefix has written are those that the next one writes.
copy_over-copy_over :
    (p q bytes : List ℕ) → length p ≡ length q → copy_over p (copy_over q bytes) ≡ copy_over p bytes
unfolding copy_over
copy_over-copy_over [] [] bytes h = refl
copy_over-copy_over [] (y ∷ q) bytes h = ground (arith, h)
copy_over-copy_over (x ∷ p) [] bytes h = refl
copy_over-copy_over (x ∷ p) (y ∷ q) [] h = refl
copy_over-copy_over (x ∷ p) (y ∷ q) (c ∷ bytes) h =
    ap (λ s. x ∷ s) (copy_over-copy_over p q bytes (omega arith))

length-find_prefix :
    (name : Text) (table : List (Text × List ℕ)) (p : List ℕ)
    → All (λ e. length e.1 ≡ 4) table
    → find_prefix name table ≡ some p
    → length p ≡ 4
unfolding find_prefix
length-find_prefix name [] p h e = cc
length-find_prefix name ((n, bytes) ∷ rest) p h e = elim (Bool-cases (text_eq n name)) [
  | inl same ↦ ap length (sym (ground arith)) ∙ h.0
  | inr differ ↦ length-find_prefix name rest p h.1 (ground arith)
]

abbrev prefixes_long : All (λ e. length e.1 ≡ 4) version_prefixes
prefixes_long = (refl, (refl, (refl, (refl, (refl, (refl, (refl, (refl, (refl, (refl, tt))))))))))

-- What the conversion of a key to a format gives.
sanitize_as :
    (core : Core) (input format : Text) (bytes : List ℕ)
    → core.decode_base58_check input 78 ≡ some bytes
    → sanitize_bip32_input core input format
      ≡ with_prefix core bytes (find_prefix format version_prefixes)
unfolding sanitize_bip32_input find_prefix
sanitize_as core input format bytes e = rw (sanitize_bip32_input, e) refl

with_prefix-twice :
    (core : Core) (p bytes : List ℕ) (found : Option (List ℕ))
    → length p ≡ 4
    → ((q : List ℕ) → found ≡ some q → length q ≡ 4)
    → with_prefix core (copy_over p bytes) found ≡ with_prefix core bytes found
with_prefix-twice core p bytes none h k = refl
with_prefix-twice core p bytes (some q) h k =
    ap (λ s. ok (core.encode_base58_check s)) (copy_over-copy_over q p bytes (k q refl ∙ sym h))

-- The version of an extended key of each format, as SLIP-132 registers it.
abbrev pub slip132_version : List (Text × ℕ)
slip132_version =
    (codes "xpub", 76_067_358)
    ∷ (codes "ypub", 77_429_938)
    ∷ (codes "Ypub", 43_365_439)
    ∷ (codes "zpub", 78_792_518)
    ∷ (codes "Zpub", 44_728_019)
    ∷ (codes "tpub", 70_617_039)
    ∷ (codes "upub", 71_979_618)
    ∷ (codes "Upub", 37_915_119)
    ∷ (codes "vpub", 73_342_198)
    ∷ (codes "Vpub", 39_277_699)
    ∷ []

-- A number of 32 bits, the most significant byte first.
abbrev pub bytes_be : ℕ → List ℕ
bytes_be n = n / 2 ^ 24 % 256 ∷ n / 2 ^ 16 % 256 ∷ n / 2 ^ 8 % 256 ∷ n % 256 ∷ []

abbrev bytes_of : Text × ℕ → Text × List ℕ
bytes_of e = (e.0, bytes_be e.1)

prefixes_registered : map bytes_of slip132_version ≡ version_prefixes
prefixes_registered = refl

-- A format is listed with a version.
pub data Listed (name : Text) (v : ℕ) : List (Text × ℕ) → Type 0 where
  first : (table : List (Text × ℕ)) → Listed name v ((name, v) ∷ table)
  behind :
      (e : Text × ℕ) (table : List (Text × ℕ)) → Listed name v table → Listed name v (e ∷ table)

find_prefix-Listed :
    (name : Text) (table : List (Text × ℕ)) (p : List ℕ)
    → find_prefix name (map bytes_of table) ≡ some p
    → (v : ℕ) × Listed name v table × (p ≡ bytes_be v)
unfolding find_prefix
find_prefix-Listed name [] p e = cc
find_prefix-Listed name ((n, v) ∷ table) p e = elim (Bool-cases (text_eq n name)) [
  | inl same ↦ (
    v,
    subst (λ k. Listed k v ((n, v) ∷ table)) ((text_eq_iff n name).0 same) (first table),
    sym (some_inj (rw same at e)),
  )
  | inr differ ↦
      let (w, listed, is) = find_prefix-Listed name table p (rw differ at e) in
      (w, behind (n, v) table listed, is)
]
  where
    some_inj : {a b : List ℕ} → some a ≡ some b → a ≡ b
    some_inj e = cc

abbrev pub drop : ℕ → List ℕ → List ℕ
drop zero bytes = bytes
drop (suc n) [] = []
drop (suc n) (c ∷ bytes) = drop n bytes

copy_over-drop :
    (p bytes : List ℕ) → length p ≤ length bytes → copy_over p bytes ≡ p ++ drop (length p) bytes
unfolding copy_over
copy_over-drop [] bytes h = refl
copy_over-drop (x ∷ p) [] h = absurd (omega arith)
copy_over-drop (x ∷ p) (c ∷ bytes) h = ap (λ l. x ∷ l) (copy_over-drop p bytes (omega arith))

-- If a key decodes to at least the four bytes of a version and to no more than 78: what it is
-- converted to decodes to the version of the format in SLIP-132, its most significant byte first, and
-- behind it the other bytes of the key; and to convert it to another format then is to convert the key
-- to that format at once.
pub sanitize-sanitize :
    (core : Core)
    → Base58Laws core
    → (input output format format2 : Text) (bytes : List ℕ)
    → core.decode_base58_check input 78 ≡ some bytes
    → 4 ≤ length bytes
    → length bytes ≤ 78
    → sanitize_bip32_input core input format ≡ ok output
    → ((v : ℕ) × Listed format v slip132_version
        × (core.decode_base58_check output 78 ≡ some (bytes_be v ++ drop 4 bytes)))
      × (sanitize_bip32_input core output format2 ≡ sanitize_bip32_input core input format2)
sanitize-sanitize core laws input output format format2 bytes e long short done =
    elim (Option-cases (find_prefix format version_prefixes)) [
      | inl missing ↦
          let absurd : throw invalid_parameter ≡ ok output =
            sym (sanitize_as core input format bytes e ∙ ap (with_prefix core bytes) missing)
            ∙ done in
          cc
      | inr (p, found) ↦
          let encoded : core.encode_base58_check (copy_over p bytes) ≡ output = ok_inj (
            sym (sanitize_as core input format bytes e ∙ ap (with_prefix core bytes) found)
            ∙ done) in
          let decoded : core.decode_base58_check output 78 ≡ some (copy_over p bytes) =
            ap (λ t. core.decode_base58_check t 78) (sym encoded)
            ∙ laws.decodes (copy_over p bytes) 78
                (subst (λ n. n ≤ 78) (sym (length-copy_over p bytes)) short) in
          let (v, listed, is) =
            find_prefix-Listed format slip132_version p
              (ap (find_prefix format) prefixes_registered ∙ found) in
          let written : copy_over (bytes_be v) bytes ≡ bytes_be v ++ drop 4 bytes =
            copy_over-drop (bytes_be v) bytes long in
          (
            (v, listed, decoded ∙ ap (λ l. some (copy_over l bytes)) is ∙ ap some written),
            sanitize_as core output format2 (copy_over p bytes) decoded
                ∙ with_prefix-twice core p bytes (find_prefix format2 version_prefixes)
                    (length-find_prefix format version_prefixes p prefixes_long found)
                    (λ q. length-find_prefix format2 version_prefixes q prefixes_long)
                ∙ sym (sanitize_as core input format2 bytes e),
          )
    ]
  where
    ok_inj : {a b : Text} → ok a ≡ ok b → a ≡ b
    ok_inj e = cc
