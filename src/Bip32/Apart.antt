-- ===== src/Bip32/Apart.antt =====
-- The type and the index of a wallet as they stand in its derivation path.
use libnunchuk.Base.{
  ℕ, ◌+◌, ◌≡◌, refl, ap, sym, ◌∙◌, [], ◌∷◌, ◌++◌, ◌==◌, Bool, true, false, if◌then◌else◌,
}
use libnunchuk.Base.Int.{ℤ}
use libnunchuk.Base.Lists.{All}
use libnunchuk.Base.Text.{Text, codes}
use libnunchuk.Base.Decimal.{show, IsInt, show-NoSlash, NoSlash}
use libnunchuk.Types.{AddressType, Chain, WalletType, ok}
use libnunchuk.Bip32.{coin_type, short_path, get_bip32_path, get_bip32_type, get_index_from_path}
use libnunchuk.Bip32.Path.{
  Kind, bip44, bip49, bip84, bip48, escrowed, kind_path, kind_name, path_kind,
  get_index_from_path-get_bip32_path,
}

abbrev add_slash : Bool → ℕ → ℕ
add_slash true n = 1 + n
add_slash false n = n

unfoldable slashes : Text → ℕ
slashes [] = 0
slashes (c ∷ s) = add_slash (c == b'/') (slashes s)

slashes-append : (s t : Text) → All NoSlash s → slashes (s ++ t) ≡ slashes t
unfolding slashes
slashes-append [] t h = refl
slashes-append (c ∷ s) t h = rw h.0 (slashes-append s t h.1)

-- The kind of a path: the number behind `m/`, and for 48 also the number of slashes.
unfoldable kind_of : Text → Kind
kind_of (a ∷ b ∷ c ∷ d ∷ s) =
    if c == b'8'
    then bip84
    else if d == b'4'
    then bip44
    else if d == b'9'
    then bip49
    else if slashes s == 3
    then escrowed
    else bip48
kind_of _ = bip48

short_slashes : (coin index : ℤ) → slashes (short_path (codes "h/") coin index) ≡ 2
unfolding slashes
short_slashes coin index =
    ap (λ n. 1 + n)
      (slashes-append (show coin) _ (show-NoSlash coin)
        ∙ ap (λ n. 1 + n) (slashes-append (show index) (codes "h") (show-NoSlash index)))

escrow_slashes :
    (coin index : ℤ)
    → slashes (codes "h/" ++ (show coin ++ (codes "h/0h/" ++ (show index ++ codes "h")))) ≡ 3
unfolding slashes
escrow_slashes coin index =
    ap (λ n. 1 + n)
      (slashes-append (show coin) _ (show-NoSlash coin)
        ∙ ap (λ n. 1 + (1 + n)) (slashes-append (show index) (codes "h") (show-NoSlash index)))

kind_of-kind_path : (k : Kind) (coin index : ℤ) → kind_of (kind_path k coin index) ≡ k
unfolding kind_of kind_path
kind_of-kind_path bip44 coin index = refl
kind_of-kind_path bip49 coin index = refl
kind_of-kind_path bip84 coin index = refl
kind_of-kind_path bip48 coin index = rw (short_slashes coin index) refl
kind_of-kind_path escrowed coin index = rw (escrow_slashes coin index) refl

-- Two wallets with the same derivation path have the same type and the same index, and this on
-- whatever chains they are, when the indices are values of `int`.
pub path_apart :
    (chain chain2 : Chain) (w w2 : WalletType) (a a2 : AddressType) (index index2 : ℤ) (p : Text)
    → IsInt index
    → IsInt index2
    → get_bip32_path chain w a index ≡ ok p
    → get_bip32_path chain2 w2 a2 index2 ≡ ok p
    → (get_bip32_type w a ≡ get_bip32_type w2 a2) × (index ≡ index2)
path_apart chain chain2 w w2 a a2 index index2 p h h2 e e2 =
    let (k, path, type) = path_kind chain w a index e in
    let (k2, path2, type2) = path_kind chain2 w2 a2 index2 e2 in
    let same : k ≡ k2 =
      sym (kind_of-kind_path k (coin_type chain) index)
      ∙ ap kind_of (sym path ∙ path2)
      ∙ kind_of-kind_path k2 (coin_type chain2) index2 in
    let read : get_index_from_path p ≡ ok index =
      get_index_from_path-get_bip32_path chain w a index p h e in
    let read2 : get_index_from_path p ≡ ok index2 =
      get_index_from_path-get_bip32_path chain2 w2 a2 index2 p h2 e2 in
    (type ∙ ap (λ x. ok (kind_name x)) same ∙ sym type2, cc)
