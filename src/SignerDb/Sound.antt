-- ===== src/SignerDb/Sound.antt =====
-- The rows of BIP32 that belong to a wallet: the path and the type that GetBip32Path and
-- GetBip32Type give it.
use libnunchuk.Base.{
  ◌≡◌, refl, sym, ap, ◌∙◌, List, [], ◌∷◌, Bool, false, map, Bool-cases, if◌then◌else◌, inl, inr,
  ◌⊎◌, true≢false,
}
use libnunchuk.Base.Int.{ℤ, pos, negsuc, eqb_ℤ}
use libnunchuk.Base.Lists.{All}
use libnunchuk.Base.Text.{Text, codes, text_eq, text_eq_iff}
use libnunchuk.Base.Decimal.{IsInt}
use libnunchuk.Types.{
  AddressType, any, legacy, nested_segwit, native_segwit, Chain, WalletType, single_sig, multi_sig,
  escrow, Result, ok, throw, ◌>>=◌, invalid_parameter,
}
use libnunchuk.Bip32.{coin_type, get_bip32_path, get_bip32_type, get_index_from_path}
use libnunchuk.Bip32.Path.{
  bip44, bip49, bip84, bip48, escrowed, kind_path, get_index_from_path-get_bip32_path,
}
use libnunchuk.SignerDb.{Row, SignerDb, upsert, unused_at, use_row}
use libnunchuk.SignerDb.Rows.{DistinctPaths}

-- The wallet of a row.
pub record Made (chain : Chain) (r : Row) : Type 0 where
  pub wallet : WalletType
  pub address : AddressType
  pub index : ℤ
  pub index-IsInt : IsInt index
  pub path_is : get_bip32_path chain wallet address index ≡ ok r.path
  pub type_is : get_bip32_type wallet address ≡ ok r.type

-- A row of a wallet, or one that the type "custom" keeps apart.
abbrev pub IsSound : Chain → Row → Type 0
IsSound chain r = (r.type ≡ codes "custom") ⊎ Made chain r

abbrev pub IsWf : SignerDb → Type 0
IsWf db = DistinctPaths db.bip32 × All (IsSound db.chain) db.bip32

-- The index of a row of a wallet is read back from its path.
pub Made-index :
    (chain : Chain) (r : Row) (m : Made chain r) → get_index_from_path r.path ≡ ok m.index
Made-index chain r m =
    get_index_from_path-get_bip32_path chain m.wallet m.address m.index r.path m.index-IsInt
      m.path_is

-- The path that belongs to the name of a type.
path_of_type : Chain → ℤ → Text → Result Text
unfolding kind_path
path_of_type chain index t =
    if text_eq t (codes "bip44")
    then ok (kind_path bip44 (coin_type chain) index)
    else if text_eq t (codes "bip49")
    then ok (kind_path bip49 (coin_type chain) index)
    else if text_eq t (codes "bip84")
    then ok (kind_path bip84 (coin_type chain) index)
    else if text_eq t (codes "escrow")
    then ok (kind_path escrowed (coin_type chain) index)
    else if eqb_ℤ index (pos 0)
    then throw invalid_parameter
    else ok (kind_path bip48 (coin_type chain) index)

-- The path depends on the wallet's type and its address type by the name of the type alone.
path_by_type :
    (chain : Chain) (w : WalletType) (a : AddressType) (index : ℤ)
    → get_bip32_path chain w a index ≡ (get_bip32_type w a >>= path_of_type chain index)
unfolding get_bip32_path get_bip32_type path_of_type kind_path text_eq
path_by_type chain single_sig legacy index = refl
path_by_type chain single_sig nested_segwit index = refl
path_by_type chain single_sig native_segwit index = refl
path_by_type chain single_sig any index = refl
path_by_type chain multi_sig a index = refl
path_by_type chain escrow a index = refl

-- A row of a wallet has the path of every wallet of its type, at its index.
pub Made-path :
    (chain : Chain) (r : Row) (m : Made chain r) (w : WalletType) (a : AddressType)
    → get_bip32_type w a ≡ ok r.type
    → get_bip32_path chain w a m.index ≡ ok r.path
Made-path chain r m w a e =
    path_by_type chain w a m.index
    ∙ ap (λ t. t >>= path_of_type chain m.index) (e ∙ sym m.type_is)
    ∙ sym (path_by_type chain m.wallet m.address m.index)
    ∙ m.path_is

is_custom : Result Text → Bool
unfolding text_eq
is_custom (ok t) = text_eq t (codes "custom")
is_custom (throw e) = false

type_is_not_custom : (w : WalletType) (a : AddressType) → is_custom (get_bip32_type w a) ≡ false
unfolding is_custom get_bip32_type
type_is_not_custom single_sig legacy = refl
type_is_not_custom single_sig nested_segwit = refl
type_is_not_custom single_sig native_segwit = refl
type_is_not_custom single_sig any = refl
type_is_not_custom multi_sig a = refl
type_is_not_custom escrow a = refl

-- A sound row with the type of a wallet is the row of a wallet.
pub IsSound-Made :
    (chain : Chain) (r : Row) (w : WalletType) (a : AddressType)
    → IsSound chain r
    → get_bip32_type w a ≡ ok r.type
    → Made chain r
unfolding is_custom
IsSound-Made chain r w a (inr m) e = m
IsSound-Made chain r w a (inl custom) e =
    let differs : text_eq r.type (codes "custom") ≡ false =
      ap is_custom (sym e) ∙ type_is_not_custom w a in
    elim (true≢false (sym ((text_eq_iff r.type (codes "custom")).1 custom) ∙ differs)) [ ]

-- The statements keep the rows sound.
Made-xpub : (chain : Chain) (r : Row) (x : Text) → Made chain r → Made chain (record r { xpub = x })
Made-xpub chain r x m = record {
  wallet = m.wallet;
  address = m.address;
  index = m.index;
  index-IsInt = m.index-IsInt;
  path_is = m.path_is;
  type_is = m.type_is;
}

IsSound-xpub :
    (chain : Chain) (r : Row) (x : Text) → IsSound chain r → IsSound chain (record r { xpub = x })
IsSound-xpub chain r x (inl e) = inl e
IsSound-xpub chain r x (inr m) = inr (Made-xpub chain r x m)

IsSound-used :
    (chain : Chain) (r : Row) (u : ℤ) → IsSound chain r → IsSound chain (record r { used = u })
IsSound-used chain r u (inl e) = inl e
IsSound-used chain r u (inr m) = inr (record {
  wallet = m.wallet;
  address = m.address;
  index = m.index;
  index-IsInt = m.index-IsInt;
  path_is = m.path_is;
  type_is = m.type_is;
})

pub upsert-IsSound :
    (chain : Chain) (path xpub type : Text) (rows : List Row)
    → ((x : Text) → IsSound chain (record { path = path; xpub = x; type = type; used = negsuc 0 }))
    → All (IsSound chain) rows
    → All (IsSound chain) (upsert path xpub type rows)
unfolding upsert
upsert-IsSound chain path xpub type [] new h = (new xpub, tt)
upsert-IsSound chain path xpub type (r ∷ rows) new h = elim (Bool-cases (text_eq r.path path)) [
  | inl e ↦ rw e (IsSound-xpub chain r xpub h.0, h.1)
  | inr e ↦ rw e (h.0, upsert-IsSound chain path xpub type rows new h.1)
]

pub use-IsSound :
    (chain : Chain) (path : Text) (rows : List Row)
    → All (IsSound chain) rows
    → All (IsSound chain) (map (use_row path) rows)
use-IsSound chain path [] h = tt
use-IsSound chain path (r ∷ rows) h = elim (Bool-cases (unused_at path r)) [
  | inl e ↦ rw e (IsSound-used chain r (pos 1) h.0, use-IsSound chain path rows h.1)
  | inr e ↦ rw e (h.0, use-IsSound chain path rows h.1)
]
