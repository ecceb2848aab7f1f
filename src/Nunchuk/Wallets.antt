-- ===== src/Nunchuk/Wallets.antt =====
-- The wallets of src/nunchukimpl.cpp and the one that is selected, over the files and the state that
-- src/storage.cpp keeps. What a wallet's file holds is a parameter, and so is what NunchukStorage::GetWallet
-- reads of it, which may throw.
use libnunchuk.Base.{List, [], ◌∷◌, ◌++◌, Option, none, some, Bool, true, false, if◌then◌else◌}
use libnunchuk.Base.Search.{is_empty}
use libnunchuk.Base.Text.{Text, text_eq}
use libnunchuk.Types.{Result, ok, throw, ◌>>=◌, wallet_not_found}
use libnunchuk.WalletDb.Transaction.{lookup}

module _ (W V : Type 0) (read : W → Result V) where
  -- The files of the directory of wallets, and SELECTED_WALLET.
  pub record Store : Type 0 where
    pub files : List (Text × W)
    pub selected_wallet : Text

  abbrev pub found_wallet : Option W → Result W
  found_wallet none = throw wallet_not_found
  found_wallet (some w) = ok w

  -- GetWalletDb
  unfoldable pub get_wallet_db : Text → Store → Result W
  unfolding lookup
  get_wallet_db id s = found_wallet (lookup id s.files)

  unfoldable pub get_wallet : Text → Store → Result V
  unfolding get_wallet_db
  get_wallet id s = get_wallet_db id s >>= read

  unfoldable pub list_wallets : List (Text × W) → List Text
  list_wallets [] = []
  list_wallets ((id, w) ∷ files) = id ∷ list_wallets files

  unfoldable pub set_selected_wallet : Text → Store → Store
  set_selected_wallet id s = record s { selected_wallet = id }

  unfoldable pub remove_file : Text → List (Text × W) → List (Text × W)
  remove_file id [] = []
  remove_file id ((i, w) ∷ files) =
      let rest = remove_file id files in if text_eq i id then rest else (i, w) ∷ rest

  -- Of a wallet that is not there, the databases that are opened throw.
  unfoldable pub delete_wallet : Text → Store → Result Store
  unfolding get_wallet_db remove_file
  delete_wallet id s =
      get_wallet_db id s >>= (λ w. ok (record s { files = remove_file id s.files }))

  abbrev pub add_wallet : Result V → Result (List V) → Result (List V)
  add_wallet (throw e) rest = throw e
  add_wallet (ok w) rest = rest >>= (λ ws. ok (w ∷ ws))

  -- The loop, with the selected wallet left out.
  unfoldable pub get_others : List Text → Store → Result (List V)
  unfolding get_wallet
  get_others [] s = ok []
  get_others (id ∷ ids) s =
      let rest = get_others ids s in
      if text_eq id s.selected_wallet then rest else add_wallet (get_wallet id s) rest

  abbrev pub add_selected : Bool → Store → List V → Result (List V)
  add_selected true s wallets = ok wallets
  add_selected false s wallets = get_wallet s.selected_wallet s >>= (λ w. ok (wallets ++ w ∷ []))

  unfoldable pub get_wallets : Store → Result (List V)
  unfolding get_others list_wallets
  get_wallets s =
      get_others (list_wallets s.files) s >>= add_selected (is_empty s.selected_wallet) s
