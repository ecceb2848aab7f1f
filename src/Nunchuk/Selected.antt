-- ===== src/Nunchuk/Selected.antt =====
-- The selected wallet of src/nunchukimpl.cpp.
use libnunchuk.Base.{
  ◌≡◌, refl, ap, subst, ◌∙◌, ◌⊎◌, inl, inr, List, [], ◌∷◌, ◌++◌, none, false, arith, Bool-cases,
}
use libnunchuk.Base.Lists.{All}
use libnunchuk.Base.Search.{is_empty}
use libnunchuk.Base.Text.{Text, text_eq}
use libnunchuk.Types.{Exception, Result, ok, throw, Result-cases, ok->>=, ◌>>=◌, wallet_not_found}
use libnunchuk.WalletDb.Transaction.{lookup}
use libnunchuk.Nunchuk.Wallets.{
  Store, found_wallet, get_wallet_db, get_wallet, list_wallets, remove_file, delete_wallet,
  add_wallet, get_others, add_selected, get_wallets,
}

-- A call that gives a value or finds no wallet.
abbrev FindsOrNot : {A : Type 0} → Result A → Type 0
FindsOrNot {A} r = ((a : A) × (r ≡ ok a)) ⊎ (r ≡ throw wallet_not_found)

module _ (W V : Type 0) (read : W → Result V) where
  -- Every file can be read.
  abbrev pub Readable : List (Text × W) → Type 0
  Readable files = All (λ f. (v : V) × (read f.1 ≡ ok v)) files

  lookup-removed :
      (id : Text) (files : List (Text × W)) → lookup id (remove_file W V read id files) ≡ none
  unfolding lookup remove_file
  lookup-removed id [] = refl
  lookup-removed id ((i, w) ∷ files) = elim (Bool-cases (text_eq i id)) [
    | inl e ↦ rw e (lookup-removed id files)
    | inr e ↦ rw (e, e) (lookup-removed id files)
  ]

  lookup-FindsOrNot :
      (id : Text) (files : List (Text × W))
      → Readable files
      → FindsOrNot (◌>>=◌ (found_wallet W V read (lookup id files)) read)
  unfolding lookup
  lookup-FindsOrNot id [] h = inr refl
  lookup-FindsOrNot id ((i, w) ∷ files) h = elim (Bool-cases (text_eq i id)) [
    | inl e ↦ rw e (inl h.0)
    | inr e ↦ rw e (lookup-FindsOrNot id files h.1)
  ]

  add-FindsOrNot :
      (r : Result V) (rest : Result (List V))
      → FindsOrNot r
      → FindsOrNot rest
      → FindsOrNot (add_wallet W V read r rest)
  add-FindsOrNot r rest (inr e) k = inr (ap (λ x. add_wallet W V read x rest) e)
  add-FindsOrNot r rest (inl (w, e)) (inl (ws, f)) =
      inl (w ∷ ws, ap (λ x. add_wallet W V read x rest) e ∙ ap (λ x. ◌>>=◌ x (λ y. ok (w ∷ y))) f)
  add-FindsOrNot r rest (inl (w, e)) (inr f) =
      inr (ap (λ x. add_wallet W V read x rest) e ∙ ap (λ x. ◌>>=◌ x (λ y. ok (w ∷ y))) f)

  others-FindsOrNot :
      (ids : List Text) (s : Store W V read)
      → Readable s.files
      → FindsOrNot (get_others W V read ids s)
  unfolding get_others get_wallet get_wallet_db
  others-FindsOrNot [] s h = inl ([], refl)
  others-FindsOrNot (id ∷ ids) s h = elim (Bool-cases (text_eq id s.selected_wallet)) [
    | inl e ↦ rw e (others-FindsOrNot ids s h)
    | inr e ↦ rw e (add-FindsOrNot _ _ (lookup-FindsOrNot id s.files h) (others-FindsOrNot ids s h))
  ]

  -- GetWallets throws, and the exception of the missing wallet where the others can be read.
  abbrev Fails : Store W V read → Type 0
  Fails t =
      (e : Exception) × (get_wallets W V read t ≡ throw e)
      × (Readable t.files → e ≡ wallet_not_found)

  only_missing :
      (r : Result (List V)) (e : Exception) → FindsOrNot r → r ≡ throw e → e ≡ wallet_not_found
  only_missing r e (inl (ws, f)) h = cc
  only_missing r e (inr f) h = cc

  missing-Fails :
      (s : Store W V read)
      → is_empty s.selected_wallet ≡ false
      → get_wallet W V read s.selected_wallet s ≡ throw wallet_not_found
      → Fails s
  unfolding get_wallets
  missing-Fails s b g =
      let others = get_others W V read (list_wallets W V read s.files) s in
      let last =
        λ (r : Result (List V)). ◌>>=◌ r (add_selected W V read (is_empty s.selected_wallet) s) in
      elim (Result-cases others) [
        | inr (e, h) ↦ (
          e,
          ap last h,
          λ readable.
              only_missing others e (others-FindsOrNot (list_wallets W V read s.files) s readable)
                h,
        )
        | inl (ws, h) ↦ (
          wallet_not_found,
          ap last h
              ∙ ap (λ x. add_selected W V read x s ws) b
              ∙ ap (λ x. ◌>>=◌ x (λ w. ok (ws ++ w ∷ []))) g,
          λ readable. refl,
        )
      ]

  deleted-Fails :
      (s t : Store W V read)
      → is_empty s.selected_wallet ≡ false
      → delete_wallet W V read s.selected_wallet s ≡ ok t
      → Fails t
  unfolding delete_wallet get_wallet get_wallet_db
  deleted-Fails s t b d =
      let (w, e, made) = ok->>= (get_wallet_db W V read s.selected_wallet s) _ t d in
      let left : Store W V read = record s {
        files = remove_file W V read s.selected_wallet s.files;
      } in
      let same : left ≡ t = ground arith in
      subst Fails same (
        missing-Fails left b (
          ap (λ o. ◌>>=◌ (found_wallet W V read o) read)
            (lookup-removed s.selected_wallet s.files)))

  -- DeleteWallet keeps the selection: once the selected wallet has been deleted, GetWallets throws
  -- WALLET_NOT_FOUND, where all the wallets that are left can be read.
  pub delete_wallet-get_wallets :
      (s t : Store W V read)
      → is_empty s.selected_wallet ≡ false
      → delete_wallet W V read s.selected_wallet s ≡ ok t
      → Readable t.files
      → get_wallets W V read t ≡ throw wallet_not_found
  delete_wallet-get_wallets s t b d readable =
      let (e, thrown, only) = deleted-Fails s t b d in thrown ∙ ap throw (only readable)
