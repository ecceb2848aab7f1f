-- ===== src/SignerDb/Index.antt =====
-- Which index GetUnusedIndex offers.
use libnunchuk.Base.{
  ◌≡◌, ◌≢◌, refl, sym, ap, subst, ◌∙◌, List, [], ◌∷◌, none, some, true, true≢false, ◌&&◌, ◌==◌, map,
  arith, Option-cases, inl, inr,
}
use libnunchuk.Base.Int.{ℤ, negsuc}
use libnunchuk.Base.Text.{Text, text_eq, text_eq_iff}
use libnunchuk.Types.{AddressType, WalletType, ok, ok->>=}
use libnunchuk.Bip32.{get_bip32_path, get_bip32_type}
use libnunchuk.SignerDb.{
  Row, SignerDb, unused, use_row, changes, use_index, find_row, filter_rows, first_index,
  get_unused_index,
}
use libnunchuk.SignerDb.Rows.{
  In, All-In, find_row-In, changes-unused, changed-find_row, filter_rows-first,
}
use libnunchuk.SignerDb.Sound.{Made, IsWf, IsSound-Made, Made-index, Made-path}
use libnunchuk.SignerDb.Steps.{
  Steps, done, more, use_one, IsTaken, use_index-result, use-IsTaken, Steps-IsWf, Steps-IsTaken,
}

-- SQLite visits the rows of the table, and all of them.
pub record VisitLaws (visit : List Row → List Row) : Type 0 where
  pub visit_only : (rows : List Row) (r : Row) → In r (visit rows) → In r rows
  pub visit_all : (rows : List Row) (r : Row) → In r rows → In r (visit rows)

module _ (visit : List Row → List Row) (laws : VisitLaws visit) where
  -- The row of an index that is offered.
  offered :
      (w : WalletType) (a : AddressType) (db : SignerDb) (j : ℤ)
      → IsWf db
      → get_unused_index visit w a db ≡ ok j
      → j ≢ negsuc 0
      → (r : Row) × (find_row r.path db.bip32 ≡ some r)
        × (unused r ≡ true)
        × (get_bip32_path db.chain w a j ≡ ok r.path)
  unfolding get_unused_index
  offered w a db j wf e some_index =
      let (type, e1, e2) = ok->>= (get_bip32_type w a) _ j e in
      go type e1 (filter_rows (λ r. text_eq r.type type && unused r) (visit db.bip32)) refl e2
    where
      go :
          (type : Text)
          → get_bip32_type w a ≡ ok type
          → (found : List Row)
          → filter_rows (λ r. text_eq r.type type && unused r) (visit db.bip32) ≡ found
          → first_index found ≡ ok j
          → (r : Row) × (find_row r.path db.bip32 ≡ some r)
            × (unused r ≡ true)
            × (get_bip32_path db.chain w a j ≡ ok r.path)
      go type e1 [] _ h = elim (some_index cc) [ ]
      go type e1 (r ∷ rest) first h =
          let (i, met) = filter_rows-first _ (visit db.bip32) rest r first in
          let stands : In r db.bip32 = laws.visit_only db.bip32 r i in
          let (same_type, is_unused) : (text_eq r.type type ≡ true) × (unused r ≡ true) =
            (ground arith, ground arith) in
          let type_is : get_bip32_type w a ≡ ok r.type =
            e1 ∙ ap ok (sym ((text_eq_iff r.type type).0 same_type)) in
          let m : Made db.chain r =
            IsSound-Made db.chain r w a (All-In _ db.bip32 r wf.1 stands) type_is in
          let index : m.index ≡ j = ground (arith, Made-index db.chain r m) in
          (
            r,
            find_row-In db.bip32 r wf.0 stands,
            is_unused,
            subst (λ k. get_bip32_path db.chain w a k ≡ ok r.path) index
                (Made-path db.chain r m w a type_is),
          )

  -- In a well-formed table, if SQLite visits its rows and all of them, an index that GetUnusedIndex
  -- offers, not -1, is one for which UseIndex does not throw and answers true.
  pub get_unused_index-use_index :
      (w : WalletType) (a : AddressType) (db : SignerDb) (j : ℤ)
      → IsWf db
      → get_unused_index visit w a db ≡ ok j
      → j ≢ negsuc 0
      → (db2 : SignerDb) × (use_index w a j db ≡ ok (true, db2))
  unfolding use_index
  get_unused_index-use_index w a db j wf e h =
      let (r, found, is_unused, path_is) = offered w a db j wf e h in
      let one : changes r.path db.bip32 ≡ 1 =
        changes-unused r.path db.bip32 r wf.0 found is_unused in
      (record db { bip32 = map (use_row r.path) db.bip32 }, rw path_is (rw one refl))

  -- The row that UseIndex has found is used from then on.
  used_row_stays :
      (w : WalletType) (a : AddressType) (i : ℤ) (db db1 db2 : SignerDb) (path : Text)
      → get_bip32_path db.chain w a i ≡ ok path
      → use_index w a i db ≡ ok (true, db1)
      → Steps db1 db2
      → IsTaken path db2.bip32
  used_row_stays w a i db db1 db2 path path_is used steps =
      let (p, p1, one, d1) = use_index-result w a i db db1 true used in
      let same : p ≡ path = cc in
      let found : find_row p db.bip32 ≢ none =
        changed-find_row p db.bip32 (λ z. true≢false (one ∙ ap (λ n. n == 1) z)) in
      Steps-IsTaken path db1 db2 steps (elim (Option-cases (find_row p db.bip32)) [
        | inl missing ↦ elim (found missing) [ ]
        | inr (r, e) ↦
            subst (λ q. IsTaken q db1.bip32) same
              (subst (λ d. IsTaken p d.bip32) (sym d1) (use-IsTaken p db.bip32 r e))
      ])

  -- Once UseIndex has answered true for an index of a wallet type, GetUnusedIndex never offers that
  -- index for the type again, whatever calls of InitSigner, AddXPub at an int index, AddXPub at a path
  -- with the type "custom" and UseIndex are made in between, so long as the signer is not deleted;
  -- where the table is well-formed at first, the index is not -1, the answer that stands for none, and
  -- SQLite visits the rows of the table and no other.
  pub used_index_gone :
      (w : WalletType) (a : AddressType) (i j : ℤ) (db db1 db2 : SignerDb)
      → IsWf db
      → i ≢ negsuc 0
      → use_index w a i db ≡ ok (true, db1)
      → Steps db1 db2
      → get_unused_index visit w a db2 ≡ ok j
      → j ≢ i
  used_index_gone w a i j db db1 db2 wf some_index used steps offer same =
      let (wf1, chain1) = Steps-IsWf db db1 wf (more done (use_one w a i true used)) in
      let (wf2, chain2) = Steps-IsWf db1 db2 wf1 steps in
      let (r, found, is_unused, path_is) =
        offered w a db2 j wf2 offer (λ none_left. some_index (sym same ∙ none_left)) in
      let path_was : get_bip32_path db.chain w a i ≡ ok r.path =
        ap (λ c. get_bip32_path c w a i) (sym (chain2 ∙ chain1))
        ∙ ap (get_bip32_path db2.chain w a) (sym same)
        ∙ path_is in
      let (q, found_q, taken) = used_row_stays w a i db db1 db2 r.path path_was used steps in
      let one_row : q ≡ r = cc in true≢false (sym is_unused ∙ ap unused (sym one_row) ∙ taken)
