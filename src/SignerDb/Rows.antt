-- ===== src/SignerDb/Rows.antt =====
-- What the statements on BIP32 do to the row of a path.
use libnunchuk.Base.{
  ◌≡◌, ◌≢◌, refl, subst, List, [], ◌∷◌, Option, none, some, Bool, true, false, map, arith,
  Bool-cases, inl, inr,
}
use libnunchuk.Base.Int.{negsuc}
use libnunchuk.Base.Lists.{All}
use libnunchuk.Base.Text.{Text, text_eq, text_eq_iff, text_eq_refl}
use libnunchuk.SignerDb.{Row, unused, upsert, unused_at, use_row, changes, find_row, filter_rows}

-- A row of the list.
pub data In (r : Row) : List Row → Type 0 where
  here : {rows : List Row} → In r (r ∷ rows)
  there : {q : Row} {rows : List Row} → In r rows → In r (q ∷ rows)

-- No two rows have the same path: PATH is the primary key.
abbrev pub DistinctPaths : List Row → Type 0
DistinctPaths [] = Unit
DistinctPaths (r ∷ rows) = All (λ q. text_eq q.path r.path ≡ false) rows × DistinctPaths rows

pub text_neq : (s t : Text) → s ≢ t → text_eq s t ≡ false
text_neq s t h = ground (arith, text_eq_iff s t)

pub text_eq_sym : (s t : Text) → text_eq s t ≡ false → text_eq t s ≡ false
text_eq_sym s t h = ground (arith, text_eq_iff s t, text_eq_iff t s)

pub All-In {κ} : (P : Row → Type κ) (rows : List Row) (r : Row) → All P rows → In r rows → P r
All-In P [] r h i = elim i [ ]
All-In P (q ∷ rows) _ h here = h.0
All-In P (q ∷ rows) r h (there i) = All-In P rows r h.1 i

-- A row that stands in the table is the one that is found at its path.
pub find_row-In :
    (rows : List Row) (r : Row) → DistinctPaths rows → In r rows → find_row r.path rows ≡ some r
unfolding find_row
find_row-In [] r h i = elim i [ ]
find_row-In (q ∷ rows) _ h here = rw (text_eq_refl q.path) refl
find_row-In (q ∷ rows) r h (there i) =
    rw (text_eq_sym r.path q.path (All-In _ rows r h.0 i)) (find_row-In rows r h.1 i)

-- The row that is found stands in the table.
pub In-find_row :
    (path : Text) (rows : List Row) (r : Row) → find_row path rows ≡ some r → In r rows
unfolding find_row
In-find_row path [] r h = cc
In-find_row path (q ∷ rows) r h = elim (Bool-cases (text_eq q.path path)) [
  | inl e ↦ let same : q ≡ r = ground arith in subst (λ x. In x (q ∷ rows)) same here
  | inr e ↦ there (In-find_row path rows r (ground arith))
]

-- What the insertion of a key leaves at its path.
abbrev pub inserted : Text → Text → Text → Option Row → Row
inserted path xpub type none = record { path = path; xpub = xpub; type = type; used = negsuc 0 }
inserted path xpub type (some r) = record r { xpub = xpub }

pub find_row-upsert :
    (path xpub type : Text) (rows : List Row)
    → find_row path (upsert path xpub type rows)
      ≡ some (inserted path xpub type (find_row path rows))
unfolding find_row upsert
find_row-upsert path xpub type [] = rw (text_eq_refl path) refl
find_row-upsert path xpub type (r ∷ rows) = elim (Bool-cases (text_eq r.path path)) [
  | inl e ↦ rw e (rw e refl)
  | inr e ↦ rw e (rw e (find_row-upsert path xpub type rows))
]

pub find_row-upsert_other :
    (path xpub type other : Text) (rows : List Row)
    → text_eq path other ≡ false
    → find_row other (upsert path xpub type rows) ≡ find_row other rows
unfolding find_row upsert
find_row-upsert_other path xpub type other [] h = rw h refl
find_row-upsert_other path xpub type other (r ∷ rows) h =
    ground (arith, find_row-upsert_other path xpub type other rows h, text_eq_iff r.path path)

pub find_row-use :
    (path : Text) (rows : List Row) (r : Row)
    → find_row path rows ≡ some r
    → find_row path (map (use_row path) rows) ≡ some (use_row path r)
unfolding find_row
find_row-use path [] r h = cc
find_row-use path (q ∷ rows) r h = ground (arith, find_row-use path rows r, text_eq_iff q.path path)

pub find_row-use_other :
    (path other : Text) (rows : List Row)
    → text_eq path other ≡ false
    → find_row other (map (use_row path) rows) ≡ find_row other rows
unfolding find_row
find_row-use_other path other [] h = refl
find_row-use_other path other (r ∷ rows) h =
    ground (arith, find_row-use_other path other rows h, text_eq_iff r.path path)

pub find_row-path :
    (path : Text) (rows : List Row) (r : Row)
    → find_row path rows ≡ some r
    → text_eq r.path path ≡ true
unfolding find_row
find_row-path path [] r h = cc
find_row-path path (q ∷ rows) r h = ground (arith, find_row-path path rows r)

pub changes_none :
    (path : Text) (rows : List Row)
    → All (λ q. text_eq q.path path ≡ false) rows
    → changes path rows ≡ 0
unfolding changes
changes_none path [] h = refl
changes_none path (r ∷ rows) h = rw h.0 (changes_none path rows h.1)

same_path :
    (rows : List Row) (r : Row) (path : Text)
    → text_eq r.path path ≡ true
    → All (λ q. text_eq q.path r.path ≡ false) rows
    → All (λ q. text_eq q.path path ≡ false) rows
same_path rows r path e =
    subst (λ p. All (λ q. text_eq q.path p ≡ false) rows) ((text_eq_iff r.path path).0 e)

-- An unused row is the one row that the statement of UseIndex changes.
pub changes-unused :
    (path : Text) (rows : List Row) (r : Row)
    → DistinctPaths rows
    → find_row path rows ≡ some r
    → unused r ≡ true
    → changes path rows ≡ 1
unfolding find_row changes
changes-unused path [] r d h u = cc
changes-unused path (q ∷ rows) r d h u = elim (Bool-cases (text_eq q.path path)) [
  | inl e ↦
      let none_behind : changes path rows ≡ 0 =
        changes_none path rows (same_path rows q path e d.0) in
      ground (arith, none_behind)
  | inr e ↦ ground (arith, changes-unused path rows r d.1)
]

-- Where UseIndex reports a change there was an unused row at the path.
pub changed-find_row :
    (path : Text) (rows : List Row) → changes path rows ≢ 0 → find_row path rows ≢ none
unfolding find_row changes
changed-find_row path [] h e = h refl
changed-find_row path (q ∷ rows) h e = ground (arith, changed-find_row path rows)

-- The first row of a condition stands in the table and meets the condition.
pub filter_rows-first :
    (p : Row → Bool) (rows rest : List Row) (r : Row)
    → filter_rows p rows ≡ r ∷ rest
    → In r rows × (p r ≡ true)
unfolding filter_rows
filter_rows-first p [] rest r h = cc
filter_rows-first p (q ∷ rows) rest r h = elim (Bool-cases (p q)) [
  | inl e ↦
      let same : q ≡ r = ground arith in
      (subst (λ x. In x (q ∷ rows)) same here, subst (λ x. p x ≡ true) same e)
  | inr e ↦ let (i, met) = filter_rows-first p rows rest r ground arith in (there i, met)
]

upsert-All :
    (path xpub type other : Text) (rows : List Row)
    → text_eq path other ≡ false
    → All (λ q. text_eq q.path other ≡ false) rows
    → All (λ q. text_eq q.path other ≡ false) (upsert path xpub type rows)
unfolding upsert
upsert-All path xpub type other [] e h = (e, tt)
upsert-All path xpub type other (r ∷ rows) e h = elim (Bool-cases (text_eq r.path path)) [
  | inl same ↦ rw same h
  | inr differ ↦ rw differ (h.0, upsert-All path xpub type other rows e h.1)
]

use-All :
    (path other : Text) (rows : List Row)
    → All (λ q. text_eq q.path other ≡ false) rows
    → All (λ q. text_eq q.path other ≡ false) (map (use_row path) rows)
use-All path other [] h = tt
use-All path other (r ∷ rows) h = elim (Bool-cases (unused_at path r)) [
  | inl e ↦ rw e (h.0, use-All path other rows h.1)
  | inr e ↦ rw e (h.0, use-All path other rows h.1)
]

pub filter_rows-In :
    (p : Row → Bool) (rows : List Row) (r : Row)
    → In r rows
    → p r ≡ true
    → In r (filter_rows p rows)
unfolding filter_rows
filter_rows-In p [] r i e = elim i [ ]
filter_rows-In p (q ∷ rows) _ here e = rw e here
filter_rows-In p (q ∷ rows) r (there i) e = elim (Bool-cases (p q)) [
  | inl f ↦ rw f (there (filter_rows-In p rows r i e))
  | inr f ↦ rw f (filter_rows-In p rows r i e)
]

-- The paths stay different.
pub upsert-DistinctPaths :
    (path xpub type : Text) (rows : List Row)
    → DistinctPaths rows
    → DistinctPaths (upsert path xpub type rows)
unfolding upsert
upsert-DistinctPaths path xpub type [] d = (tt, tt)
upsert-DistinctPaths path xpub type (r ∷ rows) d = elim (Bool-cases (text_eq r.path path)) [
  | inl e ↦ rw e d
  | inr e ↦ rw e (
    upsert-All path xpub type r.path rows (text_eq_sym r.path path e) d.0,
    upsert-DistinctPaths path xpub type rows d.1,
  )
]

pub use-DistinctPaths :
    (path : Text) (rows : List Row) → DistinctPaths rows → DistinctPaths (map (use_row path) rows)
use-DistinctPaths path [] d = tt
use-DistinctPaths path (r ∷ rows) d = elim (Bool-cases (unused_at path r)) [
  | inl e ↦ rw e (use-All path r.path rows d.0, use-DistinctPaths path rows d.1)
  | inr e ↦ rw e (use-All path r.path rows d.0, use-DistinctPaths path rows d.1)
]
