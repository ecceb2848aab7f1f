-- ===== src/WalletDb/Current.antt =====
-- The current index of a wallet's addresses, and the address that is added behind it.
use libnunchuk.Base.{
  ◌≡◌, refl, sym, ap, ◌∙◌, List, [], ◌∷◌, ◌++◌, Option, none, some, Bool, true, false, not, arith,
  Bool-cases, inl, inr, if◌then◌else◌,
}
use libnunchuk.Base.Int.{ℤ, pos, ◌+ℤ◌, ltb_ℤ, int_laws}
use libnunchuk.Base.Lists.{any}
use libnunchuk.Base.Text.{Text}
use libnunchuk.Types.{ok}
use libnunchuk.WalletDb.{
  Address, new_address, add_address, bool_eq, has_addr, max_index, max_of, or_minus_one,
  get_current_address_index,
}

max_of-append :
    (i : Bool) (m : Option ℤ) (rows : List Address) (r : Address)
    → max_of i m (rows ++ r ∷ [])
      ≡ (if bool_eq r.internal i then max_index (max_of i m rows) r.idx else max_of i m rows)
unfolding max_of
max_of-append i m [] r = refl
max_of-append i m (q ∷ rows) r =
    max_of-append i (if bool_eq q.internal i then max_index m q.idx else m) rows r

next_index :
    (m : Option ℤ) → or_minus_one (max_index m (or_minus_one m +ℤ pos 1)) ≡ or_minus_one m +ℤ pos 1
next_index none = refl
next_index (some m) = let above : ltb_ℤ m (m +ℤ pos 1) ≡ true = grind int_laws in rw above refl

same_side : (i : Bool) → bool_eq i i ≡ true
same_side true = refl
same_side false = refl

other_side : (i : Bool) → bool_eq i (not i) ≡ false
other_side true = refl
other_side false = refl

-- Adding an address at the index behind the current one makes that index the current one of its
-- side, external or internal, and leaves the other side's.
pub add_address-get_current_address_index :
    (address : Text) (i b : Bool) (rows rows2 : List Address)
    → add_address address (get_current_address_index i rows +ℤ pos 1) i rows ≡ ok (b, rows2)
    → (get_current_address_index i rows2 ≡ get_current_address_index i rows +ℤ pos 1)
      × (get_current_address_index (not i) rows2 ≡ get_current_address_index (not i) rows)
unfolding add_address get_current_address_index
add_address-get_current_address_index address i b rows rows2 e =
    let new = new_address address (get_current_address_index i rows +ℤ pos 1) i in
    elim (Bool-cases (any (has_addr address) rows)) [
      | inl there ↦ ground arith
      | inr fresh ↦
          let added : rows ++ new ∷ [] ≡ rows2 = ground arith in
          (
            ap (λ t. or_minus_one (max_of i none t)) (sym added)
                ∙ ap or_minus_one (max_of-append i none rows new)
                ∙ rw (same_side i) (next_index (max_of i none rows)),
            ap (λ t. or_minus_one (max_of (not i) none t)) (sym added)
                ∙ ap or_minus_one (max_of-append (not i) none rows new)
                ∙ rw (other_side i) refl,
          )
    ]
