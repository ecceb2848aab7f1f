-- ===== src/CoinSelector/Totals.antt =====
-- Sums of amounts: of outputs, and of coins; and how the code's updates change them.
use libnunchuk.Base.{◌≡◌, refl, ap, List, [], ◌∷◌, ◌++◌, some, true, ◌||◌, arith}
use libnunchuk.Base.Int.{ℤ, pos, ◌+ℤ◌, int_laws, parts}
use libnunchuk.Base.Lists.{All}
use libnunchuk.Base.Text.{Text}
use libnunchuk.Types.{TxOutput}
use libnunchuk.CoinSelector.Bitcoin.{Coin, Bitcoin}
use libnunchuk.CoinSelector.Choose.{insert_coin}
use libnunchuk.CoinSelector.Pay.{add_amounts}
use libnunchuk.CoinSelector.Pass.{add_last}

-- The sum of the amounts of outputs.
abbrev pub total : List TxOutput → ℤ
total [] = pos 0
total ((_, amount) ∷ os) = amount +ℤ total os

-- The sum of the values of coins.
abbrev pub worth : {H : Type 0} → List (Coin H) → ℤ
worth [] = pos 0
worth (c ∷ cs) = c.value +ℤ worth cs

pub total-append : (xs ys : List TxOutput) → total (xs ++ ys) ≡ total xs +ℤ total ys
total-append [] ys = omega int_laws
total-append (x ∷ xs) ys = omega (int_laws, parts (total-append xs ys))

pub add_amounts-total :
    (value : ℤ) (rs : List TxOutput) {v : ℤ} → add_amounts value rs ≡ some v → v ≡ value +ℤ total rs
unfolding add_amounts
add_amounts-total value [] h = grind int_laws
add_amounts-total value (r ∷ rs) h = grind (int_laws, add_amounts-total (value +ℤ r.1) rs)

-- Adding to the last output changes that one alone.
pub add_last-append :
    (d : ℤ) (xs : List TxOutput) (address : Text) (amount : ℤ)
    → add_last d (xs ++ (address, amount) ∷ []) ≡ xs ++ (address, amount +ℤ d) ∷ []
unfolding add_last
add_last-append d [] address amount = refl
add_last-append d (x ∷ []) address amount = refl
add_last-append d (x ∷ y ∷ xs) address amount =
    ap (λ l. x ∷ l) (add_last-append d (y ∷ xs) address amount)

module _ (b : Bitcoin) where
  open b use {Hash, coin_lt}

  -- Two coins that std::set keeps apart.
  abbrev pub Differs : Coin Hash → Coin Hash → Type 0
  Differs c d = (coin_lt c d || coin_lt d c) ≡ true

  pub All-insert_coin :
      (P : Coin Hash → Type 0) (c : Coin Hash) (s : List (Coin Hash))
      → P c
      → All P s
      → All P (insert_coin b c s)
  unfolding insert_coin
  All-insert_coin P c [] h k = (h, k)
  All-insert_coin P c (x ∷ xs) h k = ground (arith, All-insert_coin P c xs h k.1)

  -- Inserting a coin that differs from all adds its value.
  pub worth-insert_coin :
      (c : Coin Hash) (s : List (Coin Hash))
      → All (Differs c) s
      → worth (insert_coin b c s) ≡ c.value +ℤ worth s
  unfolding insert_coin
  worth-insert_coin c [] h = refl
  worth-insert_coin c (x ∷ xs) h = grind (int_laws, worth-insert_coin c xs h.1)
