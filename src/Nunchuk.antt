-- ===== src/Nunchuk.antt =====
-- src/nunchukimpl.cpp: the search for an unused address. What the search calls is an interface: the
-- addresses of a descriptor, LookAhead of the synchronizer and AddAddress of the storage, on a state.
pub mod Answers
pub mod Gap
mod NewAddress
pub mod LookAhead
mod Search
pub mod Wallets
mod Selected
mod Tests
use libnunchuk.Base.{
  ℕ, zero, suc, ◌+◌, ◌-◌, List, [], ◌∷◌, ◌++◌, Option, none, some, ◌==◌, Bool, true, false,
  if◌then◌else◌,
}
use libnunchuk.Base.Text.{Text}
use libnunchuk.Types.{Result, ok, throw, ◌>>=◌, std_exception}

pub record Calls (S : Type 0) : Type 0 where
  pub derive_address : ℕ → Text
  pub look_ahead : Text → ℕ → S → Result (Bool × S)
  pub add_address : Text → ℕ → S → Result S

-- The gap limit.
abbrev pub gap_limit : ℕ
gap_limit = 20

-- `unused_addresses[0]`, undefined in C++ where there is none.
abbrev pub first_address : List Text → Result Text
first_address [] = throw std_exception
first_address (a ∷ _) = ok a

module _ {S : Type 0} (calls : Calls S) where
  -- The outcome of a search: an address and its index, or an exception; none at the end of the fuel.
  abbrev pub Found : Type 0
  Found = Option (Result (Text × ℕ))

  -- All the skipped addresses get the index of the used one behind them.
  unfoldable pub add_all : List Text → ℕ → S → Result S
  add_all [] index s = ok s
  add_all (a ∷ addresses) index s = calls.add_address a index s >>= (λ t. add_all addresses index t)

  abbrev pub go_used : Result S → (S → Found) → Found
  go_used (throw e) next = some (throw e)
  go_used (ok s) next = next s

  abbrev pub go_unused : Bool → List Text → ℕ → S → (S → Found) → Found
  go_unused true addresses index s next =
      some (first_address addresses >>= (λ a. ok (a, index - gap_limit)))
  go_unused false addresses index s next = next s

  -- The two ways to go on, after a used address and after one that is not.
  abbrev pub after_look :
      List Text → Text → ℕ → ℕ → Result (Bool × S) → (S → Found) → (S → Found) → Found
  after_look unused address index count (throw e) used_next unused_next = some (throw e)
  after_look unused address index count (ok (true, s)) used_next unused_next =
      go_used (add_all unused index s) used_next
  after_look unused address index count (ok (false, s)) used_next unused_next =
      go_unused (count + 1 == gap_limit) (unused ++ address ∷ []) (index + 1) s unused_next

  -- The loop, from an index, with the number of addresses that were skipped and their list.
  unfoldable pub scan : ℕ → ℕ → ℕ → List Text → S → Found
  unfolding add_all
  scan zero index count unused s = none
  scan (suc fuel) index count unused s =
      let address = calls.derive_address index in
      after_look unused address index count (calls.look_ahead address index s)
        (λ t. scan fuel (index + 1) 0 [] t)
        (λ t. scan fuel (index + 1) (count + 1) (unused ++ address ∷ []) t)

  unfoldable pub get_unused_address : ℕ → ℕ → S → Found
  unfolding scan
  get_unused_address fuel index s = scan fuel index 0 [] s

  -- NewAddress
  abbrev pub after_new : Text → ℕ → Result (Bool × S) → (S → Found) → Found
  after_new address index (throw e) next = some (throw e)
  after_new address index (ok (true, s)) next = next s
  after_new address index (ok (false, s)) next =
      some (calls.add_address address index s >>= (λ t. ok (address, index)))

  -- From the index behind that of the newest address.
  unfoldable pub new_address : ℕ → ℕ → S → Found
  new_address zero index s = none
  new_address (suc fuel) index s =
      let address = calls.derive_address index in
      after_new address index (calls.look_ahead address index s)
        (λ t. new_address fuel (index + 1) t)
