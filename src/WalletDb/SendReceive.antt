-- ===== src/WalletDb/SendReceive.antt =====
-- FillSendReceiveData of src/storage.cpp: whether a transaction is sent or received, and how much.
use libnunchuk.Base.{
  ℕ, ◌≡◌, refl, sym, ap, ◌∙◌, List, [], ◌∷◌, ◌++◌, Option, none, some, Bool, true, false, not, inl,
  inr, Bool-cases, if◌then◌else◌,
}
use mathlib.Core.List.{append_assoc, append-nil}
use libnunchuk.Base.Int.{pos, ◌+ℤ◌, int_laws, parts, zero_add}
use libnunchuk.Base.Lists.{any, get_elem?}
use libnunchuk.Base.Text.{Text, text_eq}
use libnunchuk.Types.{
  Amount, TxInput, TxOutput, Result, ok, throw, ◌>>=◌, tx_not_found, std_exception,
}

-- The fields of Transaction that the call reads and sets.
pub record Transfer : Type 0 where
  pub inputs : List TxInput
  pub outputs : List TxOutput
  pub fee : Amount
  pub receive : Bool
  pub sub_amount : Amount
  pub receive_outputs : List TxOutput

abbrev pub is_my_address : List Text → Text → Bool
is_my_address addresses address = any (text_eq address) addresses

-- The loop over the outputs of a transaction that is sent, from the amount so far.
unfoldable pub add_sent : List Text → Amount → List TxOutput → Amount
add_sent mine sum [] = sum
add_sent mine sum ((address, amount) ∷ os) =
    add_sent mine (if not (is_my_address mine address) then sum +ℤ amount else sum) os

-- The loop of a transaction that is received: the amount, and the outputs that are listed.
unfoldable pub add_received :
    List Text → Amount × List TxOutput → List TxOutput → Amount × List TxOutput
add_received mine (sum, listed) [] = (sum, listed)
add_received mine (sum, listed) ((address, amount) ∷ os) =
    add_received mine
      (if is_my_address mine address
        then (sum +ℤ amount, listed ++ (address, amount) ∷ [])
        else (sum, listed))
      os

-- The address of the output that the first input spends: none is known, as "", where the
-- transaction is not in the wallet. An output that the transaction has not is undefined in C++; the
-- model throws there.
abbrev pub output_address : Option TxOutput → Result Text
output_address none = throw std_exception
output_address (some (address, amount)) = ok address

abbrev pub known_address : ℕ → Result (List TxOutput) → Result Text
known_address n (ok outputs) = output_address (get_elem? outputs n)
known_address n (throw tx_not_found) = ok []
known_address n (throw e) = throw e

-- The lookup of the outputs of a transaction is GetTransaction.
abbrev pub prev_address : (Text → Result (List TxOutput)) → List TxInput → Result Text
prev_address lookup [] = throw std_exception
prev_address lookup ((txid, n) ∷ _) = known_address n (lookup txid)

abbrev pub filled : List Text → Transfer → Bool → Transfer
filled mine tx true = record tx { receive = false; sub_amount = add_sent mine tx.fee tx.outputs }
filled mine tx false =
    let (sum, listed) = add_received mine (pos 0, tx.receive_outputs) tx.outputs in
    record tx { receive = true; sub_amount = sum; receive_outputs = listed }

unfoldable pub fill_send_receive_data :
    (Text → Result (List TxOutput)) → List Text → Transfer → Result Transfer
unfolding add_sent add_received
fill_send_receive_data lookup mine tx = do
  address ← prev_address lookup tx.inputs
  ok (filled mine tx (is_my_address mine address))

-- The outputs to addresses of the wallet, and their sum and the sum of all.
unfoldable pub own_outputs : List Text → List TxOutput → List TxOutput
own_outputs mine [] = []
own_outputs mine ((address, amount) ∷ os) =
    let rest = own_outputs mine os in
    if is_my_address mine address then (address, amount) ∷ rest else rest

abbrev pub sum_of : List TxOutput → Amount
sum_of [] = pos 0
sum_of ((_, amount) ∷ os) = amount +ℤ sum_of os

add_sent-balance :
    (mine : List Text) (sum : Amount) (os : List TxOutput)
    → add_sent mine sum os +ℤ sum_of (own_outputs mine os) ≡ sum +ℤ sum_of os
unfolding add_sent own_outputs
add_sent-balance mine sum [] = refl
add_sent-balance mine sum ((address, amount) ∷ os) =
    elim (Bool-cases (is_my_address mine address)) [
      | inl e ↦ rw e (omega (int_laws, parts (add_sent-balance mine sum os)))
      | inr e ↦ rw e (omega (int_laws, parts (add_sent-balance mine (sum +ℤ amount) os)))
    ]

add_received-own :
    (mine : List Text) (sum : Amount) (listed os : List TxOutput)
    → ((add_received mine (sum, listed) os).0 ≡ sum +ℤ sum_of (own_outputs mine os))
      × ((add_received mine (sum, listed) os).1 ≡ listed ++ own_outputs mine os)
unfolding add_received own_outputs
add_received-own mine sum listed [] = (omega int_laws, sym (append-nil listed))
add_received-own mine sum listed ((address, amount) ∷ os) =
    elim (Bool-cases (is_my_address mine address)) [
      | inl e ↦
          let (amounts, lists) =
            add_received-own mine (sum +ℤ amount) (listed ++ (address, amount) ∷ []) os in
          rw e (
            omega (int_laws, parts amounts),
            lists ∙ append_assoc listed ((address, amount) ∷ []) (own_outputs mine os),
          )
      | inr e ↦ rw e (add_received-own mine sum listed os)
    ]

-- What a transaction of a wallet sends: the fee and all outputs less those that come back to it.
abbrev IsSent : List Text → Transfer → Transfer → Type 0
IsSent mine tx t =
    (t.receive ≡ false)
    × (t.sub_amount +ℤ sum_of (own_outputs mine tx.outputs) ≡ tx.fee +ℤ sum_of tx.outputs)
    × (t.receive_outputs ≡ tx.receive_outputs)

-- What it receives: the outputs to the wallet, which are listed.
abbrev IsReceived : List Text → Transfer → Transfer → Type 0
IsReceived mine tx t =
    (t.receive ≡ true)
    × (t.sub_amount ≡ sum_of (own_outputs mine tx.outputs))
    × (t.receive_outputs ≡ tx.receive_outputs ++ own_outputs mine tx.outputs)

abbrev pub IsFilled : List Text → Transfer → Transfer → Bool → Type 0
IsFilled mine tx t true = IsSent mine tx t
IsFilled mine tx t false = IsReceived mine tx t

filled-IsFilled :
    (mine : List Text) (tx : Transfer) (own : Bool) → IsFilled mine tx (filled mine tx own) own
filled-IsFilled mine tx true = (refl, add_sent-balance mine tx.fee tx.outputs, refl)
filled-IsFilled mine tx false =
    let (amounts, lists) = add_received-own mine (pos 0) tx.receive_outputs tx.outputs in
    (refl, amounts ∙ zero_add (sum_of (own_outputs mine tx.outputs)), lists)

-- The address of an output, where its transaction is in the wallet; none, as "", where it is not.
pub data Spent (lookup : Text → Result (List TxOutput)) (txid : Text) (n : ℕ) (address : Text)
    : Type 0 where
  known :
      (outputs : List TxOutput) (amount : Amount)
      → lookup txid ≡ ok outputs
      → get_elem? outputs n ≡ some (address, amount)
      → Spent lookup txid n address
  unknown : lookup txid ≡ throw tx_not_found → address ≡ [] → Spent lookup txid n address

known_address-Spent :
    (lookup : Text → Result (List TxOutput)) (txid : Text) (n : ℕ) (address : Text)
    → Spent lookup txid n address
    → known_address n (lookup txid) ≡ ok address
known_address-Spent lookup txid n address (known outputs amount e k) =
    ap (known_address n) e ∙ ap output_address k
known_address-Spent lookup txid n address (unknown e k) = ap (known_address n) e ∙ ap ok (sym k)

-- FillSendReceiveData of a transaction whose first input spends an output of a transaction that
-- GetTransaction gives, or that is not in the wallet, does not throw. If the address of that output is
-- the wallet's, the transaction is sent, and its amount with the outputs that come back is the fee
-- with all outputs; else, and with "" for an unknown transaction, it is received, its amount is the
-- sum of the outputs to the wallet, and these are listed behind those listed before.
pub fill_send_receive_data-IsFilled :
    (lookup : Text → Result (List TxOutput)) (mine : List Text) (tx : Transfer) (txid : Text)
    (n : ℕ) (inputs : List TxInput) (address : Text)
    → tx.inputs ≡ (txid, n) ∷ inputs
    → Spent lookup txid n address
    → (t : Transfer) × (fill_send_receive_data lookup mine tx ≡ ok t)
      × IsFilled mine tx t (is_my_address mine address)
unfolding fill_send_receive_data
fill_send_receive_data-IsFilled lookup mine tx txid n inputs address first spent = (
  filled mine tx (is_my_address mine address),
  ap (λ i. ◌>>=◌ (prev_address lookup i) (λ a. ok (filled mine tx (is_my_address mine a)))) first
      ∙ ap (λ r. ◌>>=◌ r (λ a. ok (filled mine tx (is_my_address mine a))))
          (known_address-Spent lookup txid n address spent),
  filled-IsFilled mine tx (is_my_address mine address),
)
