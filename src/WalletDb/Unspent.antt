-- ===== src/WalletDb/Unspent.antt =====
-- GetUnspentOutputs without the locked outputs, by the inputs themselves in place of their texts.
use libnunchuk.Base.{
  ◌≡◌, refl, sym, ap, ◌∙◌, List, [], ◌∷◌, ◌++◌, Option, none, some, Bool, true, false, ◌&&◌, ◌||◌,
  arith, map, Bool-cases, inl, inr, if◌then◌else◌,
}
use libnunchuk.Base.Int.{ℤ, pos, eqb_ℤ}
use libnunchuk.Base.Lists.{any}
use libnunchuk.Base.Text.{Text, text_eq}
use libnunchuk.Types.{TxInput, UnspentOutput, Result, ok, throw, ok->>=, ◌>>=◌}
use libnunchuk.WalletDb.{
  Address, Item, Tx, input_str, locked_utxos, unlocked, unspent_of, add_item, join, unspent_at,
  unspent_row, unspent_rows, get_unspent_outputs,
}
use libnunchuk.WalletDb.InputStr.{same_input, text_eq-input_str}

-- Whether a transaction of the mempool, at height 0, has the input.
abbrev pub is_spent : List Tx → TxInput → Bool
is_spent [] i = false
is_spent (tx ∷ txs) i = (eqb_ℤ tx.height (pos 0) && any (same_input i) tx.inputs) || is_spent txs i

-- The outputs that no transaction of the mempool spends.
unfoldable pub keep_unspent : List Tx → List UnspentOutput → List UnspentOutput
keep_unspent txs [] = []
keep_unspent txs (u ∷ us) =
    let rest = keep_unspent txs us in if is_spent txs (u.txid, u.vout) then rest else u ∷ rest

any-append : (p : Text → Bool) (xs ys : List Text) → any p (xs ++ ys) ≡ (any p xs || any p ys)
any-append p [] ys = refl
any-append p (x ∷ xs) ys = ground (arith, any-append p xs ys)

any-inputs :
    (i : TxInput) (js : List TxInput)
    → any (text_eq (input_str i)) (map input_str js) ≡ any (same_input i) js
any-inputs i [] = refl
any-inputs i (j ∷ js) = rw (text_eq-input_str i j, any-inputs i js) refl

any-locked_utxos :
    (i : TxInput) (txs : List Tx) → any (text_eq (input_str i)) (locked_utxos txs) ≡ is_spent txs i
unfolding locked_utxos
any-locked_utxos i [] = refl
any-locked_utxos i (tx ∷ txs) = elim (Bool-cases (eqb_ℤ tx.height (pos 0))) [
  | inl e ↦ rw e (
      any-append (text_eq (input_str i)) (map input_str tx.inputs) (locked_utxos txs)
      ∙ rw (any-inputs i tx.inputs, any-locked_utxos i txs) refl)
  | inr e ↦ rw e (any-locked_utxos i txs)
]

keep_unspent-append :
    (txs : List Tx) (us vs : List UnspentOutput)
    → keep_unspent txs (us ++ vs) ≡ keep_unspent txs us ++ keep_unspent txs vs
unfolding keep_unspent
keep_unspent-append txs [] vs = refl
keep_unspent-append txs (u ∷ us) vs = elim (Bool-cases (is_spent txs (u.txid, u.vout))) [
  | inl e ↦ rw e (keep_unspent-append txs us vs)
  | inr e ↦ rw e (ap (λ l. u ∷ l) (keep_unspent-append txs us vs))
]

add_item-ok :
    (address : Text) (item : Item) (o : Option (ℤ × ℤ)) (rest : Result (List UnspentOutput))
    (us : List UnspentOutput)
    → add_item address item o rest ≡ ok us
    → (value : ℤ) × (height : ℤ) × (vs : List UnspentOutput) × (o ≡ some (value, height))
      × (rest ≡ ok vs)
      × (us ≡ unspent_of address item value height ∷ vs)
add_item-ok address item none rest us h = cc
add_item-ok address item (some (value, height)) rest us h =
    let (vs, read, made) = ok->>= rest _ us h in (value, height, vs, refl, read, cc)

unlocked-keep_unspent :
    (txs : List Tx) (address : Text) (items : List Item) (us : List UnspentOutput)
    → unlocked [] address items ≡ ok us
    → unlocked (locked_utxos txs) address items ≡ ok (keep_unspent txs us)
unfolding unlocked keep_unspent
unlocked-keep_unspent txs address [] us h =
    let same : [] ≡ us = cc in ap (λ l. ok (keep_unspent txs l)) same
unlocked-keep_unspent txs address (item ∷ items) us h =
    let input : TxInput = (item.tx_hash, item.tx_pos) in
    let (value, height, vs, fields, read, made) =
      add_item-ok address item item.amounts (unlocked [] address items) us h in
    let rest = unlocked-keep_unspent txs address items vs read in
    let unspent = unspent_of address item value height in
    let first : unlocked (locked_utxos txs) address (item ∷ items)
        ≡ ok (keep_unspent txs (unspent ∷ vs)) =
      elim (Bool-cases (is_spent txs input)) [
        | inl e ↦ rw (any-locked_utxos input txs, e) rest
        | inr e ↦
            rw (any-locked_utxos input txs, e)
              (ap (λ o. add_item address item o (unlocked (locked_utxos txs) address items)) fields
                ∙ ap (λ r. add_item address item (some (value, height)) r) rest)
      ] in
    first ∙ ap (λ l. ok (keep_unspent txs l)) (sym made)

module _ (parse : Text → Option (List Item)) (visit : List Address → List Address) where
  unspent_row-keep_unspent :
      (txs : List Tx) (r : Address) (o : Option Text) (us : List UnspentOutput)
      → unspent_row parse visit [] r o ≡ ok us
      → unspent_row parse visit (locked_utxos txs) r o ≡ ok (keep_unspent txs us)
  unfolding keep_unspent
  unspent_row-keep_unspent txs r none us h =
      let same : [] ≡ us = cc in ap (λ l. ok (keep_unspent txs l)) same
  unspent_row-keep_unspent txs r (some utxo) us h = go (parse utxo) h
    where
      go :
          (o : Option (List Item))
          → unspent_at parse visit [] r.addr o ≡ ok us
          → unspent_at parse visit (locked_utxos txs) r.addr o ≡ ok (keep_unspent txs us)
      go none h = cc
      go (some items) h = unlocked-keep_unspent txs r.addr items us h

  join-ok :
      (a b : Result (List UnspentOutput)) (us : List UnspentOutput)
      → join a b ≡ ok us
      → (xs : List UnspentOutput) × (ys : List UnspentOutput) × (a ≡ ok xs)
        × (b ≡ ok ys)
        × (us ≡ xs ++ ys)
  join-ok (throw e) b us h = cc
  join-ok (ok xs) (throw e) us h = cc
  join-ok (ok xs) (ok ys) us h = (xs, ys, refl, refl, cc)

  unspent_rows-keep_unspent :
      (txs : List Tx) (rows : List Address) (us : List UnspentOutput)
      → unspent_rows parse visit [] rows ≡ ok us
      → unspent_rows parse visit (locked_utxos txs) rows ≡ ok (keep_unspent txs us)
  unfolding unspent_rows keep_unspent
  unspent_rows-keep_unspent txs [] us h =
      let same : [] ≡ us = cc in ap (λ l. ok (keep_unspent txs l)) same
  unspent_rows-keep_unspent txs (r ∷ rows) us h =
      let (xs, ys, first, rest, both) =
        join-ok (unspent_row parse visit [] r r.utxo) (unspent_rows parse visit [] rows) us h in
      ap (λ a. join a (unspent_rows parse visit (locked_utxos txs) rows))
        (unspent_row-keep_unspent txs r r.utxo xs first)
      ∙ ap (join (ok (keep_unspent txs xs))) (unspent_rows-keep_unspent txs rows ys rest)
      ∙ ap ok (sym (keep_unspent-append txs xs ys))
      ∙ ap (λ l. ok (keep_unspent txs l)) (sym both)

  -- Where GetUnspentOutputs does not throw for all outputs, the call without the locked outputs throws
  -- what GetTransactions throws, and else gives, of all outputs in their order, those that are the
  -- input of no transaction of the mempool: a text of an input never stands for another input.
  pub get_unspent_outputs-keep_unspent :
      (get_transactions : Result (List Tx)) (rows : List Address) (us : List UnspentOutput)
      → get_unspent_outputs parse visit false get_transactions rows ≡ ok us
      → get_unspent_outputs parse visit true get_transactions rows
        ≡ (get_transactions >>= (λ txs. ok (keep_unspent txs us)))
  unfolding get_unspent_outputs locked_utxos
  get_unspent_outputs-keep_unspent (throw e) rows us h = refl
  get_unspent_outputs-keep_unspent (ok txs) rows us h =
      unspent_rows-keep_unspent txs (visit rows) us h
