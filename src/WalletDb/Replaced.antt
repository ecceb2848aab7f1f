-- ===== src/WalletDb/Replaced.antt =====
-- The transaction that another one replaces, in the table VTX of src/storage.cpp.
use libnunchuk.Base.{◌≡◌, refl, sym, ap, ◌∙◌, List, Option, none, some, Bool, true, false}
use libnunchuk.Base.Int.{ℤ, pos, negsuc, eqb_ℤ, ltb_ℤ, leb_ℤ}
use libnunchuk.Base.Lists.{any}
use libnunchuk.Base.Text.{Text}
use libnunchuk.Types.{pending_confirmation, replaced, Result, ok, throw, ok->>=, ◌>>=◌}
use libnunchuk.WalletDb.Transaction.{
  Transaction, RawTransaction, Psbt, Extra, status_at, from_raw, from_psbt, fill_extra, fill_rest,
  fill_known, fill_replaced, fill_signers,
}
use libnunchuk.WalletDb.Transactions.{
  TxRow, Tables, bind, has_id, is_pending, pending_with, find_tx, update_txs, with_row,
  replaced_row, replace_extra, replace_found, set_replaced_by,
}
use libnunchuk.WalletDb.Broadcast.{
  sent_row, signed_extra, found_transaction, decoded, read_mined, write_sent, mark_replaced,
  after_mark, keep_extra, keep_pending, update_at, update_unless, update_transaction,
}
use libnunchuk.WalletDb.TxRows.{find-any, any-update}

abbrev pub replaced_by : Text → Transaction → Transaction
replaced_by id tx = record tx { status = some replaced; replaced_by_txid = id }

-- What FillExtra makes of a transaction that waits for its confirmation, once it is marked.
fill_replaced-marked :
    (o : Option Text) (id : Text) (tx : Transaction)
    → fill_replaced (some pending_confirmation) (some id) tx
      ≡ replaced_by id (fill_replaced (some pending_confirmation) o tx)
fill_replaced-marked none id tx = refl
fill_replaced-marked (some i) id tx = refl

fill_rest-marked :
    (id : Text) (extra : Extra) (tx : Transaction) (signers : List (Text × Bool))
    → tx.status ≡ some pending_confirmation
    → fill_rest (record extra { replaced_by_txid = some id }) tx signers
      ≡ replaced_by id (fill_rest extra tx signers)
fill_rest-marked id extra tx signers h =
    let known = fill_known extra tx signers in
    ap (λ s. fill_replaced s (some id) known) h
    ∙ fill_replaced-marked extra.replaced_by_txid id known
    ∙ ap (λ s. replaced_by id (fill_replaced s extra.replaced_by_txid known)) (sym h)

ok_inj : {A : Type 0} (a b : A) → ok a ≡ ok b → a ≡ b
ok_inj a b h = ap (value a) h
  where
    value : {A : Type 0} → A → Result A → A
    value d (ok x) = x
    value d (throw e) = d

abbrev pub marked : Text → Extra → Extra
marked id f = record f { replaced_by_txid = some id }

fill_extra-marked :
    (id : Text) (f : Extra) (tx tr : Transaction)
    → tx.status ≡ some pending_confirmation
    → fill_extra (some f) tx ≡ ok tr
    → fill_extra (some (marked id f)) tx ≡ ok (replaced_by id tr)
unfolding fill_extra
fill_extra-marked id f tx tr p h =
    let (signers, s1, s2) =
      ok->>= (fill_signers f.signers (leb_ℤ (pos 0) tx.height) tx.signers) _ tr h in
    ap (λ m. ◌>>=◌ m (λ s. ok (fill_rest (marked id f) tx s))) s1
    ∙ ap ok (fill_rest-marked id f tx signers p)
    ∙ ap (λ y. ok (replaced_by id y)) (ok_inj _ _ s2)

-- The tables that UpdateTransaction leaves of a transaction that replaces another.
abbrev pub marked_tables : Text → Text → Extra → Tables → Tables
marked_tables old_id id f t = record t {
  txs = update_txs (has_id old_id) (replaced_row id f) t.txs;
}

abbrev pub sent_tables : Text → Text → ℤ → ℤ → Extra → Tables → Tables
sent_tables id raw_tx height blocktime kept t = record t {
  txs = update_txs (has_id id) (sent_row raw_tx height blocktime (some kept)) t.txs;
}

module _ (decode_raw : Text → Result RawTransaction) (decode_psbt : Text → Result Psbt) where
  -- A transaction in the mempool, read before and after it is marked.
  pub found-marked :
      (t : Tables) (rows : List TxRow) (id : Text) (row : TxRow) (f : Extra) (tr : Transaction)
      → row.height ≡ pos 0
      → row.extra ≡ some f
      → found_transaction decode_raw decode_psbt t (some row) ≡ ok tr
      → found_transaction decode_raw decode_psbt
          (record t { txs = rows })
          (some (replaced_row id f row))
        ≡ ok (replaced_by id tr)
  unfolding from_raw
  found-marked t rows id row f tr z x h =
      let sent : is_pending row ≡ false = ap (λ n. eqb_ℤ n (negsuc 0)) z in
      let whole = λ (b : Bool) (o : Option Extra).
        ◌>>=◌ (decoded decode_raw decode_psbt t.m row b) (λ tx. fill_extra o (with_row t row tx)) in
      let read : whole false (some f) ≡ ok tr =
        sym (ap (λ b. whole b (some f)) sent) ∙ sym (ap (whole (is_pending row)) x) ∙ h in
      let (tx, e1, e2) = ok->>= (decoded decode_raw decode_psbt t.m row false) _ tr read in
      let (mtx, d, made) = ok->>= (decode_raw row.value) _ tx e1 in
      let status : tx.status ≡ some pending_confirmation =
        sym (ap (λ y. y.status) (ok_inj (from_raw mtx row.height) tx made)) ∙ ap status_at z in
      ap
        (λ b.
          ◌>>=◌ (decoded decode_raw decode_psbt t.m (replaced_row id f row) b)
            (λ y. fill_extra (some (marked id f)) (with_row t row y)))
        sent
      ∙ ap (λ m. ◌>>=◌ m (λ y. fill_extra (some (marked id f)) (with_row t row y))) e1
      ∙ fill_extra-marked id f (with_row t row tx) tr status e2

  read_mined-later :
      (tx_id : Text) (b : Bool) (t : Tables)
      → read_mined decode_raw decode_psbt tx_id b false t ≡ (ok b, t)
  read_mined-later tx_id true t = refl
  read_mined-later tx_id false t = refl

  -- UpdateTransaction up to the mark.
  pub update-marks :
      (t : Tables) (raw_tx reject_msg old_id : Text) (height blocktime : ℤ) (mtx : RawTransaction)
      (p : Psbt) (row : TxRow) (e : Extra)
      → eqb_ℤ height (negsuc 0) ≡ false
      → ltb_ℤ (pos 0) height ≡ false
      → decode_raw raw_tx ≡ ok mtx
      → find_tx (pending_with mtx.hash) t.txs ≡ some row
      → decode_psbt row.value ≡ ok p
      → row.extra ≡ some e
      → e.replace_txid ≡ some old_id
      → update_transaction decode_raw decode_psbt raw_tx height blocktime reject_msg t
        ≡ after_mark (set_replaced_by old_id mtx.hash t) (
            write_sent decode_raw decode_psbt mtx.hash raw_tx height blocktime
              (some (signed_extra (from_psbt p 0).signers reject_msg e)))
  unfolding update_transaction
  update-marks t raw_tx reject_msg old_id height blocktime mtx p row e h1 h2 d1 g1 d2 x1 r =
      let id = mtx.hash in
      let kept = signed_extra (from_psbt p 0).signers reject_msg e in
      let write = write_sent decode_raw decode_psbt id raw_tx height blocktime (some kept) in
      ap (λ b. update_unless decode_raw decode_psbt b raw_tx height blocktime reject_msg t) h1
      ∙ ap
          (λ m. bind m t (λ x.
            update_at decode_raw decode_psbt (ltb_ℤ (pos 0) height) x.hash raw_tx height blocktime
              reject_msg t))
          d1
      ∙ ap (λ b. update_at decode_raw decode_psbt b id raw_tx height blocktime reject_msg t) h2
      ∙ ap (keep_pending decode_raw decode_psbt id raw_tx height blocktime reject_msg t) g1
      ∙ ap
          (λ m. bind m t (λ x.
            keep_extra decode_raw decode_psbt id raw_tx height blocktime reject_msg t x row.extra))
          d2
      ∙ ap (keep_extra decode_raw decode_psbt id raw_tx height blocktime reject_msg t p) x1
      ∙ ap (λ o. after_mark (mark_replaced id o t) write) r

  pub update-replacing :
      (t : Tables) (raw_tx reject_msg old_id : Text) (height blocktime : ℤ) (mtx : RawTransaction)
      (p : Psbt) (row old : TxRow) (e f : Extra)
      → eqb_ℤ height (negsuc 0) ≡ false
      → ltb_ℤ (pos 0) height ≡ false
      → decode_raw raw_tx ≡ ok mtx
      → find_tx (pending_with mtx.hash) t.txs ≡ some row
      → decode_psbt row.value ≡ ok p
      → row.extra ≡ some e
      → e.replace_txid ≡ some old_id
      → find_tx (has_id old_id) t.txs ≡ some old
      → old.extra ≡ some f
      → let kept = signed_extra (from_psbt p 0).signers reject_msg e in
        update_transaction decode_raw decode_psbt raw_tx height blocktime reject_msg t ≡ (
          ok true,
          sent_tables mtx.hash raw_tx height blocktime kept (marked_tables old_id mtx.hash f t),
        )
  unfolding write_sent set_replaced_by
  update-replacing t raw_tx reject_msg old_id height blocktime mtx p row old e f h1 h2 d1 g1 d2 x1 r
        g2 x2 =
      let id = mtx.hash in
      let kept = signed_extra (from_psbt p 0).signers reject_msg e in
      let there : any (has_id id) (marked_tables old_id id f t).txs ≡ true =
        any-update id (has_id old_id) (replaced_row id f) t.txs (λ x. refl)
        ∙ find-any id is_pending t.txs row g1 in
      let write = write_sent decode_raw decode_psbt id raw_tx height blocktime (some kept) in
      update-marks t raw_tx reject_msg old_id height blocktime mtx p row e h1 h2 d1 g1 d2 x1 r
      ∙ ap (λ o. after_mark (replace_found old_id id t o) write) g2
      ∙ ap (λ o. after_mark (replace_extra old_id id t o) write) x2
      ∙ ap
          (λ b.
            read_mined decode_raw decode_psbt id (any (has_id id) (marked_tables old_id id f t).txs)
              b (sent_tables id raw_tx height blocktime kept (marked_tables old_id id f t)))
          h2
      ∙ read_mined-later id _ _
      ∙ ap (λ b. (ok b, sent_tables id raw_tx height blocktime kept (marked_tables old_id id f t)))
          there
