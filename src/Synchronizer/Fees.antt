-- ===== src/Synchronizer/Fees.antt =====
-- The cache of EstimateFee in src/synchronizer.cpp.
use libnunchuk.Base.{
  ℕ, zero, suc, ◌<◌, ◌≡◌, ◌≢◌, refl, sym, ap, subst, ◌∙◌, List, [], ◌∷◌, ◌++◌, Option, none, some,
  Bool, true, false, arith, if◌then◌else◌,
}
use libnunchuk.Base.Int.{ℤ, ◌-ℤ◌, leb_ℤ}
use libnunchuk.Base.Lists.{length, get_elem?}
use libnunchuk.Base.Text.{Text}
use libnunchuk.Types.{Amount, Result, ok, throw, ◌>>=◌}
use libnunchuk.Utils.{Core, amount_from_value}
use libnunchuk.Synchronizer.{
  Sync, Status, uninitialized, connecting, syncing, ready, stopped, stop, create_client, start_sync,
  finish_sync, ready_from, is_online, cached_index, cache_second, fresh, cached_fee, set_slot,
  fee_answer, ask_fee, fee_from, estimate_fee,
}

get-set_slot :
    (i : ℕ) (slot : ℤ × Amount) (slots : List (ℤ × Amount))
    → i < length slots
    → get_elem? (set_slot i slot slots) i ≡ some slot
unfolding set_slot
get-set_slot i slot [] h = absurd (omega arith)
get-set_slot zero slot (old ∷ slots) h = refl
get-set_slot (suc i) slot (old ∷ slots) h = get-set_slot i slot slots (omega arith)

get-set_slot_other :
    (i j : ℕ) (slot : ℤ × Amount) (slots : List (ℤ × Amount))
    → i ≢ j
    → get_elem? (set_slot j slot slots) i ≡ get_elem? slots i
unfolding set_slot
get-set_slot_other i j slot [] d = refl
get-set_slot_other zero zero slot (old ∷ slots) d = absurd (d refl)
get-set_slot_other (suc i) zero slot (old ∷ slots) d = refl
get-set_slot_other zero (suc j) slot (old ∷ slots) d = refl
get-set_slot_other (suc i) (suc j) slot (old ∷ slots) d =
    get-set_slot_other i j slot slots (λ e. d (ap suc e))

length-set_slot :
    (j : ℕ) (slot : ℤ × Amount) (slots : List (ℤ × Amount))
    → length (set_slot j slot slots) ≡ length slots
unfolding set_slot
length-set_slot j slot [] = refl
length-set_slot zero slot (old ∷ slots) = refl
length-set_slot (suc j) slot (old ∷ slots) = ap suc (length-set_slot j slot slots)

-- What a fee that the server gives does to the cache.
asked-slot :
    (i : ℕ) (now : ℤ) (s t : Sync) (fee : Amount) (m : Result Amount)
    → i < length s.fee_cache
    → fee_answer (some i) now s m ≡ (ok fee, t)
    → get_elem? t.fee_cache i ≡ some (now, fee)
asked-slot i now s t fee (throw e) h k = cc
asked-slot i now s t fee (ok f) h k =
    let same : record s { fee_cache = set_slot i (now, f) s.fee_cache } ≡ t = ap (λ x. x.1) k in
    let value : f ≡ fee = ground arith in
    ap (λ x. get_elem? x.fee_cache i) (sym same)
    ∙ get-set_slot i (now, f) s.fee_cache h
    ∙ ap (λ x. some (now, x)) value

start_sync-cache : (st : Status) (s : Sync) → (start_sync st s).fee_cache ≡ s.fee_cache
start_sync-cache uninitialized s = refl
start_sync-cache connecting s = refl
start_sync-cache syncing s = refl
start_sync-cache ready s = refl
start_sync-cache stopped s = refl

create_client-cache : (b : Bool) (s : Sync) → (create_client b s).fee_cache ≡ s.fee_cache
unfolding create_client
create_client-cache false s = refl
create_client-cache true s = start_sync-cache s.status _

ready_from-cache : (st : Status) (s : Sync) → (ready_from st s).fee_cache ≡ s.fee_cache
ready_from-cache uninitialized s = refl
ready_from-cache connecting s = refl
ready_from-cache syncing s = refl
ready_from-cache ready s = refl
ready_from-cache stopped s = refl

module _ (core : Core) where
  ask_fee-slot :
      (ask : ℤ → Result Text) (i : ℕ) (b : Bool) (now target : ℤ) (s t : Sync) (fee : Amount)
      → cached_index target ≡ some i
      → i < length s.fee_cache
      → ask_fee core ask b now target s ≡ (ok fee, t)
      → get_elem? t.fee_cache i ≡ some (now, fee)
  ask_fee-slot ask i false now target s t fee c h k = cc
  ask_fee-slot ask i true now target s t fee c h k =
      asked-slot i now (record s { asked = s.asked ++ target ∷ [] }) t fee _ h
        (subst
          (λ o.
            fee_answer o now (record s { asked = s.asked ++ target ∷ [] })
              (ask target >>= (λ value. amount_from_value core value false))
            ≡ (ok fee, t))
          c k)

  -- What may be called between: the fee for another target, and the steps of the status that do not
  -- start a connection.
  pub data Others (i : ℕ) (s : Sync) : Sync → Type 0 where
    nothing : Others i s s
    estimates :
        {t : Sync} (ask : ℤ → Result Text) (now target : ℤ)
        → Others i s t
        → cached_index target ≢ some i
        → Others i s (estimate_fee core ask now target t).1
    creates : {t : Sync} (b : Bool) → Others i s t → Others i s (create_client b t)
    finishes : {t : Sync} → Others i s t → Others i s (finish_sync t)
    stops : {t : Sync} → Others i s t → Others i s (stop t)

  answer-other :
      (i : ℕ) (o : Option ℕ) (now : ℤ) (s : Sync) (m : Result Amount)
      → o ≢ some i
      → get_elem? (fee_answer o now s m).1.fee_cache i ≡ get_elem? s.fee_cache i
  answer-other i o now s (throw e) d = refl
  answer-other i none now s (ok fee) d = refl
  answer-other i (some j) now s (ok fee) d =
      get-set_slot_other i j (now, fee) s.fee_cache (λ e. d (ap some (sym e)))

  estimates-other :
      (ask : ℤ → Result Text) (i : ℕ) (now target : ℤ) (s : Sync)
      → cached_index target ≢ some i
      → get_elem? (estimate_fee core ask now target s).1.fee_cache i ≡ get_elem? s.fee_cache i
  unfolding estimate_fee
  estimates-other ask i now target s d =
      from_cache (cached_fee now (cached_index target) s.fee_cache)
    where
      online :
          (b : Bool)
          → get_elem? (ask_fee core ask b now target s).1.fee_cache i ≡ get_elem? s.fee_cache i
      online false = refl
      online true = answer-other i (cached_index target) now _ _ d

      from_cache :
          (o : Option Amount)
          → get_elem? (fee_from core ask now target s o).1.fee_cache i ≡ get_elem? s.fee_cache i
      from_cache (some fee) = refl
      from_cache none = online (is_online s.status)

  Others-slot :
      (i : ℕ) (s t : Sync) → Others i s t → get_elem? t.fee_cache i ≡ get_elem? s.fee_cache i
  unfolding finish_sync stop
  Others-slot i s _ nothing = refl
  Others-slot i s _ (estimates {t = t} ask now target o d) =
      estimates-other ask i now target t d ∙ Others-slot i s t o
  Others-slot i s _ (creates {t = t} b o) =
      ap (λ c. get_elem? c i) (create_client-cache b t) ∙ Others-slot i s t o
  Others-slot i s _ (finishes {t = t} o) =
      ap (λ c. get_elem? c i) (ready_from-cache t.status t) ∙ Others-slot i s t o
  Others-slot i s _ (stops {t = t} o) = Others-slot i s t o

  -- A fee that EstimateFee got from the server for one of the three targets of the cache is what it
  -- answers for the target until 600 seconds later, whatever the server would say, without asking it
  -- and also while there is no connection, if no new connection was started in between; the calls for
  -- other targets do not touch it.
  pub estimate_fee-estimate_fee :
      (ask ask2 : ℤ → Result Text) (i : ℕ) (now now2 target : ℤ) (s t u : Sync) (fee : Amount)
      → cached_index target ≡ some i
      → i < length s.fee_cache
      → fresh now (get_elem? s.fee_cache i) ≡ none
      → estimate_fee core ask now target s ≡ (ok fee, t)
      → Others i t u
      → leb_ℤ (now2 -ℤ now) cache_second ≡ true
      → estimate_fee core ask2 now2 target u ≡ (ok fee, u)
  unfolding estimate_fee
  estimate_fee-estimate_fee ask ask2 i now now2 target s t u fee c h stale first between soon =
      let asked : ask_fee core ask (is_online s.status) now target s ≡ (ok fee, t) =
        sym (ap (fee_from core ask now target s) (ap (λ o. cached_fee now o s.fee_cache) c ∙ stale))
        ∙ first in
      let kept : get_elem? u.fee_cache i ≡ some (now, fee) =
        Others-slot i t u between
        ∙ ask_fee-slot ask i (is_online s.status) now target s t fee c h asked in
      ap (fee_from core ask2 now2 target u) (
        ap (λ o. cached_fee now2 o u.fee_cache) c
        ∙ ap (fresh now2) kept
        ∙ ap (λ b. if b then some fee else none) soon)
