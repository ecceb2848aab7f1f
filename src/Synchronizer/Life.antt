-- ===== src/Synchronizer/Life.antt =====
-- The states of the connection in src/synchronizer.cpp.
use libnunchuk.Base.{ℕ, suc, ◌≡◌, refl, sym, ap, Bool, true, false, true≢false}
use libnunchuk.Types.{AppSettings}
use libnunchuk.Synchronizer.{
  Sync, Status, uninitialized, connecting, syncing, ready, stopped, run, run_with,
  need_update_client, connect, connect_from, stop, create_client, start_sync, finish_sync,
  ready_from, is_online,
}

-- The calls of Run, the reconnections, the jobs and the destructor, in any order that the one thread
-- of the jobs allows.
pub data Life (s : Sync) : Sync → Type 0 where
  begins : Life s s
  runs : {t : Sync} (settings : AppSettings) → Life s t → Life s (run settings t)
  reconnects : {t : Sync} → Life s t → Life s (connect t)
  creates :
      {t : Sync} {n : ℕ} (b : Bool)
      → Life s t
      → t.posted ≡ suc n
      → t.in_sync ≡ false
      → Life s (create_client b t)
  finishes : {t : Sync} → Life s t → t.in_sync ≡ true → Life s (finish_sync t)
  stops : {t : Sync} → Life s t → Life s (stop t)

-- A client is there where the status says that the server can be asked.
abbrev pub IsSafe : Sync → Type 0
IsSafe s = is_online s.status ≡ true → s.has_client ≡ true

connect_from-IsSafe :
    (st : Status) (s : Sync) → s.status ≡ st → IsSafe s → IsSafe (connect_from st s)
connect_from-IsSafe uninitialized s e h = λ p. absurd (true≢false (sym p))
connect_from-IsSafe connecting s e h = λ p. absurd (true≢false (sym p))
connect_from-IsSafe syncing s e h = λ p. absurd (true≢false (sym p))
connect_from-IsSafe ready s e h = λ p. absurd (true≢false (sym p))
connect_from-IsSafe stopped s e h = h

start_sync-client : (st : Status) (s : Sync) → (start_sync st s).has_client ≡ s.has_client
start_sync-client uninitialized s = refl
start_sync-client connecting s = refl
start_sync-client syncing s = refl
start_sync-client ready s = refl
start_sync-client stopped s = refl

create_client-IsSafe : (b : Bool) (s : Sync) → IsSafe (create_client b s)
unfolding create_client
create_client-IsSafe false s = λ p. absurd (true≢false (sym p))
create_client-IsSafe true s = λ p. start_sync-client s.status _

ready_from-IsSafe : (st : Status) (s : Sync) → s.status ≡ st → IsSafe s → IsSafe (ready_from st s)
ready_from-IsSafe uninitialized s e h = h
ready_from-IsSafe connecting s e h = h
ready_from-IsSafe syncing s e h = λ p. h (ap is_online e)
ready_from-IsSafe ready s e h = h
ready_from-IsSafe stopped s e h = h

run_with-IsSafe :
    (settings : AppSettings) (b : Bool) (s : Sync) → IsSafe s → IsSafe (run_with settings (b, s))
run_with-IsSafe settings false s h = h
run_with-IsSafe settings true s h = connect_from-IsSafe s.status _ refl h

-- From a state in which no client is needed or one is there, whatever is called and whatever the jobs
-- come to: where the status is READY or SYNCING, so that the calls of the server go through
-- `client_`, it points to a client.
pub Life-IsSafe : (s t : Sync) → Life s t → IsSafe s → IsSafe t
unfolding run need_update_client connect finish_sync stop
Life-IsSafe s _ begins h = h
Life-IsSafe s _ (runs {t = t} settings l) h =
    run_with-IsSafe settings _ (record t { first_run = false }) (Life-IsSafe s t l h)
Life-IsSafe s _ (reconnects {t = t} l) h = connect_from-IsSafe t.status t refl (Life-IsSafe s t l h)
Life-IsSafe s _ (creates {t = t} b l n i) h = create_client-IsSafe b t
Life-IsSafe s _ (finishes {t = t} l i) h = ready_from-IsSafe t.status t refl (Life-IsSafe s t l h)
Life-IsSafe s _ (stops {t = t} l) h = λ p. absurd (true≢false (sym p))
