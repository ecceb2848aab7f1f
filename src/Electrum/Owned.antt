-- ===== src/Electrum/Owned.antt =====
-- Whose answers the futures of src/electrumclient.cpp get.
use libnunchuk.Base.{
  ℕ, zero, suc, ◌+◌, ◌≡◌, refl, ap, subst, ◌∙◌, List, [], ◌∷◌, ◌++◌, Option, none, some, Bool, true,
  false, not, arith,
}
use libnunchuk.Base.Int.{pos, negsuc}
use libnunchuk.Base.Search.{is_empty}
use libnunchuk.Base.Lists.{length, All, All-append, All-mono}
use libnunchuk.Base.Text.{Text, codes}
use libnunchuk.Types.{ok}
use libnunchuk.Electrum.Requests.{
  Request, Response, Answer, Client, Cell, answered, disconnected, set_value, write_front,
  socket_write, push_request, write_unless, enqueue_message, ping, handle_error, written, pop_front,
  set_all, keep_cells, go_on, signal_disconnect, handle_write, handle_connect,
}
use libnunchuk.Electrum.Calls.{
  Message, notification, response, call_request, request_unless, get_future, future_of, wait_at,
  new_promise, handle_read, handle_line, take_message, set_found, erase_set, find_callback,
}
use libnunchuk.Electrum.Cells.{
  cell_at, owner_of, Owns, IsFor, Fits, cell_at-new, Owns-append, owner-set_value, Fits-set_value,
  All-put, All-erase, All-find,
}
use libnunchuk.Electrum.Run.{Run, start, called, waited, pinged, connects, reads, writes}

record Owned (c : Client) : Type 0 where
  made : All (Owns c.cells) c.callback
  fits : All Fits c.cells
  waits : All (Owns c.cells) c.waiting

same-Owned :
    {c d : Client}
    → Owned c
    → d.cells ≡ c.cells
    → d.callback ≡ c.callback
    → d.waiting ≡ c.waiting
    → Owned d
same-Owned h k b w = record {
  made = rw (k, b) h.made;
  fits = rw k h.fits;
  waits = rw (k, w) h.waits;
}

new_promise-Owned : (id : ℕ) (c : Client) → Owned c → Owned (new_promise id c)
unfolding new_promise
new_promise-Owned id c h =
    let new = record { owner = id; value = none } ∷ [] in
    let kept = λ (w : ℕ × ℕ) (o : Owns c.cells w). Owns-append c.cells new w.0 w.1 o in
    record {
      made =
          All-put (Owns (c.cells ++ new)) id (length c.cells) c.callback
            (ap owner_of (cell_at-new c.cells _))
            (All-mono (Owns c.cells) _ c.callback kept h.made);
      fits = All-append Fits c.cells new h.fits (tt, tt);
      waits = All-mono (Owns c.cells) _ c.waiting kept h.waits;
    }

wait_at-Owned : (id k : ℕ) (c : Client) → Owns c.cells (id, k) → Owned c → Owned (wait_at id k c).1
wait_at-Owned id k c o h = record { made = h.made; fits = h.fits; waits = (o, h.waits) }

future_of-Owned :
    (id : ℕ) (c : Client) (o : Option ℕ)
    → find_callback id c.callback ≡ o
    → Owned c
    → Owned (future_of id c o).1
unfolding new_promise
future_of-Owned id c none e h =
    wait_at-Owned id (length c.cells) (new_promise id c) (ap owner_of (cell_at-new c.cells _))
      (new_promise-Owned id c h)
future_of-Owned id c (some k) e h =
    wait_at-Owned id k c (All-find (Owns c.cells) id k c.callback h.made e) h

-- A value that is set where it fits.
set-Owned :
    (a : Answer) (k id : ℕ) (c : Client) (set : List Cell)
    → set_value a k c.cells ≡ some set
    → Owns c.cells (id, k)
    → IsFor id (some a)
    → Owned c
    → Owned (record c { cells = set })
set-Owned a k id c set e o f h =
    let kept = λ (w : ℕ × ℕ) (o : Owns c.cells w). owner-set_value a k c.cells set e w.1 ∙ o in
    record {
      made = All-mono (Owns c.cells) (Owns set) c.callback kept h.made;
      fits = Fits-set_value a k id c.cells set e o f h.fits;
      waits = All-mono (Owns c.cells) (Owns set) c.waiting kept h.waits;
    }

erase_set-Owned :
    (id k : ℕ) (r : Response) (c : Client) (o : Option (List Cell))
    → set_value (answered id r) k c.cells ≡ o
    → Owns c.cells (id, k)
    → Owned c
    → Owned (erase_set id c o).1
erase_set-Owned id k r c none e o h = h
erase_set-Owned id k r c (some set) e o h =
    let new = set-Owned (answered id r) k id c set e o refl h in
    record {
      made = All-erase (Owns set) id c.callback new.made;
      fits = new.fits;
      waits = new.waits;
    }

set_found-Owned :
    (id : ℕ) (r : Response) (c : Client) (o : Option ℕ)
    → find_callback id c.callback ≡ o
    → Owned c
    → Owned (set_found id r c o).1
set_found-Owned id r c none e h = h
set_found-Owned id r c (some k) e h =
    erase_set-Owned id k r c _ refl (All-find (Owns c.cells) id k c.callback h.made e) h

take_message-Owned : (c : Client) (m : Option Message) → Owned c → Owned (take_message c m).1
take_message-Owned c none h = h
take_message-Owned c (some (notification method params)) h = same-Owned h refl refl refl
take_message-Owned c (some (response (negsuc n) r)) h = h
take_message-Owned c (some (response (pos id) r)) h = set_found-Owned id r c _ refl h

-- The loop of handle_error.
step-Owned :
    (c : Client) (cb : List (ℕ × ℕ)) (cells : List Cell) (id k : ℕ) (o : Option (List Cell))
    → set_value disconnected k cells ≡ o
    → Owns cells (id, k)
    → All (Owns cells) cb
    → Owned (record c { cells = cells })
    → ((set : List Cell)
        → All (Owns set) cb
        → Owned (record c { cells = set })
        → Owned (record c { cells = (set_all cb set).1 }))
    → Owned (record c { cells = (go_on (λ set. set_all cb set) (keep_cells cells o)).1 })
step-Owned c cb cells id k none e o a h rest = h
step-Owned c cb cells id k (some set) e o a h rest =
    let kept =
      λ (w : ℕ × ℕ) (p : Owns cells w). owner-set_value disconnected k cells set e w.1 ∙ p in
    rest set (All-mono (Owns cells) (Owns set) cb kept a)
      (set-Owned disconnected k id (record c { cells = cells }) set e o tt h)

set_all-Owned :
    (c : Client) (cb : List (ℕ × ℕ)) (cells : List Cell)
    → All (Owns cells) cb
    → Owned (record c { cells = cells })
    → Owned (record c { cells = (set_all cb cells).1 })
unfolding set_all
set_all-Owned c [] cells a h = h
set_all-Owned c ((id, k) ∷ cb) cells a h =
    step-Owned c cb cells id k _ refl a.0 a.1 h (λ set b g. set_all-Owned c cb set b g)

signal_disconnect-Owned : (b : Bool) (c : Client) → Owned c → Owned (signal_disconnect b c).1
signal_disconnect-Owned true c h = same-Owned h refl refl refl
signal_disconnect-Owned false c h = h

handle_error-Owned : (c : Client) → Owned c → Owned (handle_error c).1
unfolding handle_error
handle_error-Owned c h =
    signal_disconnect-Owned (set_all c.callback c.cells).0 _
      (same-Owned (set_all-Owned c c.callback c.cells h.made h) refl refl refl)

write_front-Owned :
    (queue : List Request) (b : Bool) (c : Client) → Owned c → Owned (write_front queue b c)
write_front-Owned [] b c h = h
write_front-Owned (r ∷ queue) false c h = h
write_front-Owned (r ∷ queue) true c h = same-Owned h refl refl refl

write_unless-Owned : (b : Bool) (c : Client) → Owned c → Owned (write_unless b c)
write_unless-Owned true c h = h
write_unless-Owned false c h = write_front-Owned c.request_queue c.connected c h

enqueue-Owned : (r : Request) (c : Client) → Owned c → Owned (enqueue_message r c)
unfolding enqueue_message
enqueue-Owned r c h =
    write_unless-Owned (not (is_empty c.request_queue)) (push_request r c)
      (same-Owned h refl refl refl)

call_request-Owned :
    (method : Text) (params : Option Text) (b : Bool) (c : Client) (id : ℕ) (d : Client)
    → Owned c
    → request_unless method params b c ≡ ok (id, d)
    → Owned d
call_request-Owned method params true c id d h e = cc
call_request-Owned method params false c id d h e =
    let same : enqueue_message (record { id = c.next_id; method = method; params = params })
          (new_promise c.next_id (record c { next_id = c.next_id + 1 }))
        ≡ d =
      ground arith in
    subst Owned same
      (enqueue-Owned _ _ (new_promise-Owned c.next_id _ (same-Owned h refl refl refl)))

-- A call that waits for an answer holds a future, and the value of that future, once it is set, is an
-- answer for the call.
abbrev pub Waits : List Cell → ℕ × ℕ → Type 0
Waits cells (id, k) = (c : Cell) × (cell_at k cells ≡ some c) × IsFor id c.value

Fits-at : (k id : ℕ) (cells : List Cell) → All Fits cells → Owns cells (id, k) → Waits cells (id, k)
Fits-at k id [] h o = cc
Fits-at zero id (c ∷ cells) h o =
    let same : c.owner ≡ id = ground arith in (c, refl, subst (λ n. IsFor n c.value) same h.0)
Fits-at (suc k) id (c ∷ cells) h o = Fits-at k id cells h.1 o

module _ (parse : Text → Option Message) where
  handle_line-Owned : (c : Client) (line : Text) → Owned c → Owned (handle_line parse c line).1
  handle_line-Owned c [] h = h
  handle_line-Owned c (x ∷ line) h = take_message-Owned c (parse (x ∷ line)) h

  Run-Owned : (c : Client) → Run parse c → Owned c
  unfolding call_request get_future handle_read handle_connect handle_write ping socket_write
  Run-Owned c start = record { made = tt; fits = tt; waits = tt }
  Run-Owned d (called {c = c} {id = id} method params r e) =
      call_request-Owned method params c.stopped c id d (Run-Owned c r) e
  Run-Owned _ (waited {c = c} id r) = future_of-Owned id c _ refl (Run-Owned c r)
  Run-Owned _ (pinged {c = c} r) =
      enqueue-Owned (record { id = c.next_id; method = codes "server.ping"; params = none })
        (record c { next_id = c.next_id + 1 }) (same-Owned (Run-Owned c r) refl refl refl)
  Run-Owned _ (connects {c = c} true socks r k) = handle_error-Owned c (Run-Owned c r)
  Run-Owned _ (connects {c = c} false none r k) = Run-Owned c r
  Run-Owned _ (connects {c = c} false (some false) r k) = handle_error-Owned c (Run-Owned c r)
  Run-Owned _ (connects {c = c} false (some true) r k) =
      write_front-Owned c.request_queue true _ (same-Owned (Run-Owned c r) refl refl refl)
  Run-Owned _ (reads {c = c} true line r) = handle_error-Owned c (Run-Owned c r)
  Run-Owned _ (reads {c = c} false line r) = handle_line-Owned c line (Run-Owned c r)
  Run-Owned _ (writes {c = c} true q w r k) =
      handle_error-Owned (record c { writing = [] }) (same-Owned (Run-Owned c r) refl refl refl)
  Run-Owned _ (writes {c = c} false q w r k) =
      write_front-Owned (pop_front c.request_queue) c.connected (written c)
        (same-Owned (Run-Owned c r) refl refl refl)

  -- In every run of the client, whatever the server sends, also after an error, each handler and each
  -- part of a call taken as one step, in whatever order: each call that waits
  -- holds a future that is there, and where that future is set, its value is the answer that tells of
  -- the disconnection or a response of the server with the id of that very call.
  pub Run-Waits : (c : Client) → Run parse c → All (Waits c.cells) c.waiting
  Run-Waits c r =
      let h = Run-Owned c r in
      All-mono (Owns c.cells) (Waits c.cells) c.waiting (λ w o. Fits-at w.1 w.0 c.cells h.fits o)
        h.waits
