-- ===== src/Electrum/Answers.antt =====
-- One call of src/electrumclient.cpp and its response.
use libnunchuk.Base.{
  ℕ, ◌+◌, ◌≡◌, refl, sym, ap, subst, ◌∙◌, List, [], ◌∷◌, Option, none, some, Bool, true, false, not,
  arith,
}
use libnunchuk.Base.Int.{pos}
use libnunchuk.Base.Lists.{length}
use libnunchuk.Base.Search.{is_empty}
use libnunchuk.Base.Text.{Text}
use libnunchuk.Types.{ok}
use libnunchuk.Electrum.Requests.{
  Request, Response, Client, Cell, Handled, answered, push_request, write_unless, write_front,
  enqueue_message,
}
use libnunchuk.Electrum.Calls.{
  Message, response, call_request, request_unless, get_future, future_of, new_promise, handle_read,
  take_message, set_found, erase_set, find_callback, erase_callback,
}
use libnunchuk.Electrum.Cells.{cell_at, cell_at-new, find-put, find-erase, set_value-unset}

-- The promise of a call is in the map, and is not set.
record Asked (id : ℕ) (c : Client) : Type 0 where
  place : ℕ
  found : find_callback id c.callback ≡ some place
  unset : cell_at place c.cells ≡ some (record { owner = id; value = none })

write_front-Asked :
    (id : ℕ) (queue : List Request) (b : Bool) (c : Client)
    → Asked id c
    → Asked id (write_front queue b c)
write_front-Asked id [] b c h = h
write_front-Asked id (r ∷ queue) false c h = h
write_front-Asked id (r ∷ queue) true c h = record {
  place = h.place;
  found = h.found;
  unset = h.unset;
}

write_unless-Asked : (id : ℕ) (b : Bool) (c : Client) → Asked id c → Asked id (write_unless b c)
write_unless-Asked id true c h = h
write_unless-Asked id false c h = write_front-Asked id c.request_queue c.connected c h

promise-Asked : (id : ℕ) (c : Client) → Asked id (new_promise id c)
unfolding new_promise
promise-Asked id c = record {
  place = length c.cells;
  found = find-put id (length c.cells) c.callback;
  unset = cell_at-new c.cells _;
}

push-Asked : (id : ℕ) (r : Request) (c : Client) → Asked id c → Asked id (enqueue_message r c)
unfolding enqueue_message
push-Asked id r c h =
    write_unless-Asked id (not (is_empty c.request_queue)) (push_request r c)
      (record { place = h.place; found = h.found; unset = h.unset })

requested :
    (method : Text) (params : Option Text) (b : Bool) (c : Client) (id : ℕ) (d : Client)
    → request_unless method params b c ≡ ok (id, d)
    → Asked id d
requested method params true c id d e = cc
requested method params false c id d e =
    let number : c.next_id ≡ id = ground arith in
    let same : enqueue_message (record { id = c.next_id; method = method; params = params })
          (new_promise c.next_id (record c { next_id = c.next_id + 1 }))
        ≡ d =
      ground arith in
    subst (λ n. Asked n d) number
      (subst (Asked c.next_id) same
        (push-Asked c.next_id _ _ (promise-Asked c.next_id (record c { next_id = c.next_id + 1 }))))

answer-found :
    (id : ℕ) (r : Response) (c : Client)
    → (h : Asked id c)
    → (set : List Cell) × (take_message c (some (response (pos id) r))
        ≡ (none, record c { cells = set; callback = erase_callback id c.callback }))
      × (cell_at h.place set ≡ some (record { owner = id; value = some (answered id r) }))
answer-found id r c h =
    let (set, e, v) = set_value-unset (answered id r) h.place id c.cells h.unset in
    (set, ap (set_found id r c) h.found ∙ ap (erase_set id c) e, v)

-- The outcome `a` of handling a message: no exception, the future that was taken is set to the
-- response, and no promise of the id is left.
abbrev pub IsAnswered : ℕ → Response → ℕ × Client → Handled → Type 0
IsAnswered id r f a =
    (a.0 ≡ none)
    × (cell_at f.0 a.1.cells ≡ some (record { owner = id; value = some (answered id r) }))
    × (find_callback id a.1.callback ≡ none)

-- The future that is taken after handling a message is not set, and nothing more was asked.
abbrev pub IsLost : ℕ → Client → Handled → ℕ × Client → Type 0
IsLost id d a f =
    (a.0 ≡ none)
    × (cell_at f.0 f.1.cells ≡ some (record { owner = id; value = none }))
    × (f.1.asked ≡ d.asked)

future-IsAnswered :
    (id : ℕ) (r : Response) (d : Client)
    → Asked id d
    → IsAnswered id r
        (get_future id d)
        (take_message (get_future id d).1 (some (response (pos id) r)))
unfolding get_future
future-IsAnswered id r d h =
    let e = record d { waiting = (id, h.place) ∷ d.waiting } in
    let (set, e1, v) =
      answer-found id r e (record { place = h.place; found = h.found; unset = h.unset }) in
    subst (λ f. IsAnswered id r f (take_message f.1 (some (response (pos id) r))))
      (sym (ap (future_of id d) h.found))
      (subst (IsAnswered id r (h.place, e)) (sym e1) (refl, v, find-erase id e.callback))

future-IsLost :
    (id : ℕ) (r : Response) (d : Client)
    → Asked id d
    → IsLost id d
        (take_message d (some (response (pos id) r)))
        (get_future id (take_message d (some (response (pos id) r))).1)
unfolding get_future new_promise
future-IsLost id r d h =
    let (set, e1, v) = answer-found id r d h in
    let after = record d { cells = set; callback = erase_callback id d.callback } in
    subst (λ a. IsLost id d a (get_future id a.1)) (sym e1)
      (subst (IsLost id d (none, after)) (sym (ap (future_of id after) (find-erase id d.callback)))
        (refl, cell_at-new set _, refl))

module _ (parse : Text → Option Message) where
  -- A call whose response is read while it waits gets that response: after the request of a call, and
  -- once its future is taken, reading a line with a response of the call's id sets this future to it,
  -- without an exception, and no promise stays in the map under the id.
  pub call_request-handle_read :
      (method : Text) (params : Option Text) (c d : Client) (id x : ℕ) (line : Text) (r : Response)
      → call_request method params c ≡ ok (id, d)
      → parse (x ∷ line) ≡ some (response (pos id) r)
      → IsAnswered id r (get_future id d) (handle_read parse false (x ∷ line) (get_future id d).1)
  unfolding call_request handle_read
  call_request-handle_read method params c d id x line r asks reads =
      subst (λ m. IsAnswered id r (get_future id d) (take_message (get_future id d).1 m))
        (sym reads) (future-IsAnswered id r d (requested method params c.stopped c id d asks))

  -- A response that is read before the call has taken its future is lost: `callback_[id]` then makes a
  -- new promise, so that the call waits on a future that is not set, while the response is in the
  -- place where no call looks, and no further request is queued.
  pub handle_read-get_future :
      (method : Text) (params : Option Text) (c d : Client) (id x : ℕ) (line : Text) (r : Response)
      → call_request method params c ≡ ok (id, d)
      → parse (x ∷ line) ≡ some (response (pos id) r)
      → let after = handle_read parse false (x ∷ line) d in
        IsLost id d after (get_future id after.1)
  unfolding call_request handle_read
  handle_read-get_future method params c d id x line r asks reads =
      subst (λ m. IsLost id d (take_message d m) (get_future id (take_message d m).1)) (sym reads)
        (future-IsLost id r d (requested method params c.stopped c id d asks))
