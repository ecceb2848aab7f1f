-- ===== src/Electrum/Fifo.antt =====
-- The order of the writes of src/electrumclient.cpp.
use libnunchuk.Base.{
  ℕ, ◌+◌, ◌≡◌, refl, sym, ap, subst, ◌∙◌, List, [], ◌∷◌, ◌++◌, Option, none, some, Bool, true,
  false, not, arith,
}
use libnunchuk.Base.Int.{pos, negsuc}
use libnunchuk.Base.Search.{is_empty}
use libnunchuk.Base.Text.{Text}
use libnunchuk.Types.{ok}
use libnunchuk.Electrum.Requests.{
  Request, Client, Cell, Response, answered, set_value, write_front, socket_write, push_request,
  write_unless, enqueue_message, written, pop_front, handle_error, set_all, signal_disconnect,
  handle_write, handle_connect,
}
use libnunchuk.Electrum.Calls.{
  Message, request_unless, future_of, new_promise, take_message, set_found, erase_set, notification,
  response, find_callback,
}
use mathlib.Core.List.{append_assoc}

-- The message whose turn it is, if the client is connected.
abbrev pub in_turn : Bool → List Request → List Request
in_turn false queue = []
in_turn true [] = []
in_turn true (r ∷ queue) = r ∷ []

-- Every message that was enqueued has been sent or is queued, in the order of the calls, and the one
-- that is being written is the first of the queue.
pub record InOrder (c : Client) : Type 0 where
  pub kept : c.asked ≡ c.sent ++ c.request_queue
  pub writes : c.writing ≡ in_turn c.connected c.request_queue

in_turn-[] : (b : Bool) → in_turn b [] ≡ []
in_turn-[] true = refl
in_turn-[] false = refl

-- Giving the front to the socket, where nothing is being written.
write_front-InOrder :
    (queue : List Request) (connected : Bool) (c : Client)
    → c.request_queue ≡ queue
    → c.connected ≡ connected
    → c.asked ≡ c.sent ++ c.request_queue
    → c.writing ≡ []
    → InOrder (write_front queue connected c)
write_front-InOrder [] connected c q b k w = record {
  kept = k;
  writes = w ∙ sym (in_turn-[] c.connected) ∙ ap (in_turn c.connected) (sym q);
}
write_front-InOrder (r ∷ queue) false c q b k w = record {
  kept = k;
  writes = w ∙ sym (ap (λ d. in_turn d c.request_queue) b);
}
write_front-InOrder (r ∷ queue) true c q b k w = record { kept = k; writes = rw (w, q, b) refl }

pub socket_write-InOrder :
    (c : Client) → c.asked ≡ c.sent ++ c.request_queue → c.writing ≡ [] → InOrder (socket_write c)
unfolding socket_write
socket_write-InOrder c k w = write_front-InOrder c.request_queue c.connected c refl refl k w

in_turn-append :
    (b : Bool) (r s : Request) (q : List Request)
    → in_turn b ((r ∷ q) ++ s ∷ []) ≡ in_turn b (r ∷ q)
in_turn-append true r s q = refl
in_turn-append false r s q = refl

enqueue_queue :
    (r : Request) (queue : List Request) (c : Client)
    → c.request_queue ≡ queue
    → InOrder c
    → InOrder (write_unless (not (is_empty queue)) (push_request r c))
enqueue_queue r [] c q h =
    write_front-InOrder (push_request r c).request_queue c.connected (push_request r c) refl refl
      (ap (λ l. l ++ r ∷ []) h.kept ∙ append_assoc c.sent c.request_queue (r ∷ []))
      (h.writes ∙ ap (in_turn c.connected) q ∙ in_turn-[] c.connected)
enqueue_queue r (s ∷ queue) c q h = record {
  kept = ap (λ l. l ++ r ∷ []) h.kept ∙ append_assoc c.sent c.request_queue (r ∷ []);
  writes = h.writes ∙ rw q (sym (in_turn-append c.connected s r queue));
}

pub enqueue-InOrder : (r : Request) (c : Client) → InOrder c → InOrder (enqueue_message r c)
unfolding enqueue_message
enqueue-InOrder r c h = enqueue_queue r c.request_queue c refl h

-- What a write's end leaves.
pop-kept :
    (b : Bool) (sent queue writing w : List Request) (r : Request)
    → writing ≡ in_turn b queue
    → writing ≡ r ∷ w
    → sent ++ queue ≡ (sent ++ writing) ++ pop_front queue
pop-kept false sent queue writing w r h k = ground arith
pop-kept true sent [] writing w r h k = ground arith
pop-kept true sent (q ∷ queue) writing w r h k = rw h (sym (append_assoc sent (q ∷ []) queue))

pub handle_write-InOrder :
    (c : Client) (r : Request) (w : List Request)
    → InOrder c
    → c.writing ≡ r ∷ w
    → InOrder (handle_write false c).1
unfolding handle_write
handle_write-InOrder c r w h k =
    socket_write-InOrder (written c)
      (h.kept ∙ pop-kept c.connected c.sent c.request_queue c.writing w r h.writes k) refl

pub handle_connect-InOrder :
    (c : Client) → InOrder c → c.connected ≡ false → InOrder (handle_connect false (some true) c).1
unfolding handle_connect
handle_connect-InOrder c h k =
    socket_write-InOrder (record c { connected = true }) h.kept
      (h.writes ∙ ap (λ b. in_turn b c.request_queue) k)

signal_disconnect-stops :
    (b : Bool) (c : Client) → c.stopped ≡ true → (signal_disconnect b c).1.stopped ≡ true
signal_disconnect-stops true c h = h
signal_disconnect-stops false c h = h

pub handle_error-stops : (c : Client) → (handle_error c).1.stopped ≡ true
unfolding handle_error
handle_error-stops c = signal_disconnect-stops (set_all c.callback c.cells).0 _ refl

-- Neither the answers nor the promises touch the queue.
pub shared :
    {c d : Client}
    → InOrder c
    → d.asked ≡ c.asked
    → d.sent ≡ c.sent
    → d.request_queue ≡ c.request_queue
    → d.writing ≡ c.writing
    → d.connected ≡ c.connected
    → InOrder d
shared h a s q w b = record {
  kept = a ∙ h.kept ∙ sym (rw (s, q) refl);
  writes = w ∙ h.writes ∙ sym (rw (b, q) refl);
}

erase_set-InOrder :
    (id : ℕ) (c : Client) (o : Option (List Cell)) → InOrder c → InOrder (erase_set id c o).1
erase_set-InOrder id c none h = h
erase_set-InOrder id c (some set) h = shared h refl refl refl refl refl

set_found-InOrder :
    (id : ℕ) (r : Response) (c : Client) (o : Option ℕ) → InOrder c → InOrder (set_found id r c o).1
set_found-InOrder id r c none h = h
set_found-InOrder id r c (some k) h = erase_set-InOrder id c (set_value (answered id r) k c.cells) h

pub take_message-InOrder :
    (c : Client) (m : Option Message) → InOrder c → InOrder (take_message c m).1
take_message-InOrder c none h = h
take_message-InOrder c (some (notification method params)) h = shared h refl refl refl refl refl
take_message-InOrder c (some (response (negsuc n) r)) h = h
take_message-InOrder c (some (response (pos id) r)) h =
    set_found-InOrder id r c (find_callback id c.callback) h

pub get_future-InOrder :
    (id : ℕ) (c : Client) (o : Option ℕ) → InOrder c → InOrder (future_of id c o).1
unfolding new_promise
get_future-InOrder id c none h = shared h refl refl refl refl refl
get_future-InOrder id c (some k) h = shared h refl refl refl refl refl

pub call_request-InOrder :
    (method : Text) (params : Option Text) (b : Bool) (c : Client) (id : ℕ) (d : Client)
    → InOrder c
    → request_unless method params b c ≡ ok (id, d)
    → InOrder d
unfolding new_promise
call_request-InOrder method params true c id d h e = cc
call_request-InOrder method params false c id d h e =
    let same : enqueue_message (record { id = c.next_id; method = method; params = params })
          (new_promise c.next_id (record c { next_id = c.next_id + 1 }))
        ≡ d =
      ground arith in
    subst InOrder same (enqueue-InOrder _ _ (shared h refl refl refl refl refl))
