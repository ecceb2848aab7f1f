-- ===== src/Electrum/Requests.antt =====
-- The requests of src/electrumclient.cpp: the queue and the writes. The handlers are taken one after
-- another. `asked` and `sent` are no fields of the class: the history of the messages that were
-- enqueued, and of those whose write has ended well. `writing` holds what was given to `async_write`
-- and has not been written yet.
use libnunchuk.Base.{
  ℕ, zero, suc, ◌+◌, List, [], ◌∷◌, ◌++◌, Option, none, some, Bool, true, false, not,
}
use libnunchuk.Base.Search.{is_empty}
use libnunchuk.Base.Text.{Text, codes}
use libnunchuk.Types.{Exception, std_exception}

-- The JSON of a request.
pub record Request : Type 0 where
  pub id : ℕ
  pub method : Text
  pub params : Option Text

pub record Response : Type 0 where
  pub error : Option Text
  pub result : Text

-- What a promise is set to.
pub data Answer : Type 0 where
  disconnected : Answer
  answered : ℕ → Response → Answer

-- The shared state of a promise and its future, with the id that it was made for.
pub record Cell : Type 0 where
  pub owner : ℕ
  pub value : Option Answer

-- `callback_` maps an id to a promise; `cells` are the shared states, in the order they were made;
-- `waiting` are the calls that have taken their future, by their ids.
pub record Client : Type 0 where
  pub connected : Bool
  pub stopped : Bool
  pub next_id : ℕ
  pub request_queue : List Request
  pub writing : List Request
  pub sent : List Request
  pub asked : List Request
  pub callback : List (ℕ × ℕ)
  pub cells : List Cell
  pub waiting : List (ℕ × ℕ)
  pub signals : List (Text × Text)
  pub disconnects : ℕ

abbrev pub new_client : Client
new_client = record {
  connected = false;
  stopped = false;
  next_id = 0;
  request_queue = [];
  writing = [];
  sent = [];
  asked = [];
  callback = [];
  cells = [];
  waiting = [];
  signals = [];
  disconnects = 0;
}

-- A handler's exception, and the client it leaves.
abbrev pub Handled : Type 0
Handled = Option Exception × Client

abbrev pub write_front : List Request → Bool → Client → Client
write_front [] connected c = c
write_front (r ∷ queue) false c = c
write_front (r ∷ queue) true c = record c { writing = c.writing ++ r ∷ [] }

unfoldable pub socket_write : Client → Client
socket_write c = write_front c.request_queue c.connected c

abbrev pub write_unless : Bool → Client → Client
write_unless true c = c
write_unless false c = write_front c.request_queue c.connected c

abbrev pub push_request : Request → Client → Client
push_request r c = record c { request_queue = c.request_queue ++ r ∷ []; asked = c.asked ++ r ∷ [] }

unfoldable pub enqueue_message : Request → Client → Client
enqueue_message r c =
    let write_in_progress = not (is_empty c.request_queue) in
    write_unless write_in_progress (push_request r c)

unfoldable pub ping : Client → Client
unfolding enqueue_message
ping c =
    enqueue_message (record { id = c.next_id; method = codes "server.ping"; params = none })
      (record c { next_id = c.next_id + 1 })

-- `set_value`, which throws where the value is set.
abbrev pub set_cell : Answer → ℕ → Option Answer → Option Cell
set_cell a owner none = some (record { owner = owner; value = some a })
set_cell a owner (some b) = none

abbrev pub put_first : Option Cell → List Cell → Option (List Cell)
put_first none cells = none
put_first (some k) cells = some (k ∷ cells)

abbrev pub put_rest : Cell → Option (List Cell) → Option (List Cell)
put_rest k none = none
put_rest k (some cells) = some (k ∷ cells)

unfoldable pub set_value : Answer → ℕ → List Cell → Option (List Cell)
set_value a i [] = none
set_value a zero (k ∷ cells) = put_first (set_cell a k.owner k.value) cells
set_value a (suc i) (k ∷ cells) = put_rest k (set_value a i cells)

abbrev pub keep_cells : List Cell → Option (List Cell) → Bool × List Cell
keep_cells cells none = (false, cells)
keep_cells cells (some set) = (true, set)

-- Whether the loop came to its end, and the cells it leaves.
abbrev pub go_on : (List Cell → Bool × List Cell) → Bool × List Cell → Bool × List Cell
go_on rest (false, cells) = (false, cells)
go_on rest (true, cells) = rest cells

unfoldable pub set_all : List (ℕ × ℕ) → List Cell → Bool × List Cell
unfolding set_value
set_all [] cells = (true, cells)
set_all ((id, i) ∷ callback) cells =
    go_on (λ set. set_all callback set) (keep_cells cells (set_value disconnected i cells))

abbrev pub signal_disconnect : Bool → Client → Handled
signal_disconnect false c = (some std_exception, c)
signal_disconnect true c = (none, record c { disconnects = c.disconnects + 1 })

unfoldable pub handle_error : Client → Handled
unfolding set_all
handle_error c =
    let (all, set) = set_all c.callback c.cells in
    signal_disconnect all (record c { stopped = true; cells = set })

-- The end of a write: asio reports it, and whether it went wrong.
abbrev pub pop_front : List Request → List Request
pop_front [] = []
pop_front (r ∷ queue) = queue

abbrev pub written : Client → Client
written c = record c {
  sent = c.sent ++ c.writing;
  writing = [];
  request_queue = pop_front c.request_queue;
}

unfoldable pub handle_write : Bool → Client → Handled
unfolding socket_write handle_error
handle_write true c = handle_error (record c { writing = [] })
handle_write false c = (none, socket_write (written c))

-- The outcome of `handle_socks5`; the TLS handshake is not modelled.
unfoldable pub handle_connect : Bool → Option Bool → Client → Handled
unfolding socket_write handle_error
handle_connect true socks c = handle_error c
handle_connect false none c = (some std_exception, c)
handle_connect false (some false) c = handle_error c
handle_connect false (some true) c = (none, socket_write (record c { connected = true }))
