-- ===== src/Electrum/Calls.antt =====
-- The calls of src/electrumclient.cpp: call_method, in the two parts between which other threads run,
-- and handle_read. Parsing JSON is a parameter.
use libnunchuk.Base.{
  ℕ, ◌+◌, List, [], ◌∷◌, ◌++◌, Option, none, some, ◌==◌, ltb, Bool, true, false, if◌then◌else◌,
}
use libnunchuk.Base.Int.{ℤ, pos, negsuc}
use libnunchuk.Base.Lists.{length}
use libnunchuk.Base.Text.{Text}
use libnunchuk.Types.{Result, ok, throw, server_request_error, std_exception}
use libnunchuk.Electrum.Requests.{
  Response, Answer, disconnected, answered, Cell, Client, Handled, enqueue_message, set_value,
  handle_error,
}

-- The map callback_, ordered by id.
unfoldable pub find_callback : ℕ → List (ℕ × ℕ) → Option ℕ
find_callback id [] = none
find_callback id ((i, k) ∷ callback) =
    let rest = find_callback id callback in if id == i then some k else rest

unfoldable pub put_callback : ℕ → ℕ → List (ℕ × ℕ) → List (ℕ × ℕ)
put_callback id k [] = (id, k) ∷ []
put_callback id k ((i, j) ∷ callback) =
    let rest = put_callback id k callback in
    if id == i
    then (id, k) ∷ callback
    else if ltb id i
    then (id, k) ∷ (i, j) ∷ callback
    else (i, j) ∷ rest

unfoldable pub erase_callback : ℕ → List (ℕ × ℕ) → List (ℕ × ℕ)
erase_callback id [] = []
erase_callback id ((i, k) ∷ callback) =
    let rest = erase_callback id callback in if id == i then rest else (i, k) ∷ rest

-- A new promise under an id.
unfoldable pub new_promise : ℕ → Client → Client
unfolding put_callback
new_promise id c = record c {
  callback = put_callback id (length c.cells) c.callback;
  cells = c.cells ++ record { owner = id; value = none } ∷ [];
}

abbrev pub request_unless : Text → Option Text → Bool → Client → Result (ℕ × Client)
request_unless method params true c = throw server_request_error
request_unless method params false c = ok (
  c.next_id,
  enqueue_message (record { id = c.next_id; method = method; params = params })
      (new_promise c.next_id (record c { next_id = c.next_id + 1 })),
)

-- call_method up to the request; the id of the call.
unfoldable pub call_request : Text → Option Text → Client → Result (ℕ × Client)
unfolding new_promise enqueue_message
call_request method params c = request_unless method params c.stopped c

abbrev pub wait_at : ℕ → ℕ → Client → ℕ × Client
wait_at id k c = (k, record c { waiting = (id, k) ∷ c.waiting })

abbrev pub future_of : ℕ → Client → Option ℕ → ℕ × Client
future_of id c none = wait_at id (length c.cells) (new_promise id c)
future_of id c (some k) = wait_at id k c

-- `callback_[id].get_future()`: where the id is not there, a promise is made.
unfoldable pub get_future : ℕ → Client → ℕ × Client
unfolding new_promise find_callback
get_future id c = future_of id c (find_callback id c.callback)

abbrev pub result_or : Text → Option Text → Result Text
result_or result none = ok result
result_or result (some message) = throw server_request_error

-- The rest of call_method, once the future is ready.
unfoldable pub call_result : Answer → Result Text
call_result disconnected = throw server_request_error
call_result (answered id r) = result_or r.result r.error

-- A message of the server; the id of a response is an `int`.
pub data Message : Type 0 where
  notification : Text → Text → Message
  response : ℤ → Response → Message

abbrev pub erase_set : ℕ → Client → Option (List Cell) → Handled
erase_set id c none = (some std_exception, c)
erase_set id c (some set) =
    (none, record c { cells = set; callback = erase_callback id c.callback })

abbrev pub set_found : ℕ → Response → Client → Option ℕ → Handled
set_found id r c none = (none, c)
set_found id r c (some k) = erase_set id c (set_value (answered id r) k c.cells)

abbrev pub take_message : Client → Option Message → Handled
take_message c none = (some std_exception, c)
take_message c (some (notification method params)) =
    (none, record c { signals = c.signals ++ (method, params) ∷ [] })
take_message c (some (response (negsuc n) r)) = (none, c)
take_message c (some (response (pos id) r)) = set_found id r c (find_callback id c.callback)

-- One line that was read; `parse` is `json::parse` with the reading of the id.
module _ (parse : Text → Option Message) where
  abbrev pub handle_line : Client → Text → Handled
  handle_line c [] = (none, c)
  handle_line c (x ∷ line) = take_message c (parse (x ∷ line))

  unfoldable pub handle_read : Bool → Text → Client → Handled
  unfolding erase_callback find_callback set_value handle_error
  handle_read true line c = handle_error c
  handle_read false line c = handle_line c line
