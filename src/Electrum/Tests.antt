-- ===== src/Electrum/Tests.antt =====
-- Examples of the client of src/electrumclient.cpp.
use libnunchuk.Base.{
  ℕ, not, ◌≡◌, refl, List, [], ◌∷◌, Option, none, some, ◌==◌, if◌then◌else◌, true, false, arith,
}
use libnunchuk.Base.Int.{pos}
use libnunchuk.Base.Search.{is_empty}
use libnunchuk.Base.Lists.{All}
use libnunchuk.Base.Text.{Text, codes}
use libnunchuk.Base.Decimal.{stoi, read_signed, skip_space}
use libnunchuk.Types.{ok}
use libnunchuk.Electrum.Server.{Server, Endpoint, parse_server}
use libnunchuk.Electrum.Socks5.{connect_req, handle_socks5, auth_req, up_req}
use libnunchuk.Electrum.Address.{server_text, parse_server-server_text}
use libnunchuk.Electrum.Handshake.{Talk, handle_socks5-Talk}
use libnunchuk.Electrum.Connect.{read_request, read_request-connect_req}
use libnunchuk.Electrum.Requests.{
  Request, Response, Client, handle_write, push_request, write_unless, new_client, enqueue_message,
  ping, handle_connect, socket_write,
}
use libnunchuk.Electrum.Calls.{
  Message, response, call_request, get_future, handle_read, new_promise, put_callback,
  find_callback,
}
use libnunchuk.Electrum.Run.{Run, start, called, waited, pinged, connects, reads}
use libnunchuk.Electrum.Ordered.{enqueue_all, IsStalled, handle_write-enqueue_message}
use libnunchuk.Electrum.Owned.{Waits, Run-Waits}
use libnunchuk.Electrum.Answers.{
  IsAnswered, IsLost, call_request-handle_read, handle_read-get_future,
}

abbrev example_server : Server
example_server = record { protocol = codes "ssl"; host = codes "node.org"; port = pos 50002 }

parse_server-server_text_example : parse_server (server_text example_server) ≡ ok example_server
parse_server-server_text_example =
    parse_server-server_text example_server (refl, (refl, (refl, tt)))
      (refl, (refl, (refl, (refl, (refl, (refl, (refl, (refl, tt))))))))
      (ground arith, ground arith)

reads_server :
    parse_server (codes "node.org:65400")
    ≡ ok (record { protocol = codes "tcp"; host = codes "node.org"; port = pos 50001 })
unfolding parse_server stoi read_signed skip_space
reads_server = refl

abbrev example_endpoint : Endpoint
example_endpoint = record {
  server = example_server;
  is_secure = true;
  use_proxy = true;
  proxy_host = codes "localhost";
  proxy_port = pos 9050;
  proxy_username = codes "me";
  proxy_password = codes "pw";
}

abbrev proxy_replies : Text
proxy_replies = 5 ∷ 2 ∷ 1 ∷ 0 ∷ 5 ∷ 0 ∷ 0 ∷ 1 ∷ 127 ∷ 0 ∷ 0 ∷ 1 ∷ 0 ∷ 80 ∷ []

abbrev proxy_messages : List Text
proxy_messages = auth_req true ∷ up_req example_endpoint ∷ connect_req example_endpoint ∷ []

socks_runs : handle_socks5 example_endpoint proxy_replies ≡ ok (true, proxy_messages)
unfolding handle_socks5
socks_runs = refl

handle_socks5-Talk_example : Talk example_endpoint proxy_replies true proxy_messages
handle_socks5-Talk_example =
    handle_socks5-Talk example_endpoint proxy_replies true proxy_messages socks_runs

read_request-connect_req_example :
    read_request (connect_req example_endpoint) ≡ some (codes "node.org", 50002)
read_request-connect_req_example =
    read_request-connect_req example_endpoint 50002 (ground arith) refl (ground arith)

-- One line is a response to the request with id 0, another a response to the ping behind it.
abbrev result_of : Text → Response
result_of result = record { error = none; result = result }

abbrev read_reply : Text → Option Message
read_reply [] = none
read_reply (c ∷ line) =
    if c == 65
    then some (response (pos 0) (result_of (codes "r0")))
    else if c == 66
    then some (response (pos 1) (result_of (codes "r1")))
    else none

abbrev asked_once : Client
asked_once = record new_client {
  next_id = 1;
  request_queue = record { id = 0; method = codes "m"; params = none } ∷ [];
  asked = record { id = 0; method = codes "m"; params = none } ∷ [];
  callback = (0, 0) ∷ [];
  cells = record { owner = 0; value = none } ∷ [];
}

asks_once : call_request (codes "m") none new_client ≡ ok (0, asked_once)
unfolding call_request new_promise enqueue_message put_callback
asks_once = refl

abbrev run_client : Client
run_client =
    (handle_read read_reply false (65 ∷ [])
      (handle_connect false (some true) (ping (get_future 0 asked_once).1)).1).1

example-Run : Run read_reply run_client
unfolding get_future ping handle_connect enqueue_message find_callback socket_write
example-Run =
    reads false (65 ∷ []) (
      connects false (some true) (pinged (waited 0 (called (codes "m") none start asks_once))) refl)

abbrev one_request : Client
one_request = record asked_once { connected = true; writing = asked_once.request_queue }

abbrev next_request : ℕ → Request
next_request id = record { id = id; method = codes "m"; params = none }

handle_write-enqueue_message_example :
    IsStalled (next_request 1 ∷ next_request 2 ∷ []) (handle_write false one_request).1 (
      enqueue_all (next_request 2 ∷ []) (
        write_unless
          (not (is_empty one_request.request_queue))
          (push_request (next_request 1) (handle_write false one_request).1)))
handle_write-enqueue_message_example =
    handle_write-enqueue_message one_request (next_request 0) (next_request 1) (next_request 2 ∷ [])
      refl

Run-Waits_example : All (Waits run_client.cells) run_client.waiting
Run-Waits_example = Run-Waits read_reply run_client example-Run

call_request-handle_read_example :
    IsAnswered 0
      (result_of (codes "r0"))
      (get_future 0 asked_once)
      (handle_read read_reply false (65 ∷ []) (get_future 0 asked_once).1)
call_request-handle_read_example =
    call_request-handle_read read_reply (codes "m") none new_client asked_once 0 65 []
      (result_of (codes "r0")) asks_once refl

handle_read-get_future_example :
    IsLost 0 asked_once
      (handle_read read_reply false (65 ∷ []) asked_once)
      (get_future 0 (handle_read read_reply false (65 ∷ []) asked_once).1)
handle_read-get_future_example =
    handle_read-get_future read_reply (codes "m") none new_client asked_once 0 65 []
      (result_of (codes "r0")) asks_once refl
