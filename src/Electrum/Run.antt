-- ===== src/Electrum/Run.antt =====
-- The runs of the client of src/electrumclient.cpp.
use libnunchuk.Base.{ℕ, ◌≡◌, List, ◌∷◌, Option, Bool, false}
use libnunchuk.Base.Text.{Text}
use libnunchuk.Types.{ok}
use libnunchuk.Electrum.Requests.{Request, Client, new_client, ping, handle_write, handle_connect}
use libnunchuk.Electrum.Calls.{Message, call_request, get_future, handle_read, call_request}

module _ (parse : Text → Option Message) where
  -- The client's handlers and its callers' parts of a call, each as one step, in any order, also
  -- after an error. A connection ends once, and a write's end is reported while a message is being written.
  pub data Run : Client → Type 0 where
    start : Run new_client
    called :
        {c d : Client} {id : ℕ} (method : Text) (params : Option Text)
        → Run c
        → call_request method params c ≡ ok (id, d)
        → Run d
    waited : {c : Client} (id : ℕ) → Run c → Run (get_future id c).1
    pinged : {c : Client} → Run c → Run (ping c)
    connects :
        {c : Client} (error : Bool) (socks : Option Bool)
        → Run c
        → c.connected ≡ false
        → Run (handle_connect error socks c).1
    reads :
        {c : Client} (error : Bool) (line : Text) → Run c → Run (handle_read parse error line c).1
    writes :
        {c : Client} (error : Bool) (r : Request) (w : List Request)
        → Run c
        → c.writing ≡ r ∷ w
        → Run (handle_write error c).1
