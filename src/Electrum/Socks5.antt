-- ===== src/Electrum/Socks5.antt =====
-- handle_socks5 of src/electrumclient.cpp: what is written to the proxy, from what it answers.
use libnunchuk.Base.{
  ℕ, zero, suc, ◌/◌, ◌%◌, List, [], ◌∷◌, ◌++◌, Option, none, some, ◌==◌, Bool, true, false, not,
  ◌&&◌, ◌||◌, if◌then◌else◌,
}
use libnunchuk.Base.Int.{pos_part}
use libnunchuk.Base.Lists.{length}
use libnunchuk.Base.Text.{Text}
use libnunchuk.Base.Search.{is_empty}
use libnunchuk.Types.{Result, ok, throw, ◌>>=◌, std_exception}
use libnunchuk.Electrum.Server.{Endpoint}

-- The handshake so far: the messages that were written.
abbrev pub Outcome : Type 0
Outcome = Result (Bool × List Text)

-- `read` of a number of bytes: they and the rest, or an exception at the end of the stream.
unfoldable pub read_bytes : ℕ → Text → Result (Text × Text)
read_bytes zero s = ok ([], s)
read_bytes (suc n) [] = throw std_exception
read_bytes (suc n) (c ∷ s) = read_bytes n s >>= (λ r. ok (c ∷ r.0, r.1))

abbrev pub two_bytes : Text → Result (ℕ × ℕ × Text)
two_bytes (a ∷ b ∷ s) = ok (a, b, s)
two_bytes _ = throw std_exception

abbrev pub four_bytes : Text → Result (ℕ × ℕ × ℕ × ℕ × Text)
four_bytes (a ∷ b ∷ c ∷ d ∷ s) = ok (a, b, c, d, s)
four_bytes _ = throw std_exception

unfoldable pub has_login : Endpoint → Bool
has_login e = not (is_empty e.proxy_username) && not (is_empty e.proxy_password)

abbrev pub auth_req : Bool → Text
auth_req true = 5 ∷ 2 ∷ 0 ∷ 2 ∷ []
auth_req false = 5 ∷ 1 ∷ 0 ∷ []

-- A length as a byte, `push_back(s.length())`, and the text.
abbrev pub counted : Text → Text
counted s = length s % 256 ∷ s

unfoldable pub up_req : Endpoint → Text
up_req e = 1 ∷ (counted e.proxy_username ++ counted e.proxy_password)

-- The port is not negative.
unfoldable pub connect_req : Endpoint → Text
connect_req e =
    let port = pos_part e.server.port in
    5 ∷ 1 ∷ 0 ∷ 3 ∷ (counted e.server.host ++ (port / 256 % 256 ∷ port % 256 ∷ []))

-- The address at the end of the reply, by its kind: IP V4, IP V6 or a name; none for another kind.
unfoldable pub skip_address : ℕ → Text → Result (Option Text)
unfolding read_bytes
skip_address kind s =
    if kind == 1
    then (read_bytes 4 s >>= (λ r. ok (some r.1)))
    else if kind == 4
    then (read_bytes 16 s >>= (λ r. ok (some r.1)))
    else if kind == 3
    then (read_bytes 1 s >>= (λ r. read_bytes (name_length r.0) r.1 >>= (λ q. ok (some q.1))))
    else ok none
  where
    name_length : Text → ℕ
    name_length [] = 0
    name_length (n ∷ _) = n

abbrev pub last_read : List Text → Option Text → Outcome
last_read written none = ok (false, written)
last_read written (some s) = two_bytes s >>= (λ _. ok (true, written))

-- The reply to the request for a connection; `failed` if one of its first three bytes is wrong.
abbrev pub connect_answer : List Text → Bool → ℕ → Text → Outcome
connect_answer written true kind s = ok (false, written)
connect_answer written false kind s = skip_address kind s >>= last_read written

abbrev pub connect_reply : List Text → ℕ × ℕ × ℕ × ℕ × Text → Outcome
connect_reply written (version, code, reserved, kind, s) =
    connect_answer written (not (version == 5) || not (code == 0) || not (reserved == 0)) kind s

-- The connection that is asked for.
unfoldable pub ask_connect : Endpoint → List Text → Text → Outcome
unfolding skip_address connect_req
ask_connect e before s = four_bytes s >>= connect_reply (before ++ connect_req e ∷ [])

abbrev pub login_answer : Endpoint → List Text → Bool → Text → Outcome
login_answer e written true s = ok (false, written)
login_answer e written false s = ask_connect e written s

abbrev pub login_reply : Endpoint → List Text → ℕ × ℕ × Text → Outcome
login_reply e written (version, code, s) =
    login_answer e written (not (version == 1) || not (code == 0)) s

-- The user name and the password.
unfoldable pub ask_login : Endpoint → List Text → Text → Outcome
unfolding ask_connect up_req
ask_login e before s =
    let written = before ++ up_req e ∷ [] in two_bytes s >>= login_reply e written

-- Whether the method that the proxy chose is the one with a user name, and whether it is the one with
-- neither.
abbrev pub by_method : Endpoint → List Text → Bool → Bool → Text → Outcome
by_method e written true free s = ask_login e written s
by_method e written false true s = ask_connect e written s
by_method e written false false s = ok (false, written)

abbrev pub greeting_answer : Endpoint → List Text → Bool → ℕ → Text → Outcome
greeting_answer e written false method s = ok (false, written)
greeting_answer e written true method s =
    by_method e written (has_login e && method == 2) (method == 0) s

abbrev pub greeting_reply : Endpoint → List Text → ℕ × ℕ × Text → Outcome
greeting_reply e written (version, method, s) = greeting_answer e written (version == 5) method s

abbrev pub through_proxy : Endpoint → Text → Bool → Outcome
through_proxy e replies false = ok (true, [])
through_proxy e replies true = two_bytes replies >>= greeting_reply e (auth_req (has_login e) ∷ [])

unfoldable pub handle_socks5 : Endpoint → Text → Outcome
unfolding ask_connect ask_login has_login
handle_socks5 e replies = through_proxy e replies e.use_proxy
