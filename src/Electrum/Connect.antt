-- ===== src/Electrum/Connect.antt =====
-- The request for a connection of src/electrumclient.cpp, and a reader of it after RFC 1928.
use libnunchuk.Base.{
  ℕ, zero, suc, ◌+◌, ◌*◌, ◌/◌, ◌%◌, ◌<◌, ◌≡◌, refl, ap, ◌∙◌, [], ◌∷◌, ◌++◌, Option, none, some,
  ◌==◌, ◌&&◌, arith, if◌then◌else◌,
}
use libnunchuk.Base.Int.{pos, pos_part}
use libnunchuk.Base.Lists.{length}
use libnunchuk.Base.Text.{Text}
use libnunchuk.Electrum.Server.{Endpoint}
use libnunchuk.Electrum.Socks5.{connect_req}

abbrev add_first : ℕ → Option (Text × Text) → Option (Text × Text)
add_first c none = none
add_first c (some (front, back)) = some (c ∷ front, back)

-- A number of bytes, and what stands behind them.
abbrev take_text : ℕ → Text → Option (Text × Text)
take_text zero s = some ([], s)
take_text (suc n) [] = none
take_text (suc n) (c ∷ s) = add_first c (take_text n s)

abbrev port_behind : Option (Text × Text) → Option (Text × ℕ)
port_behind (some (host, high ∷ low ∷ [])) = some (host, high * 256 + low)
port_behind _ = none

abbrev name_and_port : Text → Option (Text × ℕ)
name_and_port [] = none
name_and_port (n ∷ s) = port_behind (take_text n s)

-- A request of RFC 1928 to connect to a host by its name: its host and its port.
abbrev pub read_request : Text → Option (Text × ℕ)
read_request (v ∷ cmd ∷ rsv ∷ atyp ∷ s) =
    if v == 5 && cmd == 1 && rsv == 0 && atyp == 3 then name_and_port s else none
read_request _ = none

take_text-append : (s t : Text) → take_text (length s) (s ++ t) ≡ some (s, t)
take_text-append [] t = refl
take_text-append (c ∷ s) t = ap (add_first c) (take_text-append s t)

port_behind-append :
    (host : Text) (p : ℕ)
    → p < 65536
    → port_behind (take_text (length host) (host ++ (p / 256 % 256 ∷ p % 256 ∷ [])))
      ≡ some (host, p)
port_behind-append host p h =
    ap port_behind (take_text-append host (p / 256 % 256 ∷ p % 256 ∷ []))
    ∙ ap (λ n. some (host, n)) (omega arith)

-- Where the host has fewer than 256 bytes and the port fewer than 17 bits, what is sent to the proxy
-- is, as RFC 1928 reads it, a request to connect to that host at that port.
pub read_request-connect_req :
    (e : Endpoint) (p : ℕ)
    → length e.server.host < 256
    → e.server.port ≡ pos p
    → p < 65536
    → read_request (connect_req e) ≡ some (e.server.host, p)
unfolding connect_req
read_request-connect_req e p short port small =
    let size : length e.server.host % 256 ≡ length e.server.host = omega arith in
    let number : pos_part e.server.port ≡ p = ap pos_part port in
    rw (size, number) (port_behind-append e.server.host p small)
