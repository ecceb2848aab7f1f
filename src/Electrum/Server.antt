-- ===== src/Electrum/Server.antt =====
-- The constructor of ElectrumClient in src/electrumclient.cpp: which server, and how to reach it.
use libnunchuk.Base.{ℕ, List, [], ◌∷◌, Option, none, some, Bool, ◌||◌, map, if◌then◌else◌}
use libnunchuk.Base.Int.{ℤ, pos, negsuc, ltb_ℤ}
use libnunchuk.Base.Text.{Text, codes, text_eq}
use libnunchuk.Base.Search.{lower, behind_prefix, up_to, behind}
use libnunchuk.Base.Decimal.{stoi}
use libnunchuk.Types.{
  AppSettings, Chain, main, testnet, regtest, Result, ok, throw, ◌>>=◌, invalid_chain,
  std_exception,
}

-- DEFAULT_SERVER
abbrev pub default_server : Text
default_server = codes "127.0.0.1:50001"

abbrev pub first_server : List Text → Text
first_server [] = default_server
first_server (server ∷ _) = server

abbrev pub server_url : AppSettings → Chain → Result Text
server_url settings testnet = ok (first_server settings.testnet_servers)
server_url settings main = ok (first_server settings.mainnet_servers)
server_url settings regtest = throw invalid_chain

pub record Server : Type 0 where
  pub protocol : Text
  pub host : Text
  pub port : ℤ

abbrev pub add_to_scheme : ℕ → Option (Text × Text) → Option (Text × Text)
add_to_scheme c none = none
add_to_scheme c (some (scheme, rest)) = some (c ∷ scheme, rest)

-- The texts around the first "://".
unfoldable pub find_scheme : Text → Option (Text × Text)
unfolding behind_prefix
find_scheme [] = none
find_scheme (c ∷ s) = elim (behind_prefix (codes "://") (c ∷ s)) [
  | none ↦ add_to_scheme c (find_scheme s)
  | some rest ↦ some ([], rest)
]

abbrev pub default_port : ℤ
default_port = pos 50001

abbrev pub checked_port : Option ℤ → Result ℤ
checked_port none = throw std_exception
checked_port (some port) =
    ok (if ltb_ℤ port (pos 0) || ltb_ℤ (pos 65353) port then default_port else port)

unfoldable pub parse_port : Text → Result ℤ
parse_port [] = ok default_port
parse_port (c ∷ s) = checked_port (stoi (c ∷ s))

-- The host and the port of a text around its first colon, if there is one.
abbrev pub at_colon : Text → Text → Option Text → Result Server
at_colon protocol host none = ok (record { protocol = protocol; host = host; port = default_port })
at_colon protocol host (some digits) =
    parse_port digits >>= (λ port. ok (record { protocol = protocol; host = host; port = port }))

unfoldable pub parse_host : Text → Text → Result Server
unfolding behind up_to parse_port
parse_host protocol url = at_colon protocol (up_to b':' url) (behind b':' url)

abbrev pub at_scheme : Text → Option (Text × Text) → Result Server
at_scheme url none = parse_host (codes "tcp") url
at_scheme url (some (protocol, rest)) = parse_host protocol rest

unfoldable pub parse_server : Text → Result Server
unfolding find_scheme parse_host
parse_server url = at_scheme url (find_scheme url)

-- boost::iequals, on ASCII
abbrev pub iequals : Text → Text → Bool
iequals s t = text_eq (map lower s) (map lower t)

-- The value of `proxy_port_` before it is set.
abbrev pub default_proxy_port : ℤ
default_proxy_port = negsuc 0

-- What the client keeps of the settings.
pub record Endpoint : Type 0 where
  pub server : Server
  pub is_secure : Bool
  pub use_proxy : Bool
  pub proxy_host : Text
  pub proxy_port : ℤ
  pub proxy_username : Text
  pub proxy_password : Text

abbrev pub endpoint_of : AppSettings → Server → Endpoint
endpoint_of settings server =
    let used = settings.use_proxy in
    record {
      server = server;
      is_secure = iequals server.protocol (codes "ssl");
      use_proxy = used;
      proxy_host = if used then settings.proxy_host else [];
      proxy_port = if used then settings.proxy_port else default_proxy_port;
      proxy_username = if used then settings.proxy_username else [];
      proxy_password = if used then settings.proxy_password else [];
    }

unfoldable pub open_endpoint : AppSettings → Result Endpoint
unfolding parse_server
open_endpoint settings = do
  url ← server_url settings settings.chain
  server ← parse_server url
  ok (endpoint_of settings server)

-- The host and port that `socket_connect` resolves.
unfoldable pub socket_target : Endpoint → Text × ℤ
socket_target e =
    if e.use_proxy then (e.proxy_host, e.proxy_port) else (e.server.host, e.server.port)
