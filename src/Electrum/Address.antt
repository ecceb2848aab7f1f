-- ===== src/Electrum/Address.antt =====
-- The address of a server in src/electrumclient.cpp, written and read.
use libnunchuk.Base.{ℕ, ◌≡◌, refl, sym, ap, ◌∙◌, [], ◌∷◌, ◌++◌, some, ◌==◌, true, false, arith}
use mathlib.Core.List.{append-nil}
use libnunchuk.Base.Int.{ℤ, pos, ◌≤ℤ◌}
use libnunchuk.Base.Lists.{All}
use libnunchuk.Base.Text.{Text, codes}
use libnunchuk.Base.Search.{behind_prefix, up_to, behind}
use libnunchuk.Base.Decimal.{
  show, stoi, stoi-show, NoDigit, starts_digit, IsInt, skip_space, read_signed,
}
use libnunchuk.Types.{ok}
use libnunchuk.Electrum.Server.{
  Server, find_scheme, checked_port, parse_port, parse_host, parse_server,
}

abbrev pub NoColon : ℕ → Type 0
NoColon c = (c == b':') ≡ false

-- protocol://host:port
abbrev pub server_text : Server → Text
server_text s = s.protocol ++ (codes "://" ++ (s.host ++ (codes ":" ++ show s.port)))

find_scheme-append :
    (p rest : Text) → All NoColon p → find_scheme (p ++ (codes "://" ++ rest)) ≡ some (p, rest)
unfolding find_scheme behind_prefix
find_scheme-append [] rest h = refl
find_scheme-append (c ∷ p) rest h = ground (arith, h.0, find_scheme-append p rest h.1)

behind-append :
    (d : ℕ) (s t : Text)
    → All (λ c. (c == d) ≡ false) s
    → d == d ≡ true
    → behind d (s ++ d ∷ t) ≡ some t
unfolding behind
behind-append d [] t h e = rw e refl
behind-append d (c ∷ s) t h e = rw h.0 (behind-append d s t h.1 e)

up_to-append :
    (d : ℕ) (s t : Text) → All (λ c. (c == d) ≡ false) s → d == d ≡ true → up_to d (s ++ d ∷ t) ≡ s
unfolding up_to
up_to-append d [] t h e = rw e refl
up_to-append d (c ∷ s) t h e = rw h.0 (ap (λ x. c ∷ x) (up_to-append d s t h.1 e))

-- The ports that are taken as they are.
abbrev pub IsPort : ℤ → Type 0
IsPort n = (pos 0 ≤ℤ n) × (n ≤ℤ pos 65353)

parse_port-stoi : (s : Text) (n : ℤ) → stoi s ≡ some n → parse_port s ≡ checked_port (some n)
unfolding parse_port stoi skip_space read_signed
parse_port-stoi [] n e = cc
parse_port-stoi (c ∷ s) n e = ap checked_port e

NoDigit-end : NoDigit []
unfolding starts_digit
NoDigit-end = refl

checked_port-IsPort : (n : ℤ) → IsPort n → checked_port (some n) ≡ ok n
checked_port-IsPort n h = ground arith

parse_port-show : (n : ℤ) → IsPort n → parse_port (show n) ≡ ok n
parse_port-show n h =
    let small : IsInt n = (omega (arith, h), omega (arith, h)) in
    parse_port-stoi (show n) n
      (ap stoi (sym (append-nil (show n))) ∙ stoi-show n [] small NoDigit-end)
    ∙ checked_port-IsPort n h

parse_host-show :
    (protocol host : Text) (n : ℤ)
    → All NoColon host
    → IsPort n
    → parse_host protocol (host ++ (codes ":" ++ show n))
      ≡ ok (record { protocol = protocol; host = host; port = n })
unfolding parse_host
parse_host-show protocol host n h port =
    rw
      (
        behind-append b':' host (show n) h refl,
        up_to-append b':' host (show n) h refl,
        parse_port-show n port,
      )
      refl

-- The address of a server is read back from its text, if there is no colon in its protocol and host
-- and its port is one from 0 to 65353.
pub parse_server-server_text :
    (s : Server)
    → All NoColon s.protocol
    → All NoColon s.host
    → IsPort s.port
    → parse_server (server_text s) ≡ ok s
unfolding parse_server
parse_server-server_text s h k port =
    rw (find_scheme-append s.protocol (s.host ++ (codes ":" ++ show s.port)) h)
      (parse_host-show s.protocol s.host s.port k port)
