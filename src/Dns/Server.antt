-- ===== src/Dns/Server.antt =====
-- internal/dns/dns.go: the server around the handler. What binding a socket and shutting a server down give
-- is an argument.
use corenet.Common.{
  text_eq, quad_text, IsQuad, parse_ip-text, ℕ, Text, ◌≡◌, refl, List, [], ◌∷◌, Option, none, some,
  ◌<|>◌, parse_ip, to4,
}

-- An error of the operating system; `privileged` is one that wraps EACCES or EPERM.
pub data Failure : Type 0 where
  privileged : Text → Failure
  other : Text → Failure

-- `Server`: the address that it listens on, and the address that known names get.
pub record Server : Type 0 where
  pub addr : Text
  pub answer : List ℕ

-- `New`; none is the error that the answer is not an IPv4 address.
unfoldable pub new_server : Text → Text → Option Server
unfolding parse_ip to4
new_server addr answer_ip = elim (parse_ip answer_ip) [
  | none ↦ none
  | some ip ↦ elim (to4 ip) [
    | none ↦ none
    | some quad ↦ some (record { addr = addr; answer = quad })
  ]
]

-- The sockets that `Start` leaves bound, or which one failed.
pub data Bound : Type 0 where
  both : Bound
  udp_failed : Failure → Bound
  tcp_failed : Failure → Bound

-- `Start`, on what binding each socket gives. Where the second fails the first is closed.
abbrev pub start : Option Failure → Option Failure → Bound
start (some e) tcp = udp_failed e
start none (some e) = tcp_failed e
start none none = both

-- `Shutdown`, on what shutting each listener down gives: the first error.
abbrev pub shutdown : Option Failure → Option Failure → Option Failure
shutdown udp tcp = udp <|> tcp

-- A server that is made with a dotted quad answers with its four numbers.
pub new_server-text :
    (addr : Text) (a b c d : ℕ)
    → IsQuad a b c d
    → new_server addr (quad_text a b c d)
      ≡ some (record { addr = addr; answer = a ∷ b ∷ c ∷ d ∷ [] })
unfolding new_server to4 text_eq
new_server-text addr a b c d q = rw (new_server, parse_ip-text a b c d q) refl
