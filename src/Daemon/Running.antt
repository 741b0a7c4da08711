-- ===== src/Daemon/Running.antt =====
-- internal/daemon/daemon.go: how Run binds the listeners and how it stops. What each call of the operating
-- system gives is an argument. http.Server is known by its listener alone.
pub mod Steps
pub mod Started
pub mod Stopped
pub mod Tests
use corenet.Common.{
  Text, bytes, Bool, true, false, not, ◌&&◌, ◌||◌, List, [], ◌∷◌, ◌++◌, Option, none, some, ◌<|>◌,
  is_empty, text_eq, split_host_port, is_some, if◌then◌else◌,
}
use corenet.Config.{Config, Listen}
use corenet.Dns.Server.{
  Failure, privileged, other, Server, new_server, Bound, both, udp_failed, tcp_failed, start,
  shutdown,
}

-- `proxyAddress`
unfoldable pub proxy_address : Text → Text
unfolding split_host_port text_eq
proxy_address http_addr = elim (split_host_port http_addr) [
  | none ↦ bytes "127.0.0.1"
  | some p ↦
      if is_empty p.0 || (text_eq p.0 (bytes "0.0.0.0") || text_eq p.0 (bytes "::"))
      then bytes "127.0.0.1"
      else p.0
]

-- What os.Stat says of a path.
pub data Stat : Type 0 where
  absent : Stat
  stat_failed : Failure → Stat
  socket : Stat
  no_socket : Stat

-- What the calls of `Run` give: none where one succeeds. `dialled` is whether a connection to the control
-- socket is accepted.
pub record System : Type 0 where
  pub listen_dns_udp : Option Failure
  pub listen_dns_tcp : Option Failure
  pub listen_http : Option Failure
  pub listen_peer : Option Failure
  pub make_directory : Option Failure
  pub stat : Stat
  pub dialled : Bool
  pub remove_socket : Option Failure
  pub listen_control : Option Failure
  pub chmod : Option Failure

-- What `Run` reports before it serves. The last field of `cannot_bind` is whether it explains that ports
-- below 1024 need privileges.
pub data RunError : Type 0 where
  not_ipv4 : Text → RunError
  cannot_bind : Text → Text → Failure → Bool → RunError
  no_directory : Failure → RunError
  no_stat : Failure → RunError
  not_a_socket : Text → RunError
  already_running : Text → RunError
  not_removed : Failure → RunError
  control_failed : Text → Failure → RunError

-- `bindError`
abbrev pub bind_error : Text → Text → Failure → RunError
bind_error name addr (privileged e) = cannot_bind name addr (privileged e) true
bind_error name addr (other e) = cannot_bind name addr (other e) false

-- The listeners of a node.
pub data Kind : Type 0 where
  dns_udp : Kind
  dns_tcp : Kind
  http : Kind
  peer : Kind
  control : Kind

-- The servers of `Daemon`, with the sockets that are bound and the files that were removed. A server is
-- true where its field is not nil.
pub record Servers : Type 0 where
  pub dns_server : Option Server
  pub http_server : Bool
  pub peer_server : Bool
  pub control_server : Bool
  pub bound : List (Kind × Text)
  pub removed : List Text

abbrev pub no_servers : Servers
no_servers = record {
  dns_server = none;
  http_server = false;
  peer_server = false;
  control_server = false;
  bound = [];
  removed = [];
}

-- A step of the start: it goes on, or `Run` returns an error.
pub data Start : Type 0 where
  going : Servers → Start
  failed : RunError → Servers → Start

infixl 5 ◌>>=◌
abbrev pub ◌>>=◌ : Start → (Servers → Start) → Start
going s >>= f = f s
failed e s >>= f = failed e s

abbrev pub bind : Kind → Text → Servers → Servers
bind kind addr s = record s { bound = s.bound ++ (kind, addr) ∷ [] }

-- The end of `startDNS`, after `New`.
abbrev pub serve_dns_on : Text → Server → Bound → Servers → Start
serve_dns_on addr server both s =
    going (record (bind dns_tcp addr (bind dns_udp addr s)) { dns_server = some server })
serve_dns_on addr server (udp_failed e) s = failed (bind_error (bytes "dns") addr e) s
serve_dns_on addr server (tcp_failed e) s = failed (bind_error (bytes "dns") addr e) s

-- The listener of a server over TCP, at its address.
abbrev pub listen : Kind → Text → Text → Option Failure → Servers → Start
listen kind name addr none s = going (bind kind addr s)
listen kind name addr (some e) s = failed (bind_error name addr e) s

-- A call that has no result but its error.
abbrev pub or_fail : Option Failure → (Failure → RunError) → Servers → Start
or_fail none why s = going s
or_fail (some e) why s = failed (why e) s

-- `removeStaleSocket`
unfoldable pub remove_stale_socket : System → Text → Servers → Start
remove_stale_socket sys path s = elim sys.stat [
  | absent ↦ going s
  | stat_failed e ↦ failed (no_stat e) s
  | no_socket ↦ failed (not_a_socket path) s
  | socket ↦ if sys.dialled then failed (already_running path) s else elim sys.remove_socket [
    | none ↦ going (record s { removed = s.removed ++ path ∷ [] })
    | some e ↦ failed (not_removed e) s
  ]
]

module _ (sys : System) where
  -- `startDNS`
  unfoldable pub start_dns : Listen → Servers → Start
  unfolding proxy_address new_server
  start_dns cfg s =
      let answer = proxy_address cfg.http in
      if is_empty cfg.dns then going s else elim (new_server cfg.dns answer) [
        | none ↦ failed (not_ipv4 answer) s
        | some server ↦ serve_dns_on cfg.dns server (start sys.listen_dns_udp sys.listen_dns_tcp) s
      ]

  -- `startHTTP`
  unfoldable pub start_http : Listen → Servers → Start
  start_http cfg s = if is_empty cfg.http then going s else (do
    s ← listen http (bytes "http") cfg.http sys.listen_http s
    going (record s { http_server = true }))

  -- `startPeerAPI`
  unfoldable pub start_peer_api : Listen → Servers → Start
  start_peer_api cfg s = if is_empty cfg.peer then going s else (do
    s ← listen peer (bytes "peer") cfg.peer sys.listen_peer s
    going (record s { peer_server = true }))

  -- `startControlAPI`
  unfoldable pub start_control_api : Listen → Servers → Start
  unfolding remove_stale_socket
  start_control_api cfg s = do
    s ← or_fail sys.make_directory no_directory s
    s ← remove_stale_socket sys cfg.control s
    s ← or_fail sys.listen_control (control_failed cfg.control) s
    s ← or_fail sys.chmod (control_failed cfg.control) (bind control cfg.control s)
    going (record s { control_server = true })

  -- `Run` until it serves.
  unfoldable pub start_all : Listen → Start
  unfolding start_dns start_http start_peer_api start_control_api
  start_all cfg = do
    s ← start_dns cfg no_servers
    s ← start_http cfg s
    s ← start_peer_api cfg s
    start_control_api cfg s

-- What shutting each server down gives: none where it succeeds.
pub record Stops : Type 0 where
  pub stop_http : Option Failure
  pub stop_peer : Option Failure
  pub stop_control : Option Failure
  pub stop_dns_udp : Option Failure
  pub stop_dns_tcp : Option Failure

abbrev eq_kind : Kind → Kind → Bool
eq_kind dns_udp dns_udp = true
eq_kind dns_tcp dns_tcp = true
eq_kind http http = true
eq_kind peer peer = true
eq_kind control control = true
eq_kind _ _ = false

abbrev without : Kind → List (Kind × Text) → List (Kind × Text)
without kind [] = []
without kind (b ∷ bs) = let rest = without kind bs in if eq_kind b.0 kind then rest else b ∷ rest

-- Shutting a server down closes its listener first, whatever comes of it then.
abbrev close : Kind → Servers → Servers
close kind s = record s { bound = without kind s.bound }

-- The loop of `shutdown` over the HTTP servers.
unfoldable pub shutdown_each :
    List (Bool × Kind × Option Failure) → Option Failure → Servers → Option Failure × Servers
shutdown_each [] first s = (first, s)
shutdown_each ((running, kind, e) ∷ servers) first s =
    shutdown_each servers (if running then first <|> e else first)
      (if running then close kind s else s)

-- The end of `shutdown`, on the DNS server and what the loop gave.
abbrev pub shutdown_dns :
    Stops → Option Server → Option Failure × Servers → Option Failure × Servers
shutdown_dns stops none (first, s) = (first, s)
shutdown_dns stops (some server) (first, s) =
    (first <|> shutdown stops.stop_dns_udp stops.stop_dns_tcp, close dns_tcp (close dns_udp s))

abbrev pub remove_control : Text → Option Failure × Servers → Option Failure × Servers
remove_control path (first, s) = (first, record s { removed = s.removed ++ path ∷ [] })

-- `shutdown`: the first error.
unfoldable pub shutdown_all : Stops → Listen → Servers → Option Failure × Servers
unfolding shutdown_each
shutdown_all stops cfg s = remove_control cfg.control (
    shutdown_dns stops s.dns_server (
      shutdown_each
        ((s.http_server, http, stops.stop_http)
          ∷ (s.peer_server, peer, stops.stop_peer)
          ∷ (s.control_server, control, stops.stop_control)
          ∷ [])
        none s))

-- How `Run` ends: with an error of the start, or stopped, with the first error of the shutdown.
pub data Ran : Type 0 where
  refused : RunError → Servers → Ran
  stopped : Option Failure → Servers → Ran

abbrev pub finish : Stops → Listen → Start → Ran
finish stops cfg (failed e s) = refused e s
finish stops cfg (going s) = let out = shutdown_all stops cfg s in stopped out.0 out.1

-- `Run`, once its context is cancelled.
unfoldable pub run : System → Stops → Listen → Ran
unfolding start_all shutdown_all
run sys stops cfg = finish stops cfg (start_all sys cfg)
