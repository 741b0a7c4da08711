-- ===== src/Daemon/Running/Stopped.antt =====
-- What `Run` of internal/daemon/daemon.go leaves behind when it has been cancelled.
use corenet.Common.{
  Text, ◌≡◌, Bool, true, not, List, [], ◌∷◌, ◌++◌, Option, none, ◌<|>◌, if◌then◌else◌,
}
use corenet.Config.{Listen}
use corenet.Dns.Server.{Failure, Server}
use corenet.Daemon.Running.{Kind, dns_udp, dns_tcp, http, peer, control, Servers, Stops}

-- The first failure of some calls.
pub first_of : List (Option Failure) → Option Failure
first_of [] = none
first_of (o ∷ os) = o <|> first_of os

module _ (stops : Stops) (cfg : Listen) where
  -- The sockets of a configuration, by what it leaves out.
  abbrev sockets : Bool → Bool → Bool → List (Kind × Text)
  sockets a b c =
      (if a then [] else (dns_udp, cfg.dns) ∷ (dns_tcp, cfg.dns) ∷ [])
      ++ ((if b then [] else (http, cfg.http) ∷ [])
          ++ ((if c then [] else (peer, cfg.peer) ∷ []) ++ (control, cfg.control) ∷ []))

  -- What shutting down the servers that run gives.
  abbrev pub failures : Bool → Bool → Bool → List (Option Failure)
  failures a b c =
      (if b then [] else stops.stop_http ∷ [])
      ++ ((if c then [] else stops.stop_peer ∷ [])
          ++ (stops.stop_control
              ∷ (if a then [] else stops.stop_dns_udp ∷ stops.stop_dns_tcp ∷ [])))

  -- A shutdown leaves no socket, takes the control socket's file away, and returns the first failure.
  abbrev IsClosed : Bool → Bool → Bool → List Text → Option Failure × Servers → Type 0
  IsClosed a b c removed out =
      (out.0 ≡ first_of (failures a b c))
      × (out.1.bound ≡ [])
      × (out.1.removed ≡ removed ++ cfg.control ∷ [])

  servers_of : Bool → Bool → Bool → Option Server → List Text → Servers
  servers_of a b c server removed = record {
    dns_server = server;
    http_server = not b;
    peer_server = not c;
    control_server = true;
    bound = sockets a b c;
    removed = removed;
  }
