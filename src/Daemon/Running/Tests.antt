-- ===== src/Daemon/Running/Tests.antt =====
-- Witnesses for the start and the end of a node.
use corenet.Common.{
  bytes, ◌≡◌, ◌⊎◌, refl, true, false, [], ◌∷◌, none, some, text_eq, parse_ip, to4, split_host_port,
}
use corenet.Config.{Listen}
use corenet.Dns.Server.{new_server, privileged, other}
use corenet.Daemon.Running.{
  dns_udp, dns_tcp, proxy_address, System, socket, RunError, cannot_bind, Servers, going, failed,
  start_all, Stops,
}
use corenet.Daemon.Running.Steps.{IsUnserved, dns_ok}
use corenet.Daemon.Running.Started.{starts, IsServing, start_all_lem}

abbrev pub listeners : Listen
listeners = record {
  dns = bytes "127.0.0.1:53";
  http = bytes "0.0.0.0:80";
  peer = [];
  control = bytes "/run/corenetd.sock";
}

-- A machine on which a daemon has crashed and left its socket.
abbrev pub crashed : System
crashed = record {
  listen_dns_udp = none;
  listen_dns_tcp = none;
  listen_http = none;
  listen_peer = none;
  make_directory = none;
  stat = socket;
  dialled = false;
  remove_socket = none;
  listen_control = none;
  chmod = none;
}

abbrev pub slow_stop : Stops
slow_stop = record {
  stop_http = some (other (bytes "deadline"));
  stop_peer = none;
  stop_control = none;
  stop_dns_udp = none;
  stop_dns_tcp = none;
}

pub crashed_starts : starts crashed listeners ≡ true
unfolding dns_ok new_server proxy_address split_host_port text_eq parse_ip to4
crashed_starts = refl

start_all_lem_example :
    ((starts crashed listeners ≡ true)
      × ((s : Servers) × (start_all crashed listeners ≡ going s) × IsServing crashed listeners s))
    ⊎ ((starts crashed listeners ≡ false)
        × ((e : RunError) × (t : Servers) × (start_all crashed listeners ≡ failed e t)
            × IsUnserved crashed listeners.control t))
start_all_lem_example = start_all_lem crashed listeners

-- A daemon without privileges is told why, and its DNS sockets stay bound until the process ends.
unprivileged :
    start_all
      (record crashed { listen_http = some (privileged (bytes "permission denied")) })
      listeners
    ≡ failed
        (cannot_bind
          (bytes "http")
          (bytes "0.0.0.0:80")
          (privileged (bytes "permission denied"))
          true)
        (record {
          dns_server = some (record { addr = bytes "127.0.0.1:53"; answer = 127 ∷ 0 ∷ 0 ∷ 1 ∷ [] });
          http_server = false;
          peer_server = false;
          control_server = false;
          bound = (dns_udp, bytes "127.0.0.1:53") ∷ (dns_tcp, bytes "127.0.0.1:53") ∷ [];
          removed = [];
        })
unfolding start_all new_server proxy_address split_host_port text_eq parse_ip to4
unprivileged = refl
