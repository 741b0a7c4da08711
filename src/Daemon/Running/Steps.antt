-- ===== src/Daemon/Running/Steps.antt =====
-- The steps by which `Run` of internal/daemon/daemon.go comes to serve, each with its outcome.
use corenet.Common.{
  Text, bytes, ◌≡◌, ◌⊎◌, refl, ap, ◌∙◌, Bool, true, false, not, ◌&&◌, ◌||◌, List, [], ◌∷◌, ◌++◌,
  Option, none, some, is_empty, is_some, if◌then◌else◌, inl, inr, Bool-cases, Option-cases, arith,
}
use corenet.Config.{Listen}
use corenet.Dns.Server.{Failure, Server, new_server, start}
use corenet.Daemon.Running.{
  proxy_address, Stat, absent, stat_failed, socket, no_socket, System, not_ipv4, no_stat,
  not_a_socket, already_running, not_removed, no_directory, control_failed, RunError, bind_error,
  Kind, dns_udp, dns_tcp, http, peer, control, Servers, Start, going, failed, ◌>>=◌, bind,
  serve_dns_on, listen, remove_stale_socket, start_dns, start_http, start_peer_api, or_fail,
  start_control_api,
}

abbrev pub succeeds : Option Failure → Bool
succeeds none = true
succeeds (some e) = false

-- Whether a file at the control socket's path is out of the way.
abbrev pub is_clear : System → Bool
is_clear sys = elim sys.stat [
  | absent ↦ true
  | stat_failed e ↦ false
  | no_socket ↦ false
  | socket ↦ not sys.dialled && succeeds sys.remove_socket
]

-- Only the file of a socket on which no daemon answers is ever removed.
abbrev pub IsSafe : System → Text → Servers → Type 0
IsSafe sys path t =
    (t.removed ≡ []) ⊎ ((t.removed ≡ path ∷ []) × (sys.stat ≡ socket) × (sys.dialled ≡ false))

-- Nothing is served on the control socket.
abbrev pub IsUnserved : System → Text → Servers → Type 0
IsUnserved sys path t = (t.control_server ≡ false) × IsSafe sys path t

-- So far nothing was removed, too.
abbrev pub IsFresh : Servers → Type 0
IsFresh s = (s.control_server ≡ false) × (s.removed ≡ [])

module _ (sys : System) (path : Text) where
  -- The step goes on with `s`, or it has failed with nothing served on the control socket.
  abbrev pub Outcome : Bool → Start → Servers → Type 0
  Outcome ok m s =
      ((ok ≡ true) × (m ≡ going s))
      ⊎ ((ok ≡ false) × ((e : RunError) × (t : Servers) × (m ≡ failed e t) × IsUnserved sys path t))

  pub bind-Outcome :
      (a b : Bool) (m : Start) (f : Servers → Start) (s t : Servers)
      → Outcome a m s
      → (a ≡ true → Outcome b (f s) t)
      → Outcome (a && b) (m >>= f) t
  bind-Outcome a b m f s t (inr (stop, (e, t', m1, c))) k =
      inr (ground (arith, stop), (e, t', ap (λ m. m >>= f) m1, c))
  bind-Outcome a b m f s t (inl (go, m1)) k = elim (k go) [
    | inl (go', m2) ↦ inl (ground (arith, go, go'), ap (λ m. m >>= f) m1 ∙ m2)
    | inr (stop, (e, t', m2, c)) ↦
        inr (ground (arith, go, stop), (e, t', ap (λ m. m >>= f) m1 ∙ m2, c))
  ]

  or_fail-Outcome :
      (o : Option Failure) (why : Failure → RunError) (s : Servers)
      → IsUnserved sys path s
      → Outcome (succeeds o) (or_fail o why s) s
  or_fail-Outcome none why s c = inl (refl, refl)
  or_fail-Outcome (some e) why s c = inr (refl, (why e, s, refl, c))

-- The servers with those that the configuration asks for, step by step.
unfoldable pub with_dns : Listen → Servers → Servers
unfolding proxy_address new_server
with_dns cfg s =
    if is_empty cfg.dns then s else record (bind dns_tcp cfg.dns (bind dns_udp cfg.dns s)) {
      dns_server = new_server cfg.dns (proxy_address cfg.http);
    }

abbrev pub with_http : Listen → Servers → Servers
with_http cfg s =
    if is_empty cfg.http then s else record (bind http cfg.http s) { http_server = true }

abbrev pub with_peer : Listen → Servers → Servers
with_peer cfg s =
    if is_empty cfg.peer then s else record (bind peer cfg.peer s) { peer_server = true }

abbrev pub with_clear : System → Listen → Servers → Servers
with_clear sys cfg s = elim sys.stat [
  | socket ↦ record s { removed = s.removed ++ cfg.control ∷ [] }
  | _ ↦ s
]

module _ (sys : System) (cfg : Listen) where
  unfoldable pub dns_ok : Bool
  unfolding proxy_address new_server
  dns_ok =
      is_empty cfg.dns
      || (is_some (new_server cfg.dns (proxy_address cfg.http))
          && (succeeds sys.listen_dns_udp && succeeds sys.listen_dns_tcp))

  serve_dns_on-Outcome :
      (server : Server) (udp tcp : Option Failure) (s : Servers)
      → IsFresh s
      → Outcome sys cfg.control
          (succeeds udp && succeeds tcp)
          (serve_dns_on cfg.dns server (start udp tcp) s)
          (record (bind dns_tcp cfg.dns (bind dns_udp cfg.dns s)) { dns_server = some server })
  serve_dns_on-Outcome server none none s c = inl (refl, refl)
  serve_dns_on-Outcome server none (some e) s c =
      inr (refl, (bind_error (bytes "dns") cfg.dns e, s, refl, (c.0, inl c.1)))
  serve_dns_on-Outcome server (some e) tcp s c =
      inr (refl, (bind_error (bytes "dns") cfg.dns e, s, refl, (c.0, inl c.1)))

  pub start_dns-Outcome :
      (s : Servers)
      → IsFresh s
      → Outcome sys cfg.control dns_ok (start_dns sys cfg s) (with_dns cfg s)
  unfolding start_dns dns_ok with_dns
  start_dns-Outcome s c = elim (Bool-cases (is_empty cfg.dns)) [
    | inl off ↦ rw (off, start_dns, dns_ok, with_dns) (inl (refl, refl))
    | inr on ↦ elim (Option-cases (new_server cfg.dns (proxy_address cfg.http))) [
      | inl bad ↦
          rw (on, bad, start_dns, dns_ok, with_dns)
            (inr (refl, (not_ipv4 (proxy_address cfg.http), s, refl, (c.0, inl c.1))))
      | inr (server, good) ↦
          rw (on, good, start_dns, dns_ok, with_dns)
            (serve_dns_on-Outcome server sys.listen_dns_udp sys.listen_dns_tcp s c)
    ]
  ]

  listen-Outcome :
      (kind : Kind) (name addr : Text) (o : Option Failure) (s : Servers) (f : Servers → Servers)
      → IsFresh s
      → Outcome sys cfg.control
          (succeeds o)
          (listen kind name addr o s >>= (λ s. going (f s)))
          (f (bind kind addr s))
  listen-Outcome kind name addr none s f c = inl (refl, refl)
  listen-Outcome kind name addr (some e) s f c =
      inr (refl, (bind_error name addr e, s, refl, (c.0, inl c.1)))

  pub start_http-Outcome :
      (s : Servers)
      → IsFresh s
      → Outcome sys cfg.control
          (is_empty cfg.http || succeeds sys.listen_http)
          (start_http sys cfg s)
          (with_http cfg s)
  unfolding start_http
  start_http-Outcome s c = elim (Bool-cases (is_empty cfg.http)) [
    | inl off ↦ rw (off, start_http) (inl (refl, refl))
    | inr on ↦
        rw (on, start_http)
          (listen-Outcome http (bytes "http") cfg.http sys.listen_http s
            (λ s. record s { http_server = true }) c)
  ]

  pub start_peer_api-Outcome :
      (s : Servers)
      → IsFresh s
      → Outcome sys cfg.control
          (is_empty cfg.peer || succeeds sys.listen_peer)
          (start_peer_api sys cfg s)
          (with_peer cfg s)
  unfolding start_peer_api
  start_peer_api-Outcome s c = elim (Bool-cases (is_empty cfg.peer)) [
    | inl off ↦ rw (off, start_peer_api) (inl (refl, refl))
    | inr on ↦
        rw (on, start_peer_api)
          (listen-Outcome peer (bytes "peer") cfg.peer sys.listen_peer s
            (λ s. record s { peer_server = true }) c)
  ]

  remove_stale_socket-Outcome :
      (s : Servers)
      → IsFresh s
      → Outcome sys cfg.control
          (is_clear sys)
          (remove_stale_socket sys cfg.control s)
          (with_clear sys cfg s)
  unfolding remove_stale_socket
  remove_stale_socket-Outcome s c = from sys.stat
    where
      removing :
          (d : Bool) (r : Option Failure)
          → Outcome sys cfg.control
              (not d && succeeds r)
              (if d then failed (already_running cfg.control) s else elim r [
                | none ↦ going (record s { removed = s.removed ++ cfg.control ∷ [] })
                | some e ↦ failed (not_removed e) s
              ])
              (record s { removed = s.removed ++ cfg.control ∷ [] })
      removing true r = inr (refl, (already_running cfg.control, s, refl, (c.0, inl c.1)))
      removing false none = inl (refl, refl)
      removing false (some e) = inr (refl, (not_removed e, s, refl, (c.0, inl c.1)))

      from :
          (stat : Stat)
          → Outcome sys cfg.control
              (is_clear (record sys { stat = stat }))
              (remove_stale_socket (record sys { stat = stat }) cfg.control s)
              (with_clear (record sys { stat = stat }) cfg s)
      from absent = inl (refl, refl)
      from (stat_failed e) = inr (refl, (no_stat e, s, refl, (c.0, inl c.1)))
      from no_socket = inr (refl, (not_a_socket cfg.control, s, refl, (c.0, inl c.1)))
      from socket = removing sys.dialled sys.remove_socket

  abbrev pub with_control : Servers → Servers
  with_control s = record (bind control cfg.control (with_clear sys cfg s)) {
    control_server = true;
  }

  pub with_clear-IsUnserved :
      (s : Servers)
      → IsFresh s
      → is_clear sys ≡ true
      → IsUnserved sys cfg.control (with_clear sys cfg s)
  with_clear-IsUnserved s c clear = from sys.stat refl clear
    where
      from :
          (stat : Stat)
          → sys.stat ≡ stat
          → is_clear (record sys { stat = stat }) ≡ true
          → ((with_clear (record sys { stat = stat }) cfg s).control_server ≡ false)
            × IsSafe sys cfg.control (with_clear (record sys { stat = stat }) cfg s)
      from absent e h = (c.0, inl c.1)
      from (stat_failed f) e h = (c.0, inl c.1)
      from no_socket e h = (c.0, inl c.1)
      from socket e h =
          (c.0, inr (ap (λ (r : List Text). r ++ cfg.control ∷ []) c.1, e, ground (arith, h)))

  pub start_control_api-Outcome :
      (s : Servers)
      → IsFresh s
      → Outcome sys cfg.control
          (succeeds sys.make_directory
            && (is_clear sys && (succeeds sys.listen_control && (succeeds sys.chmod && true))))
          (start_control_api sys cfg s)
          (with_control s)
  unfolding start_control_api
  start_control_api-Outcome s c =
      let s' = with_clear sys cfg s in
      bind-Outcome sys cfg.control _ _ _ _ s _
        (or_fail-Outcome sys cfg.control sys.make_directory no_directory s (c.0, inl c.1))
        (λ _. bind-Outcome sys cfg.control _ _ _ _ s' _ (remove_stale_socket-Outcome s c) (λ clear.
          let c' = with_clear-IsUnserved s c clear in
          bind-Outcome sys cfg.control _ _ _ _ s' _
            (or_fail-Outcome sys cfg.control sys.listen_control (control_failed cfg.control) s' c')
            (λ _.
              let s'' = bind control cfg.control s' in
              bind-Outcome sys cfg.control _ _ _ _ s'' _
                (or_fail-Outcome sys cfg.control sys.chmod (control_failed cfg.control) s'' c')
                (λ _. inl (refl, refl)))))
