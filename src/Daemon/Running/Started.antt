-- ===== src/Daemon/Running/Started.antt =====
-- When `Run` of internal/daemon/daemon.go comes to serve, and what it has bound by then.
use corenet.Common.{
  Text, ◌≡◌, ◌⊎◌, refl, ap, ◌∙◌, Bool, true, false, not, ◌&&◌, ◌||◌, List, [], ◌∷◌, ◌++◌, Option,
  none, is_empty, if◌then◌else◌, inl, inr, arith,
}
use corenet.Config.{Listen}
use corenet.Dns.Server.{Server, new_server}
use corenet.Daemon.Running.{
  proxy_address, Stat, absent, stat_failed, socket, no_socket, System, RunError, Kind, dns_udp,
  dns_tcp, http, peer, control, Servers, no_servers, going, failed, bind, start_all,
}
use corenet.Daemon.Running.Steps.{
  succeeds, is_clear, IsSafe, IsUnserved, IsFresh, Outcome, bind-Outcome, with_dns, with_http,
  with_peer, with_clear, dns_ok, with_control, start_dns-Outcome, start_http-Outcome,
  start_peer_api-Outcome, start_control_api-Outcome, with_clear-IsUnserved,
}

module _ (sys : System) (cfg : Listen) where
  -- Whether all calls that the configuration asks for succeed.
  abbrev pub starts : Bool
  starts =
      dns_ok sys cfg
      && ((is_empty cfg.http || succeeds sys.listen_http)
          && ((is_empty cfg.peer || succeeds sys.listen_peer)
              && (succeeds sys.make_directory
                  && (is_clear sys
                      && (succeeds sys.listen_control && (succeeds sys.chmod && true))))))

  -- The servers before the control socket.
  abbrev pub before_clear : Servers
  before_clear = with_peer cfg (with_http cfg (with_dns cfg no_servers))

  abbrev pub ready : Servers
  ready = with_control sys cfg before_clear

  IsFresh-if : (b : Bool) (x y : Servers) → IsFresh x → IsFresh y → IsFresh (if b then x else y)
  IsFresh-if true x y h k = h
  IsFresh-if false x y h k = k

  dns-IsFresh : IsFresh (with_dns cfg no_servers)
  unfolding with_dns
  dns-IsFresh = IsFresh-if (is_empty cfg.dns) no_servers _ (refl, refl) (refl, refl)

  http-IsFresh : IsFresh (with_http cfg (with_dns cfg no_servers))
  http-IsFresh = IsFresh-if (is_empty cfg.http) (with_dns cfg no_servers) _ dns-IsFresh dns-IsFresh

  ready-IsFresh : IsFresh before_clear
  ready-IsFresh =
      IsFresh-if (is_empty cfg.peer) (with_http cfg (with_dns cfg no_servers)) _ http-IsFresh
        http-IsFresh

  start_all-Outcome : Outcome sys cfg.control starts (start_all sys cfg) ready
  unfolding start_all
  start_all-Outcome =
      let dns = with_dns cfg no_servers in
      let http = with_http cfg dns in
      let peer = with_peer cfg http in
      bind-Outcome sys cfg.control _ _ _ _ dns _ (start_dns-Outcome sys cfg no_servers (refl, refl))
        (λ _.
          bind-Outcome sys cfg.control _ _ _ _ http _ (start_http-Outcome sys cfg dns dns-IsFresh)
            (λ _.
              bind-Outcome sys cfg.control _ _ _ _ peer _
                (start_peer_api-Outcome sys cfg http http-IsFresh)
                (λ _. start_control_api-Outcome sys cfg peer ready-IsFresh)))

  -- The sockets that a configuration asks for.
  abbrev pub wanted : List (Kind × Text)
  wanted =
      (if is_empty cfg.dns then [] else (dns_udp, cfg.dns) ∷ (dns_tcp, cfg.dns) ∷ [])
      ++ ((if is_empty cfg.http then [] else (http, cfg.http) ∷ [])
          ++ ((if is_empty cfg.peer then [] else (peer, cfg.peer) ∷ [])
              ++ (control, cfg.control) ∷ []))

  -- The servers and sockets are those that the configuration asks for.
  pub record IsServing (s : Servers) : Type 0 where
    pub dns_server :
        s.dns_server
        ≡ (if is_empty cfg.dns then none else new_server cfg.dns (proxy_address cfg.http))
    pub http_server : s.http_server ≡ not (is_empty cfg.http)
    pub peer_server : s.peer_server ≡ not (is_empty cfg.peer)
    pub control_server : s.control_server ≡ true
    pub bound : s.bound ≡ wanted
    pub safe : IsSafe sys cfg.control s

  -- The servers before the control socket, by which of them the configuration leaves out.
  abbrev three : Bool → Bool → Bool → Option Server → Servers
  three a b c server =
      let d : Servers =
        if a then no_servers else record (bind dns_tcp cfg.dns (bind dns_udp cfg.dns no_servers)) {
          dns_server = server;
        } in
      let h : Servers = if b then d else record (bind http cfg.http d) { http_server = true } in
      if c then h else record (bind peer cfg.peer h) { peer_server = true }

  before_control :
      (a b c : Bool) (server : Option Server)
      → ((three a b c server).dns_server ≡ (if a then none else server))
        × ((three a b c server).http_server ≡ not b)
        × ((three a b c server).peer_server ≡ not c)
        × (((three a b c server).bound ++ (control, cfg.control) ∷ []) ≡ (
            (if a then [] else (dns_udp, cfg.dns) ∷ (dns_tcp, cfg.dns) ∷ [])
            ++ ((if b then [] else (http, cfg.http) ∷ [])
                ++ ((if c then [] else (peer, cfg.peer) ∷ []) ++ (control, cfg.control) ∷ []))))
  before_control true true true server = (refl, refl, refl, refl)
  before_control true true false server = (refl, refl, refl, refl)
  before_control true false true server = (refl, refl, refl, refl)
  before_control true false false server = (refl, refl, refl, refl)
  before_control false true true server = (refl, refl, refl, refl)
  before_control false true false server = (refl, refl, refl, refl)
  before_control false false true server = (refl, refl, refl, refl)
  before_control false false false server = (refl, refl, refl, refl)

  -- Clearing the path changes no server and no socket.
  with_clear-servers :
      (s : Servers)
      → ((with_clear sys cfg s).dns_server ≡ s.dns_server)
        × ((with_clear sys cfg s).http_server ≡ s.http_server)
        × ((with_clear sys cfg s).peer_server ≡ s.peer_server)
        × ((with_clear sys cfg s).bound ≡ s.bound)
  with_clear-servers s = from sys.stat
    where
      from :
          (stat : Stat)
          → ((with_clear (record sys { stat = stat }) cfg s).dns_server ≡ s.dns_server)
            × ((with_clear (record sys { stat = stat }) cfg s).http_server ≡ s.http_server)
            × ((with_clear (record sys { stat = stat }) cfg s).peer_server ≡ s.peer_server)
            × ((with_clear (record sys { stat = stat }) cfg s).bound ≡ s.bound)
      from absent = (refl, refl, refl, refl)
      from (stat_failed e) = (refl, refl, refl, refl)
      from no_socket = (refl, refl, refl, refl)
      from socket = (refl, refl, refl, refl)

  ready-IsServing : is_clear sys ≡ true → IsServing ready
  unfolding with_dns
  ready-IsServing clear =
      let before = before_clear in
      let (d, h, p, b) =
        before_control (is_empty cfg.dns) (is_empty cfg.http) (is_empty cfg.peer)
          (new_server cfg.dns (proxy_address cfg.http)) in
      let (d', h', p', b') = with_clear-servers before in
      record {
        dns_server = d' ∙ d;
        http_server = h' ∙ h;
        peer_server = p' ∙ p;
        control_server = refl;
        bound = ap (λ (l : List (Kind × Text)). l ++ (control, cfg.control) ∷ []) b' ∙ b;
        safe = (with_clear-IsUnserved sys cfg before ready-IsFresh clear).1;
      }

  -- `Run` comes to serve exactly if every call succeeds that the configuration asks for, the HTTP address
  -- gives an IPv4 address where DNS is served, and the control socket's path is free or holds a socket on
  -- which no daemon answers. Then it has bound the configured addresses and nothing else. Otherwise it
  -- returns an error and nothing is served on the control socket. In no case has it removed a file other
  -- than such a socket.
  pub start_all_lem :
      ((starts ≡ true) × ((s : Servers) × (start_all sys cfg ≡ going s) × IsServing s))
      ⊎ ((starts ≡ false)
          × ((e : RunError) × (t : Servers) × (start_all sys cfg ≡ failed e t)
              × IsUnserved sys cfg.control t))
  start_all_lem = elim start_all-Outcome [
    | inr stopped ↦ inr stopped
    | inl (go, serving) ↦ inl (go, (ready, serving, ready-IsServing (ground (arith, go))))
  ]
