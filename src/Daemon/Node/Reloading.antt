-- ===== src/Daemon/Node/Reloading.antt =====
-- What a reload of internal/daemon/daemon.go changes and what it keeps.
use corenet.Common.{
  Text, ◌≡◌, ◌↔◌, ◌&&◌, ◌||◌, ℤ, pos, negsuc, text_eq, text_eq_refl, refl, ap, ◌∙◌, Bool, true,
  false, not, List, [], ◌∷◌, arith, Unicode, Map, get, find_by, ◌<|>◌, text_eq_iff, Bool-cases, inl,
  inr, if◌then◌else◌, is_empty, is_some,
}
use corenet.Protocol.{Service}
use corenet.Protocol.Names.{normalize_name}
use corenet.Registry.{Registry, lookup, checked_map, set_remote, set_config_services}
use corenet.Registry.Listing.{by_name}
use corenet.Config.{
  Config, DockerConfig, Listen, equal, eq_ℤ, eq_bool, is_enabled, socket_path, poll_interval,
}
use corenet.Config.Routed.{lookup-set_config_services}
use corenet.Config.Loading.{loaded}
use corenet.Config.Checks.{IsValid}
use corenet.Daemon.Peers.{PeerState, set_endpoints, forget_dropped, keep_states}
use corenet.Daemon.Store.{registry_store}
use corenet.Daemon.Node.{Daemon, needs_restart, applied, reload, registry_of, eq_listen}

-- The registry without what was learned from other nodes.
abbrev pub local : Registry → Registry
local r = record r { remote = [] }

pub eq_ℤ_iff : (a b : ℤ) → (eq_ℤ a b ≡ true) ↔ (a ≡ b)
eq_ℤ_iff (pos a) (pos b) = ground arith
eq_ℤ_iff (negsuc a) (negsuc b) = ground arith
eq_ℤ_iff (pos a) (negsuc b) = ground arith
eq_ℤ_iff (negsuc a) (pos b) = ground arith

pub eq_bool_refl : (b : Bool) → eq_bool b b ≡ true
eq_bool_refl true = refl
eq_bool_refl false = refl

eq_listen_iff : (u : Unicode) (a b : Listen) → eq_listen u a b ≡ true → a ≡ b
eq_listen_iff u a b h = ground (
  arith,
  h,
  text_eq_iff a.dns b.dns,
  text_eq_iff a.http b.http,
  text_eq_iff a.peer b.peer,
  text_eq_iff a.control b.control,
)

pub equal_refl : (d : DockerConfig) → equal d d ≡ true
unfolding equal
equal_refl d = ground (
  arith,
  eq_bool_refl (is_enabled d),
  text_eq_refl (socket_path d),
  text_eq_refl d.network,
  (eq_ℤ_iff (poll_interval d) (poll_interval d)).1 refl,
)

-- What stays as it is until a restart.
pub record IsKept (cfg current : Config) : Type 0 where
  pub listen : cfg.listen ≡ current.listen
  pub node_id : cfg.node.id ≡ current.node.id
  pub pull : cfg.pull_interval_seconds ≡ current.pull_interval_seconds
  pub docker : equal cfg.docker current.docker ≡ true

module _ (u : Unicode) where
  needs_restart-eq-false :
      (cfg current : Config)
      → needs_restart u cfg current ≡ false
      → (eq_listen u cfg.listen current.listen ≡ true)
        × (text_eq cfg.node.id current.node.id ≡ true)
        × (eq_ℤ cfg.pull_interval_seconds current.pull_interval_seconds ≡ true)
        × (equal cfg.docker current.docker ≡ true)
  unfolding needs_restart
  needs_restart-eq-false cfg current h = go _ _ _ _ h
    where
      go :
          (a b c d : Bool)
          → (not a || (not b || (not c || not d))) ≡ false
          → (a ≡ true) × (b ≡ true) × (c ≡ true) × (d ≡ true)
      go a b c d q = ground (arith, q)

  pub applied-IsKept : (cfg current : Config) → IsKept (applied u cfg current) current
  unfolding applied
  applied-IsKept cfg current = elim (Bool-cases (needs_restart u cfg current)) [
    | inl restart ↦
        rw (restart, applied)
          (record {
            listen = refl;
            node_id = refl;
            pull = refl;
            docker = equal_refl current.docker;
          })
    | inr free ↦
        let (listen, id, pull, docker) = needs_restart-eq-false cfg current free in
        rw (free, applied)
          (record {
            listen = eq_listen_iff u _ _ listen;
            node_id = (text_eq_iff cfg.node.id current.node.id).0 id;
            pull = (eq_ℤ_iff _ _).0 pull;
            docker = docker;
          })
  ]

  applied-services : (cfg current : Config) → (applied u cfg current).services ≡ cfg.services
  unfolding applied
  applied-services cfg current = ground arith

  set_remote-local :
      (id : Text) (services : List Service) (r : Registry)
      → local (set_remote u id services r) ≡ local r
  unfolding set_remote
  set_remote-local id services r = elim (Bool-cases (is_empty (checked_map u id [] services))) [
    | inl gone ↦ rw (gone, set_remote) refl
    | inr more ↦ rw (more, set_remote) refl
  ]

  forget_dropped-local :
      (old next : Map PeerState) (r : Registry)
      → local (forget_dropped (registry_store u) old next r) ≡ local r
  unfolding forget_dropped
  forget_dropped-local [] next r = refl
  forget_dropped-local ((endpoint, s) ∷ old) next r =
      forget_dropped-local old next _
      ∙ step (not (is_some (get next endpoint)) && not (is_empty s.node_id))
    where
      step : (b : Bool) → local (if b then set_remote u s.node_id [] r else r) ≡ local r
      step true = set_remote-local s.node_id [] r
      step false = refl

  reload-local :
      (cfg : Config) (d : Daemon u)
      → local (registry_of u (reload u (loaded cfg) d).1)
        ≡ local (set_config_services u cfg.services (registry_of u d))
  unfolding reload set_endpoints
  reload-local cfg d =
      forget_dropped-local d.network.peers.states
        (keep_states d.network.peers.states (applied u cfg d.cfg).nodes [] []).0
        (set_config_services u (applied u cfg d.cfg).services (registry_of u d))
      ∙ ap (λ services. local (set_config_services u services (registry_of u d)))
          (applied-services cfg d.cfg)

  -- A reload that has loaded a valid configuration keeps the listen addresses, the node's ID, the pull
  -- interval and the meaning of the Docker settings. Of the services of this node itself, a name then
  -- resolves to the one registered at run time, else to the one that the new configuration declares, else
  -- to the one that Docker provides.
  pub reload_lem :
      (cfg : Config) (d : Daemon u)
      → IsValid cfg
      → IsKept (reload u (loaded cfg) d).1.cfg d.cfg
        × ((name : Text)
            → lookup u (local (registry_of u (reload u (loaded cfg) d).1)) name ≡ (
                get (registry_of u d).runtime (normalize_name u name)
                <|> (find_by by_name (normalize_name u name) cfg.services
                    <|> lookup u
                        (record (local (registry_of u d)) { runtime = []; config = [] })
                        name)))
  reload_lem cfg d v = (
    unfold reload in applied-IsKept cfg d.cfg,
    λ name.
        ap (λ r. lookup u r name) (reload-local cfg d)
        ∙ unfold set_config_services in
          lookup-set_config_services u cfg (local (registry_of u d)) name v,
  )
