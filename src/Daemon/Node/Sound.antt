-- ===== src/Daemon/Node/Sound.antt =====
-- What holds of a node of internal/daemon/daemon.go, whatever has happened to it since its start.
use corenet.Common.{
  Text, ◌≡◌, refl, leb_ℤ, pos, Option-cases, inl, inr, List, [], ◌∷◌, Unicode, get, if◌then◌else◌,
}
use corenet.Protocol.{Service}
use corenet.Registry.{Registry, new, set_config_services}
use corenet.Registry.Invariant.{new-IsWellFormed}
use corenet.Registry.Preserved.{set_config_services-IsWellFormed}
use corenet.Config.{Config, nanoseconds, default_pull_seconds, pull_interval}
use corenet.Config.Loading.{loaded, not_loaded}
use corenet.Discovery.Container.{Refusal}
use corenet.Discovery.Polling.{Docker, Listing}
use corenet.Daemon.Peers.{Network, new_peers}
use corenet.Daemon.Store.{registry_store}
use corenet.Daemon.Api.Serving.{control-IsWellFormed}
use corenet.Daemon.Node.{Daemon, registry_of, new_daemon, applied, reload}
use corenet.Daemon.Node.Reloading.{IsKept, applied-IsKept}
use corenet.Daemon.Node.Kept.{IsKept-refl, IsKept-trans}
use corenet.Daemon.Node.InStep.{
  IsInStep, with_store-IsInStep, set_endpoints-IsInStep, pull_all-IsInStep, control-remote, polled,
}
use corenet.Daemon.Node.Reports.{api_of}
use corenet.Daemon.Node.Lifetime.{Event, hup, pulled, asked, listed, ask, discover, happen, after}

module _ (u : Unicode) where
  -- The registry is well-formed. What is only applied on restart is as it was at the start. The puller
  -- has a state for each endpoint of the current configuration and no other, in its order. Whatever a
  -- node offers was learned from a configured endpoint that is online.
  pub record IsSound (start : Config) (d : Daemon u) : Type 0 where
    pub kept : IsKept d.cfg start
    pub in_step : IsInStep u d.network d.cfg.nodes

  -- The puller before it has any endpoints.
  abbrev idle : Config → Network (registry_store u)
  idle cfg = record {
    store = set_config_services u cfg.services new;
    peers = record {
      local_node_id = cfg.node.id;
      interval =
          if leb_ℤ (pull_interval cfg) (pos 0)
          then nanoseconds default_pull_seconds
          else pull_interval cfg;
      states = [];
      order = [];
    };
    log = [];
  }

  new_daemon-IsSound : (cfg : Config) → IsSound cfg (new_daemon u cfg)
  unfolding new_daemon new_peers get set_config_services
  new_daemon-IsSound cfg = record {
    kept = IsKept-refl cfg;
    in_step =
        set_endpoints-IsInStep u cfg.nodes (idle cfg)
          (set_config_services-IsWellFormed u cfg.services new-IsWellFormed)
          (record { known = tt; own = tt; exact = λ e. refl })
          (record { covered = λ id k s offered. absurd (cc offered) });
  }

  discover-IsSound :
      (wording : Refusal → Text) (listing : Listing) (start : Config) (d : Daemon u)
      → IsSound start d
      → IsSound start (discover u wording listing d)
  unfolding discover
  discover-IsSound wording listing start d h = elim (Option-cases d.docker) [
    | inl disabled ↦ rw (disabled, discover) h
    | inr (docker, enabled) ↦
        let current : Docker = record docker { store = registry_of u d } in
        let (remote, valid) = polled u wording listing current h.in_step.well_formed in
        rw (enabled, discover)
          (record {
            kept = h.kept;
            in_step = with_store-IsInStep u d.network d.cfg.nodes _ remote valid h.in_step;
          })
  ]

  set_config_services-remote :
      (services : List Service) (r : Registry)
      → (set_config_services u services r).remote ≡ r.remote
  unfolding set_config_services
  set_config_services-remote services r = refl

  reload-IsSound :
      (cfg start : Config) (d : Daemon u)
      → IsSound start d
      → IsSound start (reload u (loaded cfg) d).1
  unfolding reload
  reload-IsSound cfg start d h =
      let next = applied u cfg d.cfg in
      let valid = set_config_services-IsWellFormed u next.services h.in_step.well_formed in
      let configured =
        with_store-IsInStep u d.network d.cfg.nodes _
          (set_config_services-remote next.services (registry_of u d)) valid h.in_step in
      record {
        kept = IsKept-trans next d.cfg start (applied-IsKept u cfg d.cfg) h.kept;
        in_step =
            set_endpoints-IsInStep u next.nodes _ configured.well_formed configured.listed
              configured.covered;
      }

  happen-IsSound :
      (wording : Refusal → Text) (event : Event u) (start : Config) (d : Daemon u)
      → IsSound start d
      → IsSound start (happen u wording event d)
  unfolding happen
  happen-IsSound wording (hup (not_loaded e)) start d h = unfold reload in h
  happen-IsSound wording (hup (loaded cfg)) start d h = reload-IsSound cfg start d h
  happen-IsSound wording (pulled round) start d h = record {
    kept = h.kept;
    in_step = pull_all-IsInStep u round d.cfg.nodes d.network h.in_step;
  }
  happen-IsSound wording (asked uptime req) start d h =
      unfold ask api_of in
      record {
        kept = h.kept;
        in_step =
            with_store-IsInStep u d.network d.cfg.nodes _ (control-remote u req (api_of u uptime d))
              (control-IsWellFormed u req (api_of u uptime d) h.in_step.well_formed) h.in_step;
      }
  happen-IsSound wording (listed listing) start d h = discover-IsSound wording listing start d h

  happened-IsSound :
      (wording : Refusal → Text) (events : List (Event u)) (start : Config) (d : Daemon u)
      → IsSound start d
      → IsSound start (after u wording events d)
  unfolding after
  happened-IsSound wording [] start d h = h
  happened-IsSound wording (event ∷ events) start d h =
      happened-IsSound wording events start _ (happen-IsSound wording event start d h)

  -- A node is sound, from its start and whatever happens to it then: signals to reload, whatever the file
  -- holds by then, rounds of requests to other nodes, whatever they answer, requests to the control socket,
  -- and polls of Docker, each over before the next begins. Its registry is well-formed; the listen
  -- addresses, the node's ID, the pull interval and the meaning of the Docker settings are those of the
  -- start; the puller has a state for each endpoint of the current configuration and for no other; and
  -- whatever another node offers was learned from a configured endpoint that is online.
  pub after-IsSound :
      (wording : Refusal → Text) (events : List (Event u)) (cfg : Config)
      → IsSound cfg (after u wording events (new_daemon u cfg))
  after-IsSound wording events cfg =
      happened-IsSound wording events cfg (new_daemon u cfg) (new_daemon-IsSound cfg)
