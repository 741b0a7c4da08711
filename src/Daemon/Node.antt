-- ===== src/Daemon/Node.antt =====
-- internal/daemon/daemon.go: what a node is made of, and its reload.
pub mod Reloading
pub mod Lifetime
pub mod Reports
pub mod Kept
pub mod InStep
pub mod Sound
pub mod Listed
pub mod Origin
pub mod InForce
mod Tests
use corenet.Common.{
  ℕ, ◌+◌, Text, Bool, true, false, not, ◌&&◌, ◌||◌, List, [], ◌∷◌, ◌++◌, Option, none, some, length,
  if◌then◌else◌, Unicode, text_eq,
}
use corenet.Registry.{Registry, new, set_config_services}
use corenet.Config.{Config, Listen, equal, is_enabled, pull_interval, eq_ℤ}
use corenet.Config.Loading.{Loaded, LoadError, loaded, not_loaded}
use corenet.Daemon.Peers.{Network, new_peers, set_endpoints}
use corenet.Daemon.Api
use corenet.Discovery.Polling.{Docker, new_docker}
use corenet.Daemon.Store.{registry_store}

-- The lines that a reload logs.
pub data LogLine : Type 0 where
  only_on_restart : LogLine
  reloaded : ℕ → ℕ → LogLine

module _ (u : Unicode) where
  -- `Daemon`, without its servers. The registry is the store of `network`, which holds the state of the
  -- puller; the copy in `docker` is brought up to date at each poll. `api_log` is what the handlers log.
  pub record Daemon : Type 0 where
    pub cfg : Config
    pub network : Network (registry_store u)
    pub docker : Option Docker
    pub log : List LogLine
    pub api_log : List Api.LogLine

  abbrev pub registry_of : Daemon → Registry
  registry_of d = d.network.store

  -- `New`
  unfoldable pub new_daemon : Config → Daemon
  unfolding set_config_services new_peers
  new_daemon cfg =
      let reg = set_config_services u cfg.services new in
      record {
        cfg = cfg;
        network = new_peers (registry_store u) reg cfg.node.id cfg.nodes (pull_interval cfg);
        docker = if is_enabled cfg.docker then some (new_docker reg cfg.docker.network) else none;
        log = [];
        api_log = [];
      }

  abbrev pub eq_listen : Listen → Listen → Bool
  eq_listen a b =
      text_eq a.dns b.dns
      && (text_eq a.http b.http && (text_eq a.peer b.peer && text_eq a.control b.control))

  -- Whether a configuration changes what is only applied on restart.
  unfoldable pub needs_restart : Config → Config → Bool
  unfolding equal text_eq
  needs_restart cfg current =
      not (eq_listen cfg.listen current.listen)
      || (not (text_eq cfg.node.id current.node.id)
          || (not (eq_ℤ cfg.pull_interval_seconds current.pull_interval_seconds)
              || not (equal cfg.docker current.docker)))

  -- The configuration that a reload applies.
  unfoldable pub applied : Config → Config → Config
  unfolding needs_restart
  applied cfg current =
      if needs_restart cfg current
      then record cfg {
        listen = current.listen;
        node = current.node;
        pull_interval_seconds = current.pull_interval_seconds;
        docker = current.docker;
      }
      else cfg

  -- `Reload`, on what `Load` gave.
  unfoldable pub reload : Loaded → Daemon → Option LoadError × Daemon
  unfolding applied set_config_services set_endpoints
  reload (not_loaded e) d = (some e, d)
  reload (loaded cfg) d =
      let next = applied cfg d.cfg in
      let configured = record (d.network) {
        store = set_config_services u next.services d.network.store;
      } in
      let noted = if needs_restart cfg d.cfg then only_on_restart ∷ [] else [] in
      (
        none,
        record d {
          cfg = next;
          network = set_endpoints (registry_store u) next.nodes configured;
          log = d.log ++ noted ++ reloaded (length next.services) (length next.nodes) ∷ [];
        },
      )
