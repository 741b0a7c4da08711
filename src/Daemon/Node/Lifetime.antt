-- ===== src/Daemon/Node/Lifetime.antt =====
-- What happens to a node of internal/daemon/daemon.go while it runs: hang-up signals, rounds of the
-- puller, requests to its control socket, and polls of Docker, each over before the next begins.
use corenet.Common.{ℕ, Text, List, [], ◌∷◌, some, none, Unicode}
use corenet.Config.Loading.{Loaded}
use corenet.Discovery.Container.{Refusal}
use corenet.Discovery.Polling.{Listing, poll}
use corenet.Daemon.Peers.{Round, pull_all}
use corenet.Daemon.Store.{registry_store}
use corenet.Daemon.Api.{Request, Response, control}
use corenet.Daemon.Node.{Daemon, registry_of, reload}
use corenet.Daemon.Node.Reports.{with_registry, api_of}

module _ (u : Unicode) where
  -- A request to the control socket.
  unfoldable pub ask : ℕ → Request → Daemon u → Response × Daemon u
  unfolding api_of control
  ask uptime req d =
      let out = control u req (api_of u uptime d) in
      (out.0, record (with_registry u d out.1.dir) { api_log = out.1.log })

  -- A poll of Docker, where it is discovered.
  unfoldable pub discover : (Refusal → Text) → Listing → Daemon u → Daemon u
  unfolding poll
  discover wording listing d = elim d.docker [
    | none ↦ d
    | some docker ↦
        let polled = poll u wording listing (record docker { store = registry_of u d }) in
        record (with_registry u d polled.store) { docker = some polled }
  ]

  -- What can happen to a running node.
  pub data Event : Type 0 where
    hup : Loaded → Event
    pulled : Round (registry_store u) → Event
    asked : ℕ → Request → Event
    listed : Listing → Event

  unfoldable pub happen : (Refusal → Text) → Event → Daemon u → Daemon u
  unfolding reload pull_all ask discover
  happen wording (hup loading) d = (reload u loading d).1
  happen wording (pulled round) d = record d {
    network = pull_all (registry_store u) round d.network;
  }
  happen wording (asked uptime req) d = (ask uptime req d).1
  happen wording (listed listing) d = discover wording listing d

  unfoldable pub after : (Refusal → Text) → List Event → Daemon u → Daemon u
  unfolding happen
  after wording [] d = d
  after wording (event ∷ events) d = after wording events (happen wording event d)
