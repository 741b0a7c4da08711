-- ===== src/Daemon/Node/Reports.antt =====
-- What a node of internal/daemon/daemon.go reports about itself. The clock is an argument.
use corenet.Common.{ℕ, List, [], ◌∷◌, some, none, true, length, Unicode}
use corenet.Protocol.{Node, Status, Info, version}
use corenet.Registry.{Registry, list, list_local}
use corenet.Daemon.Peers.{nodes}
use corenet.Daemon.Store.{registry_store}
use corenet.Daemon.Api.{Api}
use corenet.Daemon.Node.{Daemon, registry_of}

module _ (u : Unicode) where
  -- The entry of `Nodes` for this node.
  abbrev pub local_node : Daemon u → Node
  unfolding list_local
  local_node d = record {
    id = d.cfg.node.id;
    name = d.cfg.node.name;
    endpoint = d.cfg.listen.peer;
    is_local = true;
    online = true;
    services = length (list_local (registry_of u d));
    last_seen = 0;
    error = [];
  }

  -- `Nodes`. Where the puller's `Nodes` would panic, which `Reports` excludes, nothing follows.
  unfoldable pub node_list : Daemon u → List Node
  unfolding nodes list_local
  node_list d =
      local_node d ∷ elim (nodes (registry_store u) d.network) [ none ↦ [] | some ns ↦ ns ]

  -- `Status`, so many seconds after the start.
  unfoldable pub status : ℕ → Daemon u → Status
  unfolding node_list list
  status uptime d = record {
    version = version;
    node_id = d.cfg.node.id;
    node_name = d.cfg.node.name;
    uptime = uptime;
    listeners = record {
      dns = d.cfg.listen.dns;
      http = d.cfg.listen.http;
      peer = d.cfg.listen.peer;
      control = d.cfg.listen.control;
    };
    services = length (list (registry_of u d));
    nodes = length (node_list d);
  }

  -- `Info`
  unfoldable pub info : Daemon u → Info
  unfolding list_local
  info d = record {
    version = version;
    node_id = d.cfg.node.id;
    node_name = d.cfg.node.name;
    services = length (list_local (registry_of u d));
  }

  abbrev pub with_registry : Daemon u → Registry → Daemon u
  with_registry d r = record d { network = record (d.network) { store = r } }

  -- The `API` that `Run` makes, whose callbacks are methods of the daemon.
  unfoldable pub api_of : ℕ → Daemon u → Api
  unfolding status info node_list
  api_of uptime d = record {
    dir = registry_of u d;
    status = λ r. status uptime (with_registry d r);
    info = λ r. info (with_registry d r);
    nodes = λ r. node_list (with_registry d r);
    log = d.api_log;
  }
