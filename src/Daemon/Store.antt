-- ===== src/Daemon/Store.antt =====
-- The registry of internal/registry/registry.go as the store of internal/daemon/peers.go.
use corenet.Common.{Text, ◌≡◌, false, List, [], none, Unicode, text_eq, if◌then◌else◌, arith}
use corenet.Protocol.{Service}
use corenet.Registry.{Registry, set_remote, count_remote}
use corenet.Registry.Lookup.{offer}
use corenet.Registry.Latest.{latest, set_remote_lem}
use corenet.Daemon.Peers.{RemoteStore}
use corenet.Daemon.Peers.Laws.{StoreLaws}

module _ (u : Unicode) where
  abbrev pub registry_store : RemoteStore
  registry_store = record {
    Store = Registry;
    set_remote = set_remote u;
    count_remote = count_remote;
  }

  pub registry_forgets :
      (id j k : Text) (r : Registry)
      → offer (set_remote u id [] r) j k ≡ (if text_eq id j then none else offer r j k)
  unfolding latest
  registry_forgets id j k r = (set_remote_lem u id [] r).0 j k

  pub registry_others :
      (id j k : Text) (services : List Service) (r : Registry)
      → text_eq id j ≡ false
      → offer (set_remote u id services r) j k ≡ offer r j k
  registry_others id j k services r h = ground (arith, h, (set_remote_lem u id services r).0 j k)

  -- The registry keeps the laws that the puller needs.
  abbrev pub registry_laws : StoreLaws registry_store
  registry_laws = record { offers = offer; forgets = registry_forgets; others = registry_others }
