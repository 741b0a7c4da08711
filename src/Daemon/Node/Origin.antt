-- ===== src/Daemon/Node/Origin.antt =====
-- Where the services come from that a node of internal/daemon/daemon.go resolves.
use corenet.Common.{Text, ◌≡◌, true, some, Unicode, get}
use corenet.Protocol.{Service}
use corenet.Registry.{Registry}
use corenet.Config.{Config}
use corenet.Daemon.Peers.{PeerState}
use corenet.Daemon.Peers.Report.{contains}
use corenet.Daemon.Node.{Daemon}

module _ (u : Unicode) where
  -- The endpoint of a service that another node provides.
  abbrev pub IsLearned : Daemon u → Service → Type 0
  IsLearned d s =
      (endpoint : Text) × (p : PeerState) × (contains d.cfg.nodes endpoint ≡ true)
      × (get d.network.peers.states endpoint ≡ some p)
      × (p.node_id ≡ s.source)
      × (p.online ≡ true)
