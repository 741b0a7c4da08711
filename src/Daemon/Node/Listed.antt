-- ===== src/Daemon/Node/Listed.antt =====
-- What a node of internal/daemon/daemon.go reports about itself and its peers, whatever has happened to it.
use corenet.Protocol.{Node}
use corenet.Config.{Config}
use corenet.Daemon.Node.{Daemon}
