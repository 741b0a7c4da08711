-- ===== src/Commands/Client/Socket.antt =====
-- The client of cmd/corenet/main.go speaks to the socket that the daemon of cmd/corenetd/main.go listens on.
use corenet.Common.{Text, ◌≡◌, List, [], ◌∷◌, ◌++◌}
use corenet.Config.{Config}
use corenet.Daemon.Node.{Daemon}
use corenet.Daemon.Running
use corenet.Daemon.Running.{
  System, Ran, refused, Start, going, failed, Servers, Kind, control, start_all,
}
use corenet.Commands.Corenetd
use corenet.Commands.Client.Options.{Options}

-- The daemon has served with its control API on a socket: it is the last that the start bound.
pub record IsServedOn (sys : System) (cfg : Config) (socket : Text) : Type 0 where
  pub servers : Servers
  pub started : start_all sys cfg.listen ≡ going servers
  pub others : List (Kind × Text)
  pub bound : servers.bound ≡ others ++ (control, socket) ∷ []
