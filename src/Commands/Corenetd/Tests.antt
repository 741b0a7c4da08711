-- ===== src/Commands/Corenetd/Tests.antt =====
-- Witnesses for the daemon's process.
use corenet.Common.{
  Text, bytes, ◌≡◌, refl, List, [], ◌∷◌, map, text_eq, split_host_port, parse_ip, to4, Option,
  plain_unicode,
}
use corenet.Config.{Config}
use corenet.Config.Checks.{IsValid}
use corenet.Config.Loading.{Machine, missing, default_config, load, loaded}
use corenet.Config.Tests.{machine}
use corenet.Discovery.Container.{Refusal}
use corenet.Daemon.Node.{Daemon, new_daemon}
use corenet.Daemon.Node.Lifetime.{pulled, after}
use corenet.Daemon.Node.Sound.{IsSound}
use corenet.Daemon.Peers.Tests.{round}
use corenet.Daemon.Running.{Ran, Servers, stopped, proxy_address}
use corenet.Dns.Server.{Failure, new_server}
use corenet.Daemon.Running
use corenet.Daemon.Running.Tests.{crashed, slow_stop}
use corenet.Commands.Corenetd.{
  Happening, hung_up, meanwhile, event_of, exit_code, exited, no_configuration, run,
}
use corenet.Commands.Corenetd.InForce.{run-IsSound}

abbrev pub bare : Machine
bare = record machine { read_file = λ path. missing }

-- A signal finds a broken file, and a round of requests follows.
abbrev pub story : List (Happening plain_unicode)
story = hung_up machine ∷ meanwhile (pulled round) ∷ []

abbrev pub wording : Refusal → Text
wording e = bytes "refused"

abbrev pub settings : Config
unfolding default_config
settings = default_config bare

abbrev pub left : Daemon plain_unicode
unfolding after new_daemon default_config load
left =
    after plain_unicode wording (map (event_of plain_unicode []) story)
      (new_daemon plain_unicode settings)

abbrev pub ran : Ran
unfolding Running.run default_config
ran = Running.run crashed slow_stop settings.listen

-- The daemon comes to serve, and stops.
pub ran-stopped : (e : Option Failure) × (s : Servers) × (ran ≡ stopped e s)
unfolding Running.run ran settings text_eq split_host_port parse_ip to4 new_server proxy_address
ran-stopped = (_, _, refl)

pub runs :
    run plain_unicode wording bare crashed slow_stop [] story ≡ exited no_configuration left ran
unfolding run load left ran settings
runs = refl

run-IsSound_example :
    IsValid left.cfg
    × ((cfg : Config) × (load plain_unicode bare [] ≡ loaded cfg) × IsSound plain_unicode cfg left)
unfolding left
run-IsSound_example =
    run-IsSound plain_unicode wording bare crashed slow_stop [] story no_configuration left ran
      (tt, (tt, tt)) runs

-- A broken file stops the process before anything is bound.
broken : exit_code plain_unicode (run plain_unicode wording machine crashed slow_stop [] story) ≡ 1
unfolding run load text_eq
broken = refl
