-- ===== src/Commands/Corenetd.antt =====
-- cmd/corenetd/main.go: the daemon's process. The machine is as it is at the start, and as each hang-up
-- signal finds it. What goes on between the signals is a list of events.
pub mod InForce
pub mod Tests
use corenet.Common.{
  ℕ, Text, Bool, List, [], ◌∷◌, ◌++◌, Option, none, some, map, is_empty, if◌then◌else◌, Unicode,
}
use corenet.Config.Loading.{Machine, LoadError, Loaded, loaded, not_loaded, load}
use corenet.Discovery.Container.{Refusal}
use corenet.Daemon.Node.{Daemon, new_daemon}
use corenet.Daemon.Node.Lifetime.{Event, hup, after}
use corenet.Daemon.Running
use corenet.Daemon.Running.{System, Stops, Ran, refused, stopped}

pub data LogLine : Type 0 where
  no_configuration : LogLine
  configuration : Text → LogLine

module _ (u : Unicode) where
  -- A hang-up signal, with the machine that it finds, or something else that happens.
  pub data Happening : Type 0 where
    hung_up : Machine → Happening
    meanwhile : Event u → Happening

  -- One turn of the loop of `reloadOnHUP`, for a signal.
  abbrev pub event_of : Text → Happening → Event u
  unfolding load
  event_of path (hung_up m) = hup (load u m path)
  event_of path (meanwhile event) = event

  -- How the process ends. Where it was serving, the node as it was left.
  pub data Exit : Type 0 where
    version_printed : Exit
    not_started : LoadError → Exit
    exited : LogLine → Daemon u → Ran → Exit

  -- The status of the process, which is 1 on any error.
  abbrev pub exit_code : Exit → ℕ
  exit_code version_printed = 0
  exit_code (not_started e) = 1
  exit_code (exited line d (refused e s)) = 1
  exit_code (exited line d (stopped none s)) = 0
  exit_code (exited line d (stopped (some e) s)) = 1

  abbrev pub run_loaded : (Refusal → Text) → System → Stops → List Happening → Loaded → Exit
  unfolding after new_daemon Running.run load
  run_loaded wording sys stops happenings (not_loaded e) = not_started e
  run_loaded wording sys stops happenings (loaded cfg) =
      exited (if is_empty cfg.path then no_configuration else configuration cfg.path)
        (after u wording (map (event_of cfg.path) happenings) (new_daemon u cfg))
        (Running.run sys stops cfg.listen)

  -- `run`
  unfoldable pub run : (Refusal → Text) → Machine → System → Stops → Text → List Happening → Exit
  unfolding load run_loaded
  run wording m sys stops path happenings = run_loaded wording sys stops happenings (load u m path)

  -- `main`, after its flags are parsed.
  abbrev pub main :
      (Refusal → Text) → Machine → System → Stops → Bool → Text → List Happening → Exit
  unfolding run
  main wording m sys stops show_version path happenings =
      let ran = run wording m sys stops path happenings in
      if show_version then version_printed else ran
