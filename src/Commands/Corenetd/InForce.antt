-- ===== src/Commands/Corenetd/InForce.antt =====
-- The node that the process of cmd/corenetd/main.go keeps.
use corenet.Common.{Text, ◌≡◌, refl, subst, List, [], ◌∷◌, map, All, Unicode}
use corenet.Config.{Config}
use corenet.Config.Checks.{IsValid}
use corenet.Config.Loading.{Machine, Loaded, loaded, not_loaded, load}
use corenet.Config.Loading.Search.{load_lem}
use corenet.Discovery.Container.{Refusal}
use corenet.Daemon.Node.{Daemon, new_daemon}
use corenet.Daemon.Node.Lifetime.{hup, pulled, asked, listed, after}
use corenet.Daemon.Node.Sound.{IsSound, after-IsSound}
use corenet.Daemon.Node.InForce.{IsLoadable, after-IsValid}
use corenet.Daemon.Running.{System, Stops, Ran}
use corenet.Commands.Corenetd.{
  Happening, hung_up, meanwhile, event_of, exited, LogLine, run_loaded, run,
}

module _ (u : Unicode) where
  -- What happens between the signals is no reload.
  abbrev pub IsNoReload : Happening u → Type 0
  IsNoReload (hung_up m) = Unit
  IsNoReload (meanwhile (hup loading)) = ⊥
  IsNoReload (meanwhile (pulled round)) = Unit
  IsNoReload (meanwhile (asked uptime req)) = Unit
  IsNoReload (meanwhile (listed listing)) = Unit

  event_of-IsLoadable :
      (path : Text) (h : Happening u) → IsNoReload h → IsLoadable u (event_of u path h)
  unfolding event_of load
  event_of-IsLoadable path (hung_up m) n =
      from (load u m path) (λ cfg h. (load_lem u m path cfg h).0)
    where
      from : (l : Loaded) → ((cfg : Config) → l ≡ loaded cfg → IsValid cfg) → IsLoadable u (hup l)
      from (loaded cfg) valid = valid cfg refl
      from (not_loaded e) valid = tt
  event_of-IsLoadable path (meanwhile (hup loading)) n = absurd n
  event_of-IsLoadable path (meanwhile (pulled round)) n = tt
  event_of-IsLoadable path (meanwhile (asked uptime req)) n = tt
  event_of-IsLoadable path (meanwhile (listed listing)) n = tt

  events-IsLoadable :
      (path : Text) (hs : List (Happening u))
      → All IsNoReload hs
      → All (IsLoadable u) (map (event_of u path) hs)
  events-IsLoadable path [] n = tt
  events-IsLoadable path (h ∷ hs) n =
      (event_of-IsLoadable path h n.0, events-IsLoadable path hs n.1)

  -- The process serves only with a valid configuration: where `run` has come to a node, the configuration
  -- in force on it is valid, whatever the files hold at the start and at each signal, and whatever happens
  -- between the signals; and the node is sound, with the settings of the configuration that it started with.
  pub run-IsSound :
      (wording : Refusal → Text) (m : Machine) (sys : System) (stops : Stops) (path : Text)
      (hs : List (Happening u)) (line : LogLine) (d : Daemon u) (ran : Ran)
      → All IsNoReload hs
      → run u wording m sys stops path hs ≡ exited line d ran
      → IsValid d.cfg × ((start : Config) × (load u m path ≡ loaded start) × IsSound u start d)
  unfolding run run_loaded
  run-IsSound wording m sys stops path hs line d ran n h = from (load u m path) refl h
    where
      from :
          (l : Loaded)
          → load u m path ≡ l
          → run_loaded u wording sys stops hs l ≡ exited line d ran
          → IsValid d.cfg × ((start : Config) × (load u m path ≡ loaded start) × IsSound u start d)
      from (not_loaded e) found q = absurd (cc q)
      from (loaded cfg) found q =
          let left : after u wording (map (event_of u cfg.path) hs) (new_daemon u cfg) ≡ d = cc q in
          let valid : IsValid cfg = (load_lem u m path cfg found).0 in
          (
            subst (λ d. IsValid d.cfg) left
                (after-IsValid u wording (map (event_of u cfg.path) hs) (new_daemon u cfg)
                  (events-IsLoadable cfg.path hs n) (unfold new_daemon in valid)),
            (
              cfg,
              found,
              subst (IsSound u cfg) left
                  (after-IsSound u wording (map (event_of u cfg.path) hs) cfg),
            ),
          )
