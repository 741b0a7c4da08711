-- ===== src/Daemon/Node/InForce.antt =====
-- The configuration in force on a node of internal/daemon/daemon.go is always valid.
use corenet.Common.{Text, Option-cases, Bool-cases, inl, inr, List, [], ◌∷◌, All, Unicode}
use corenet.Config.{Config}
use corenet.Config.Checks.{IsValid}
use corenet.Config.Loading.{loaded, not_loaded}
use corenet.Discovery.Container.{Refusal}
use corenet.Daemon.Node.{Daemon, needs_restart, applied, reload}
use corenet.Daemon.Node.Lifetime.{Event, hup, pulled, asked, listed, ask, discover, happen, after}

module _ (u : Unicode) where
  -- What is loaded on a signal is a valid configuration.
  abbrev pub IsLoadable : Event u → Type 0
  IsLoadable (hup (loaded cfg)) = IsValid cfg
  IsLoadable (hup (not_loaded e)) = Unit
  IsLoadable (pulled round) = Unit
  IsLoadable (asked uptime req) = Unit
  IsLoadable (listed listing) = Unit

  applied-IsValid :
      (cfg current : Config) → IsValid cfg → IsValid current → IsValid (applied u cfg current)
  unfolding applied
  applied-IsValid cfg current v w = elim (Bool-cases (needs_restart u cfg current)) [
    | inl restart ↦
        rw (restart, applied)
          (record {
            identified = w.identified;
            controlled = w.controlled;
            dns = w.dns;
            http = w.http;
            peer = w.peer;
            services = v.services;
            distinct = v.distinct;
            pull = w.pull;
            poll = w.poll;
            nodes = v.nodes;
          })
    | inr free ↦ rw (free, applied) v
  ]

  happen-IsValid :
      (wording : Refusal → Text) (event : Event u) (d : Daemon u)
      → IsLoadable event
      → IsValid d.cfg
      → IsValid (happen u wording event d).cfg
  unfolding happen
  happen-IsValid wording (hup (not_loaded e)) d l v = unfold reload in v
  happen-IsValid wording (hup (loaded cfg)) d l v = unfold reload in applied-IsValid cfg d.cfg l v
  happen-IsValid wording (pulled round) d l v = v
  happen-IsValid wording (asked uptime req) d l v = unfold ask in v
  happen-IsValid wording (listed listing) d l v = elim (Option-cases d.docker) [
    | inl disabled ↦ rw (disabled, discover) v
    | inr (docker, enabled) ↦ rw (enabled, discover) v
  ]

  pub after-IsValid :
      (wording : Refusal → Text) (events : List (Event u)) (d : Daemon u)
      → All IsLoadable events
      → IsValid d.cfg
      → IsValid (after u wording events d).cfg
  unfolding after
  after-IsValid wording [] d l v = v
  after-IsValid wording (event ∷ events) d l v =
      after-IsValid wording events _ l.1 (happen-IsValid wording event d l.0 v)
