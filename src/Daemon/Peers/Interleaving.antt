-- ===== src/Daemon/Peers/Interleaving.antt =====
-- `pull` of internal/daemon/peers.go writes to the store after it has released its mutex, so a reload
-- can come between. The two parts on their own, and what an unlucky order leaves behind.
use corenet.Common.{
  ℕ, Text, ◌≡◌, refl, ap, ◌∙◌, List, [], ◌∷◌, ◌++◌, Option, none, some, get, put, length,
  Option-cases, inl, inr, if◌then◌else◌,
}
use corenet.Protocol.{Service, Info}
use corenet.Daemon.Peers.{
  RemoteStore, PeerState, Network, Fetched, fetched, Round, reachable, seen_state, set_endpoints,
  publish, pull, pull_each, pull_all, run, fetch_both,
}
use corenet.Daemon.Peers.Coverage.{IsCovered}
use corenet.Daemon.Peers.Laws.{StoreLaws}

-- What a pull still has to write: the node's old ID, its new ID, and its services.
pub record Publication : Type 0 where
  pub previous_id : Text
  pub node_id : Text
  pub services : List Service

module _ (S : RemoteStore) where
  abbrev pub commit_state :
      Text → ℕ → Info → List Service → Network S → Option PeerState → Network S × Option Publication
  commit_state endpoint now info services n none = (n, none)
  commit_state endpoint now info services n (some s) = (
    record n {
      peers = record (n.peers) { states = put n.peers.states endpoint (seen_state info now s) };
      log =
          if s.online
          then n.log
          else n.log ++ reachable info.node_id endpoint (length services) ∷ [];
    },
    some (record { previous_id = s.node_id; node_id = info.node_id; services = services }),
  )

  -- The part of a successful pull that holds the mutex.
  unfoldable pub commit :
      Text → ℕ → Info → List Service → Network S → Network S × Option Publication
  commit endpoint now info services n =
      commit_state endpoint now info services n (get n.peers.states endpoint)

  abbrev pub publish_store : Option Publication → RemoteStore.Store S → RemoteStore.Store S
  publish_store none st = st
  publish_store (some p) st = publish S p.previous_id p.node_id p.services st

  -- The part that follows.
  unfoldable pub finish : Option Publication → Network S → Network S
  finish p n = record n { store = publish_store p n.store }

  -- What a pull does under its mutex, and then, with nothing between, what it does after it, make the
  -- whole pull.
  pub finish-commit :
      (endpoint : Text) (now : ℕ) (info : Fetched Info) (services : Fetched (List Service))
      (n : Network S) (i : Info) (l : List Service)
      → fetch_both n.peers.local_node_id info services ≡ fetched (i, l)
      → finish (commit endpoint now i l n).1 (commit endpoint now i l n).0
        ≡ pull S endpoint now info services n
  unfolding finish commit pull
  finish-commit endpoint now info services n i l e =
      elim (Option-cases (get n.peers.states endpoint)) [
        | inl gone ↦ rw (e, gone, pull) refl
        | inr (t, there) ↦ rw (e, there, pull) refl
      ]

  -- A reload that drops every node, in between.
  abbrev pub raced : Text → ℕ → Info → List Service → Network S → Network S
  raced endpoint now info services n =
      finish (commit endpoint now info services n).1
        (set_endpoints S [] (commit endpoint now info services n).0)

  -- With no endpoint left a round does nothing.
  run_idle : (rounds : List (Round S)) (n : Network S) → n.peers.order ≡ [] → run S rounds n ≡ n
  unfolding run pull_all pull_each
  run_idle [] n h = refl
  run_idle (round ∷ rounds) n h =
      ap (run S rounds) (ap (λ order. pull_each S round order n) h) ∙ run_idle rounds n h

module _ (S : RemoteStore) (L : StoreLaws S) where
  open L use {offers}

  publish-written :
      (previous_id node_id k : Text) (services : List Service) (s : Service)
      → ((st : RemoteStore.Store S)
          → offers (RemoteStore.set_remote S node_id services st) node_id k ≡ some s)
      → (st : RemoteStore.Store S)
      → offers (publish S previous_id node_id services st) node_id k ≡ some s
  unfolding publish
  publish-written previous_id node_id k services s written st = written _

  -- When a reload that drops every endpoint comes between the two parts of a successful pull, the
  -- services that the pull then writes stay in the store through any further rounds, though no
  -- endpoint is configured, so that no directory may be held at all.
  pub stale_directory :
      (endpoint k : Text) (now : ℕ) (info : Info) (services : List Service) (n : Network S)
      (t : PeerState) (s : Service) (rounds : List (Round S))
      → get n.peers.states endpoint ≡ some t
      → ((st : RemoteStore.Store S)
          → offers (RemoteStore.set_remote S info.node_id services st) info.node_id k ≡ some s)
      → (offers (run S rounds (raced S endpoint now info services n)).store info.node_id k ≡ some s)
        × ((run S rounds (raced S endpoint now info services n)).peers.states ≡ [])
        × ¬ (IsCovered S L (run S rounds (raced S endpoint now info services n)))
  unfolding commit finish set_endpoints get
  stale_directory endpoint k now info services n t s rounds there written =
      let m = raced S endpoint now info services n in
      let idle : run S rounds m ≡ m = run_idle S rounds m refl in
      let kept : offers m.store info.node_id k ≡ some s =
        rw (there, commit) (publish-written t.node_id info.node_id k services s written _) in
      rw idle (
        kept,
        refl,
        λ h. let (filled, (e, t', found, same, up)) = h.covered info.node_id k s kept in cc found,
      )
