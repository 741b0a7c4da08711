-- ===== src/Daemon/Peers/Stored.antt =====
-- The puller of internal/daemon/peers.go keeps what every write to its store keeps.
use corenet.Common.{
  ℕ, Text, Bool, true, false, not, ◌&&◌, List, [], ◌∷◌, Map, get, is_some, is_empty, text_eq,
  if◌then◌else◌, Option-cases, inl, inr,
}
use corenet.Protocol.{Service, Info}
use corenet.Daemon.Peers.{
  RemoteStore, PeerState, Network, Fetched, fetched, failed, Round, keep_states, fetch_both,
  forget_dropped, set_endpoints, mark_offline, publish, pull_result, pull, pull_each, pull_all,
}

module _ (S : RemoteStore) (P : RemoteStore.Store S → Type 0)
    (kept : (id : Text) (services : List Service) (st : RemoteStore.Store S)
      → P st
      → P (RemoteStore.set_remote S id services st)) where
  set_if :
      (b : Bool) (id : Text) (st : RemoteStore.Store S)
      → P st
      → P (if b then RemoteStore.set_remote S id [] st else st)
  set_if true id st h = kept id [] st h
  set_if false id st h = h

  forget_dropped-kept :
      (old next : Map PeerState) (st : RemoteStore.Store S)
      → P st
      → P (forget_dropped S old next st)
  unfolding forget_dropped
  forget_dropped-kept [] next st h = h
  forget_dropped-kept ((e, s) ∷ old) next st h =
      forget_dropped-kept old next _
        (set_if (not (is_some (get next e)) && not (is_empty s.node_id)) s.node_id st h)

  pub set_endpoints-kept :
      (endpoints : List Text) (n : Network S) → P n.store → P (set_endpoints S endpoints n).store
  unfolding set_endpoints
  set_endpoints-kept endpoints n h =
      forget_dropped-kept n.peers.states (keep_states n.peers.states endpoints [] []).0 n.store h

  mark_offline-kept :
      (endpoint cause : Text) (n : Network S)
      → P n.store
      → P (mark_offline S endpoint cause n).store
  unfolding mark_offline
  mark_offline-kept endpoint cause n h = elim (Option-cases (get n.peers.states endpoint)) [
    | inl gone ↦ rw (gone, mark_offline) h
    | inr (s, there) ↦ rw (there, mark_offline) (forgotten s.node_id)
  ]
    where
      forgotten :
          (id : Text) → P (if is_empty id then n.store else RemoteStore.set_remote S id [] n.store)
      forgotten [] = h
      forgotten (c ∷ id) = kept (c ∷ id) [] n.store h

  publish-kept :
      (previous_id node_id : Text) (services : List Service) (st : RemoteStore.Store S)
      → P st
      → P (publish S previous_id node_id services st)
  unfolding publish
  publish-kept previous_id node_id services st h =
      kept node_id services _
        (set_if (not (is_empty previous_id) && not (text_eq previous_id node_id)) previous_id st h)

  pull_result-kept :
      (endpoint : Text) (now : ℕ) (n : Network S) (f : Fetched (Info × List Service))
      → P n.store
      → P (pull_result S endpoint now n f).store
  pull_result-kept endpoint now n (failed cause) h = mark_offline-kept endpoint cause n h
  pull_result-kept endpoint now n (fetched (i, l)) h =
      elim (Option-cases (get n.peers.states endpoint)) [
        | inl gone ↦ rw gone h
        | inr (s, there) ↦ rw there (publish-kept s.node_id i.node_id l n.store h)
      ]

  pull_each-kept :
      (round : Round S) (endpoints : List Text) (n : Network S)
      → P n.store
      → P (pull_each S round endpoints n).store
  unfolding pull_each pull
  pull_each-kept round [] n h = h
  pull_each-kept round (e ∷ endpoints) n h = pull_each-kept round endpoints _ (
      pull_result-kept e round.now n
        (fetch_both n.peers.local_node_id (round.info e) (round.services e)) h)

  pub pull_all-kept : (round : Round S) (n : Network S) → P n.store → P (pull_all S round n).store
  unfolding pull_all
  pull_all-kept round n h = pull_each-kept round n.peers.order n h
