-- ===== src/Daemon/Peers/Recovery.antt =====
-- What one round of internal/daemon/peers.go makes of the state of each endpoint.
use corenet.Common.{
  ℕ, Text, ◌≡◌, refl, sym, ap, ap₂, ◌∙◌, Bool, true, false, List, [], ◌∷◌, Option, none, some,
  arith, Map, get, put, get-put, text_eq, text_eq_iff, Option-cases, Bool-cases, inl, inr,
}
use corenet.Protocol.{Service, Info}
use corenet.Daemon.Peers.{
  RemoteStore, PeerState, Network, Fetched, fetched, failed, Round, fetch_both, seen_state,
  lost_state, mark_offline, pull_result, pull, pull_each, pull_all,
}
use corenet.Daemon.Peers.Report.{IsListed, contains}

-- The state of an endpoint after what its node answered.
abbrev pub next_state : ℕ → Fetched (Info × List Service) → PeerState → PeerState
next_state now (failed cause) s = lost_state cause s
next_state now (fetched (info, services)) s = seen_state info now s

-- What a state says of the last answer: the node is online under its ID, or offline for a cause.
abbrev pub Tells : ℕ → Fetched (Info × List Service) → PeerState → Type 0
Tells now (failed cause) s = (s.online ≡ false) × (s.last_err ≡ cause)
Tells now (fetched (info, services)) s =
    (s.online ≡ true) × (s.node_id ≡ info.node_id) × (s.last_seen ≡ some now) × (s.last_err ≡ [])

abbrev changed_if : Bool → (PeerState → PeerState) → Option PeerState → Option PeerState
changed_if b f none = none
changed_if true f (some s) = some (f s)
changed_if false f (some s) = some s

changed_false : (f : PeerState → PeerState) (o : Option PeerState) → o ≡ changed_if false f o
changed_false f none = refl
changed_false f (some s) = refl

changed_none :
    (m : Map PeerState) (f : PeerState → PeerState) (k e : Text)
    → get m k ≡ none
    → get m e ≡ changed_if (text_eq k e) f (get m e)
changed_none m f k e gone = elim (Bool-cases (text_eq k e)) [
  | inl same ↦
      let at : get m e ≡ none = ap (get m) (sym ((text_eq_iff k e).0 same)) ∙ gone in rw at refl
  | inr other ↦ rw other (changed_false f (get m e))
]

changed_some :
    (m : Map PeerState) (f : PeerState → PeerState) (k e : Text) (s : PeerState)
    → get m k ≡ some s
    → get (put m k (f s)) e ≡ changed_if (text_eq k e) f (get m e)
changed_some m f k e s there = elim (Bool-cases (text_eq k e)) [
  | inl same ↦
      let at : get m e ≡ some s = ap (get m) (sym ((text_eq_iff k e).0 same)) ∙ there in
      get-put m k e (f s) ∙ rw (same, at) refl
  | inr other ↦ get-put m k e (f s) ∙ rw other (changed_false f (get m e))
]

next_state_twice :
    (now : ℕ) (f : Fetched (Info × List Service)) (s : PeerState)
    → next_state now f (next_state now f s) ≡ next_state now f s
next_state_twice now (failed cause) s = refl
next_state_twice now (fetched (i, l)) s = refl

changed_twice :
    (now : ℕ) (f : Fetched (Info × List Service)) (b : Bool) (o : Option PeerState)
    → changed_if b (next_state now f) (changed_if true (next_state now f) o)
      ≡ changed_if true (next_state now f) o
changed_twice now f true none = refl
changed_twice now f false none = refl
changed_twice now f true (some s) = ap some (next_state_twice now f s)
changed_twice now f false (some s) = refl

module _ (S : RemoteStore) where
  pull_result-state :
      (endpoint : Text) (now : ℕ) (n : Network S) (f : Fetched (Info × List Service)) (e : Text)
      → get (pull_result S endpoint now n f).peers.states e
        ≡ changed_if (text_eq endpoint e) (next_state now f) (get n.peers.states e)
  unfolding mark_offline
  pull_result-state endpoint now n (failed cause) e =
      elim (Option-cases (get n.peers.states endpoint)) [
        | inl gone ↦
            rw (gone, mark_offline)
              (changed_none n.peers.states (next_state now (failed cause)) endpoint e gone)
        | inr (s, there) ↦
            rw (there, mark_offline)
              (changed_some n.peers.states (next_state now (failed cause)) endpoint e s there)
      ]
  pull_result-state endpoint now n (fetched (i, l)) e =
      elim (Option-cases (get n.peers.states endpoint)) [
        | inl gone ↦
            rw gone (changed_none n.peers.states (next_state now (fetched (i, l))) endpoint e gone)
        | inr (s, there) ↦
            rw there
              (changed_some n.peers.states (next_state now (fetched (i, l))) endpoint e s there)
      ]

  pull_result-local_node_id :
      (endpoint : Text) (now : ℕ) (n : Network S) (f : Fetched (Info × List Service))
      → (pull_result S endpoint now n f).peers.local_node_id ≡ n.peers.local_node_id
  unfolding mark_offline
  pull_result-local_node_id endpoint now n (failed cause) =
      elim (Option-cases (get n.peers.states endpoint)) [
        | inl gone ↦ rw (gone, mark_offline) refl
        | inr (s, there) ↦ rw (there, mark_offline) refl
      ]
  pull_result-local_node_id endpoint now n (fetched (i, l)) =
      elim (Option-cases (get n.peers.states endpoint)) [
        | inl gone ↦ rw gone refl
        | inr (s, there) ↦ rw there refl
      ]

  -- What the requests to an endpoint give in a round.
  abbrev pub answer : Round S → Text → Text → Fetched (Info × List Service)
  unfolding fetch_both
  answer round local_id e = fetch_both local_id (round.info e) (round.services e)

  pull_each-state :
      (round : Round S) (endpoints : List Text) (n : Network S) (e : Text)
      → get (pull_each S round endpoints n).peers.states e
        ≡ changed_if
            (contains endpoints e)
            (next_state round.now (answer round n.peers.local_node_id e))
            (get n.peers.states e)
  unfolding pull_each pull
  pull_each-state round [] n e =
      changed_false (next_state round.now (answer round n.peers.local_node_id e))
        (get n.peers.states e)
  pull_each-state round (x ∷ endpoints) n e =
      let local_id = n.peers.local_node_id in
      let f = answer round local_id x in
      let n' = pull_result S x round.now n f in
      pull_each-state round endpoints n' e
      ∙ ap₂ (λ id o. changed_if (contains endpoints e) (next_state round.now (answer round id e)) o)
          (pull_result-local_node_id x round.now n f) (pull_result-state x round.now n f e)
      ∙ elim (Bool-cases (text_eq x e)) [
        | inl same ↦
            rw (same, (text_eq_iff x e).0 same)
              (changed_twice round.now _ (contains endpoints e) (get n.peers.states e))
        | inr other ↦
            rw (other, ← changed_false (next_state round.now f) (get n.peers.states e)) refl
      ]

  pub pull_all-state :
      (round : Round S) (n : Network S) (e : Text)
      → IsListed n.peers
      → contains n.peers.order e ≡ true
      → (s : PeerState) × (get (pull_all S round n).peers.states e ≡ some s)
        × Tells round.now (answer round n.peers.local_node_id e) s
  unfolding pull_all
  pull_all-state round n e h there = elim (Option-cases (get n.peers.states e)) [
    | inl gone ↦ absurd (ground (arith, there, gone, h.exact e))
    | inr (s, known) ↦ (
      next_state round.now (answer round n.peers.local_node_id e) s,
      pull_each-state round n.peers.order n e ∙ rw (there, known) refl,
      told (answer round n.peers.local_node_id e) s,
    )
  ]
    where
      told :
          (f : Fetched (Info × List Service)) (s : PeerState)
          → Tells round.now f (next_state round.now f s)
      told (failed cause) s = (refl, refl)
      told (fetched (i, l)) s = (refl, refl, refl, refl)
