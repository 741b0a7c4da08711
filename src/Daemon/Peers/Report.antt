-- ===== src/Daemon/Peers/Report.antt =====
-- `Nodes` of internal/daemon/peers.go: it never reads through a missing state, and it reports the
-- configured endpoints in their order.
use corenet.Common.{
  ℕ, Text, ◌≡◌, refl, sym, ap, ◌∙◌, Bool, ◌||◌, true, false, List, [], ◌∷◌, ◌++◌, map, some, arith,
  Map, get, put, get-put, get-Entries, Entries, put-Entries, is_some, text_eq, text_eq_iff, All,
  All-mono, All-append, if◌then◌else◌, append-nil, append_assoc, Bool-cases, Option-cases, inl, inr,
  ap₂,
}
use corenet.Protocol.{Service, Info, Node}
use corenet.Daemon.Peers.{
  RemoteStore, PeerState, Peers, Network, Fetched, fetched, failed, Round, or_fresh, keep_states,
  fetch_both, seen_state, lost_state, set_endpoints, mark_offline, pull_result, pull, pull_each,
  pull_all, run, node_of, nodes_of, nodes,
}

-- A state stands under its own endpoint.
abbrev IsOwn : Text → PeerState → Type 0
IsOwn e s = s.endpoint ≡ e

abbrev IsKnown : Map PeerState → Text → Type 0
IsKnown states e = is_some (get states e) ≡ true

abbrev pub contains : List Text → Text → Bool
contains [] e = false
contains (x ∷ xs) e = text_eq x e || contains xs e

-- Every endpoint in the order has its state, and no other endpoint has one.
pub record IsListed (p : Peers) : Type 0 where
  pub known : All (IsKnown p.states) p.order
  pub own : Entries IsOwn p.states
  pub exact : (e : Text) → is_some (get p.states e) ≡ contains p.order e

-- The first occurrence of each endpoint, in order, without those that `seen` has.
pub distinct_from : List Text → List Text → List Text
distinct_from seen [] = []
distinct_from seen (e ∷ es) =
    let rest = distinct_from (seen ++ e ∷ []) es in
    let same = distinct_from seen es in if contains seen e then same else e ∷ rest

pub contains-distinct_from :
    (e : Text) (seen es : List Text)
    → contains (distinct_from seen es) e ≡ true
    → contains es e ≡ true
unfolding distinct_from
contains-distinct_from e seen [] h = h
contains-distinct_from e seen (x ∷ es) h =
    ground
      (arith, h, contains-distinct_from e seen es, contains-distinct_from e (seen ++ x ∷ []) es)

contains-append :
    (xs : List Text) (y e : Text) → contains (xs ++ y ∷ []) e ≡ (contains xs e || text_eq y e)
contains-append [] y e = ground arith
contains-append (x ∷ xs) y e = ground (arith, contains-append xs y e)

IsKnown-put :
    (states : Map PeerState) (e : Text) (s : PeerState) (k : Text)
    → IsKnown states k
    → IsKnown (put states e s) k
IsKnown-put states e s k h = ground (arith, h, get-put states e k s)

IsKnown-self : (states : Map PeerState) (e : Text) (s : PeerState) → IsKnown (put states e s) e
IsKnown-self states e s = ground (arith, get-put states e e s, text_eq_iff e e)

or_fresh-IsOwn :
    (old : Map PeerState) (e : Text) → Entries IsOwn old → IsOwn e (or_fresh e (get old e))
or_fresh-IsOwn old e h = elim (Option-cases (get old e)) [
  | inl gone ↦ rw gone
  | inr (s, there) ↦ rw there (get-Entries IsOwn old e s h there)
]

module _ (old : Map PeerState) (own : Entries IsOwn old) where
  keep_states-IsListed :
      (endpoints : List Text) (next : Map PeerState) (order : List Text)
      → All (IsKnown next) order
      → Entries IsOwn next
      → All
          (IsKnown (keep_states old endpoints next order).0)
          (keep_states old endpoints next order).1
        × Entries IsOwn (keep_states old endpoints next order).0
  unfolding keep_states
  keep_states-IsListed [] next order k o = (k, o)
  keep_states-IsListed (e ∷ endpoints) next order k o = elim (Bool-cases (is_some (get next e))) [
    | inl seen ↦ rw (seen, keep_states) (keep_states-IsListed endpoints next order k o)
    | inr new ↦
        let s = or_fresh e (get old e) in
        rw (new, keep_states)
          (keep_states-IsListed endpoints (put next e s) (order ++ e ∷ [])
            (All-append (IsKnown (put next e s)) order (e ∷ [])
              (All-mono (IsKnown next) (IsKnown (put next e s)) order (IsKnown-put next e s) k)
              (IsKnown-self next e s, tt))
            (put-Entries IsOwn next e s (or_fresh-IsOwn old e own) o))
  ]

  -- The order is the list of endpoints without its repetitions, and its endpoints have the states.
  keep_states-order :
      (endpoints : List Text) (next : Map PeerState) (order : List Text)
      → ((e : Text) → is_some (get next e) ≡ contains order e)
      → ((keep_states old endpoints next order).1 ≡ order ++ distinct_from order endpoints)
        × ((e : Text)
            → is_some (get (keep_states old endpoints next order).0 e)
              ≡ contains (keep_states old endpoints next order).1 e)
  unfolding keep_states distinct_from
  keep_states-order [] next order same = (sym (append-nil order), same)
  keep_states-order (e ∷ endpoints) next order same = elim (Bool-cases (contains order e)) [
    | inl seen ↦
        rw (seen, same e ∙ seen, keep_states, distinct_from)
          (keep_states-order endpoints next order same)
    | inr new ↦
        let s = or_fresh e (get old e) in
        rw (new, same e ∙ new, keep_states, distinct_from)
          (let (listed, exact) =
              keep_states-order endpoints (put next e s) (order ++ e ∷ [])
                (λ k. ground (arith, same k, get-put next e k s, contains-append order e k)) in
            (
              listed ∙ append_assoc order (e ∷ []) (distinct_from (order ++ e ∷ []) endpoints),
              exact,
            ))
  ]

module _ (S : RemoteStore) where
  pub set_endpoints-IsListed :
      (endpoints : List Text) (n : Network S)
      → IsListed n.peers
      → IsListed (set_endpoints S endpoints n).peers
        × ((set_endpoints S endpoints n).peers.order ≡ distinct_from [] endpoints)
  unfolding set_endpoints get
  set_endpoints-IsListed endpoints n h =
      let (known, own) = keep_states-IsListed n.peers.states h.own endpoints [] [] tt tt in
      let (order, exact) = keep_states-order n.peers.states h.own endpoints [] [] (λ e. refl) in
      (record { known = known; own = own; exact = exact }, order)

  put-IsListed :
      (p : Peers) (e : Text) (s : PeerState)
      → s.endpoint ≡ e
      → IsKnown p.states e
      → IsListed p
      → IsListed (record p { states = put p.states e s })
  put-IsListed p e s o there h = record {
    known =
        All-mono (IsKnown p.states) (IsKnown (put p.states e s)) p.order (IsKnown-put p.states e s)
          h.known;
    own = put-Entries IsOwn p.states e s o h.own;
    exact = λ k. ground (arith, there, h.exact k, get-put p.states e k s, text_eq_iff e k);
  }

  -- A pull changes no endpoint and no order.
  abbrev pub Keeps : Network S → Network S → Type 0
  Keeps n m = IsListed m.peers × (m.peers.order ≡ n.peers.order)

  mark_offline-Keeps :
      (endpoint cause : Text) (n : Network S)
      → IsListed n.peers
      → Keeps n (mark_offline S endpoint cause n)
  unfolding mark_offline
  mark_offline-Keeps endpoint cause n h = elim (Option-cases (get n.peers.states endpoint)) [
    | inl gone ↦ rw (gone, mark_offline) (h, refl)
    | inr (s, there) ↦
        rw (there, mark_offline)
          (
            put-IsListed n.peers endpoint (lost_state cause s)
                (get-Entries IsOwn n.peers.states endpoint s h.own there) (ap is_some there) h,
            refl,
          )
  ]

  pull_result-Keeps :
      (endpoint : Text) (now : ℕ) (n : Network S) (f : Fetched (Info × List Service))
      → IsListed n.peers
      → Keeps n (pull_result S endpoint now n f)
  pull_result-Keeps endpoint now n (failed cause) h = mark_offline-Keeps endpoint cause n h
  pull_result-Keeps endpoint now n (fetched (i, l)) h =
      elim (Option-cases (get n.peers.states endpoint)) [
        | inl gone ↦ rw gone (h, refl)
        | inr (s, there) ↦ rw there (
          put-IsListed n.peers endpoint (seen_state i now s)
              (get-Entries IsOwn n.peers.states endpoint s h.own there) (ap is_some there) h,
          refl,
        )
      ]

  pub pull_each-Keeps :
      (round : Round S) (endpoints : List Text) (n : Network S)
      → IsListed n.peers
      → Keeps n (pull_each S round endpoints n)
  unfolding pull_each pull
  pull_each-Keeps round [] n h = (h, refl)
  pull_each-Keeps round (e ∷ endpoints) n h =
      let (h', same) =
        pull_result-Keeps e round.now n
          (fetch_both n.peers.local_node_id (round.info e) (round.services e)) h in
      let (h'', same') = pull_each-Keeps round endpoints _ h' in (h'', same' ∙ same)

  pub run-Keeps :
      (rounds : List (Round S)) (n : Network S) → IsListed n.peers → Keeps n (run S rounds n)
  unfolding run pull_all
  run-Keeps [] n h = (h, refl)
  run-Keeps (round ∷ rounds) n h =
      let (h', same) = pull_each-Keeps round n.peers.order n h in
      let (h'', same') = run-Keeps rounds _ h' in (h'', same' ∙ same)

  pub nodes_of-total :
      (states : Map PeerState) (st : RemoteStore.Store S) (order : List Text)
      → Entries IsOwn states
      → All (IsKnown states) order
      → (ns : List Node) × (nodes_of S states st order ≡ some ns)
        × (map (λ m. m.endpoint) ns ≡ order)
  unfolding nodes_of
  nodes_of-total states st [] o k = ([], refl, refl)
  nodes_of-total states st (e ∷ order) o k =
      let (ns, found, names) = nodes_of-total states st order o k.1 in
      elim (Option-cases (get states e)) [
        | inl gone ↦ absurd (ground (arith, k.0, gone))
        | inr (s, there) ↦ (
          node_of S st s ∷ ns,
          rw (there, found, nodes_of),
          ap₂ ◌∷◌ (get-Entries IsOwn states e s o there) names,
        )
      ]

  -- After a reload with any list of endpoints and any rounds of requests, whatever the other nodes
  -- answer, `Nodes` does not panic, and it reports exactly the configured endpoints: each once, in the
  -- order of its first occurrence in the list.
  pub nodes-run-set_endpoints :
      (endpoints : List Text) (rounds : List (Round S)) (n : Network S)
      → IsListed n.peers
      → (ns : List Node) × (nodes S (run S rounds (set_endpoints S endpoints n)) ≡ some ns)
        × (map (λ m. m.endpoint) ns ≡ distinct_from [] endpoints)
  unfolding nodes
  nodes-run-set_endpoints endpoints rounds n h =
      let (listed, order) = set_endpoints-IsListed endpoints n h in
      let (h', same) = run-Keeps rounds (set_endpoints S endpoints n) listed in
      let m = run S rounds (set_endpoints S endpoints n) in
      let (ns, found, names) =
        nodes_of-total m.peers.states m.store m.peers.order h'.own h'.known in
      (ns, found, names ∙ same ∙ order)
