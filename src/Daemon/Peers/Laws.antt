-- ===== src/Daemon/Peers/Laws.antt =====
-- What happens to the puller of internal/daemon/peers.go, what it needs of the store, and what the
-- states of its endpoints say.
use corenet.Common.{
  is_empty-ne-nil, Text, ◌≡◌, ◌≢◌, ◌⊎◌, sym, ◌∙◌, true, false, List, [], ◌∷◌, ◌++◌, Option, none,
  some, arith, Map, get, put, get-put, is_some, text_eq, text_eq_iff, if◌then◌else◌, Bool-cases,
  inl, inr,
}
use corenet.Protocol.{Service, Info}
use corenet.Daemon.Peers.{
  RemoteStore, PeerState, Network, Fetched, fetched, Round, or_fresh, keep_states, fetch_both,
  set_endpoints, pull_all,
}

module _ (S : RemoteStore) where
  -- What happens to the puller: a round of requests, or a new list of endpoints.
  pub data Event : Type 0 where
    pulled : Round S → Event
    configured : List Text → Event

  unfoldable pub after : List Event → Network S → Network S
  after [] n = n
  after (pulled round ∷ events) n = after events (pull_all S round n)
  after (configured endpoints ∷ events) n = after events (set_endpoints S endpoints n)

-- What the puller needs of the store: what is offered by each node under each name, that writing no
-- services forgets the node, and that writing for one node leaves the others alone.
pub record StoreLaws (S : RemoteStore) : Type 0 where
  pub offers : RemoteStore.Store S → Text → Text → Option Service
  pub forgets :
      (id j k : Text) (st : RemoteStore.Store S)
      → offers (RemoteStore.set_remote S id [] st) j k
        ≡ (if text_eq id j then none else offers st j k)
  pub others :
      (id j k : Text) (services : List Service) (st : RemoteStore.Store S)
      → text_eq id j ≡ false
      → offers (RemoteStore.set_remote S id services st) j k ≡ offers st j k

-- A configured endpoint answered last with this node ID, and has not failed since.
abbrev pub Covers : Map PeerState → Text → Type 0
Covers states id =
    (endpoint : Text) × (s : PeerState) × (get states endpoint ≡ some s)
    × (s.node_id ≡ id)
    × (s.online ≡ true)

-- States that are kept are those that were there.
abbrev pub Agrees : Map PeerState → Map PeerState → Type 0
Agrees old next =
    (e : Text) (s : PeerState) → get old e ≡ some s → (get next e ≡ none) ⊎ (get next e ≡ some s)

pub keep_states-Agrees :
    (old : Map PeerState) (endpoints : List Text) (next : Map PeerState) (order : List Text)
    → Agrees old next
    → Agrees old (keep_states old endpoints next order).0
unfolding keep_states
keep_states-Agrees old [] next order a = a
keep_states-Agrees old (endpoint ∷ endpoints) next order a =
    elim (Bool-cases (is_some (get next endpoint))) [
      | inl seen ↦ rw (seen, keep_states) (keep_states-Agrees old endpoints next order a)
      | inr new ↦
          rw (new, keep_states)
            (keep_states-Agrees old endpoints
              (put next endpoint (or_fresh endpoint (get old endpoint))) (order ++ endpoint ∷ [])
              (λ e s h. ground (
                arith,
                a e s,
                h,
                text_eq_iff endpoint e,
                get-put next endpoint e (or_fresh endpoint (get old endpoint)),
              )))
    ]

-- An endpoint's new state takes no cover from another node ID.
pub Covers-put :
    (states : Map PeerState) {id : Text} (endpoint : Text) (t x : PeerState)
    → get states endpoint ≡ some t
    → t.node_id ≢ id
    → Covers states id
    → Covers (put states endpoint x) id
Covers-put states endpoint t x there apart (e, s, found, same, up) = (
  e,
  s,
  ground (arith, there, apart, found, same, get-put states endpoint e x, text_eq_iff endpoint e),
  same,
  up,
)

pub apart_ne : {a b : Text} → (a ≡ []) ⊎ (a ≢ b) → b ≢ [] → a ≢ b
apart_ne (inl empty) filled e = filled (sym e ∙ empty)
apart_ne (inr apart) filled e = apart e

-- A pull that goes through has the ID of a node that is not this one.
pub fetch_both-filled :
    (local_id : Text) (info : Fetched Info) (services : Fetched (List Service)) {i : Info}
    {l : List Service}
    → fetch_both local_id info services ≡ fetched (i, l)
    → (i.node_id ≢ []) × (i.node_id ≢ local_id)
unfolding fetch_both
fetch_both-filled local_id info services {i} h = (
  is_empty-ne-nil i.node_id (ground (arith, h)),
  ground (arith, h, text_eq_iff i.node_id local_id),
)
