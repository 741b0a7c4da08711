-- ===== src/Daemon/Peers.antt =====
-- internal/daemon/peers.go: the puller that keeps the directories of the configured nodes up to date.
-- The store that it writes to is an interface. A `*peerState` is changed under the mutex only and no
-- pointer outlives it, so the states are values here. What the requests give is an argument, which
-- Peers/Requests makes from the HTTP responses.
pub mod Laws
pub mod Coverage
pub mod Interleaving
pub mod Report
pub mod Stored
pub mod Recovery
pub mod Requests
pub mod Tests
use corenet.Common.{
  bytes, ℕ, Text, ℤ, pos, leb_ℤ, Bool, true, false, not, ◌&&◌, ◌||◌, List, [], ◌∷◌, ◌++◌, Option,
  none, some, Map, get, put, is_some, is_empty, text_eq, if◌then◌else◌, length,
}
use corenet.Config.{default_pull_seconds, nanoseconds}
use corenet.Protocol.{Service, Info, Node}

-- `remoteStore`: the part of the registry that the puller writes to.
pub record RemoteStore : Type 1 where
  pub Store : Type 0
  pub set_remote : Text → List Service → Store → Store
  pub count_remote : Store → Text → ℕ

-- `peerState`; `last_seen` is none where the time is zero.
pub record PeerState : Type 0 where
  pub endpoint : Text
  pub node_id : Text
  pub node_name : Text
  pub online : Bool
  pub last_seen : Option ℕ
  pub last_err : Text

-- `Peers`, without its client, logger and mutex.
pub record Peers : Type 0 where
  pub local_node_id : Text
  pub interval : ℤ
  pub states : Map PeerState
  pub order : List Text

-- What a request to another node gave.
pub data Fetched {ℓ} (A : Type ℓ) : Type ℓ where
  fetched : A → Fetched A
  failed : Text → Fetched A

-- The lines that the puller logs.
pub data LogLine : Type 0 where
  reachable : Text → Text → ℕ → LogLine
  unreachable : Text → Text → LogLine

abbrev pub fresh_state : Text → PeerState
fresh_state endpoint = record {
  endpoint = endpoint;
  node_id = [];
  node_name = [];
  online = false;
  last_seen = none;
  last_err = [];
}

abbrev pub or_fresh : Text → Option PeerState → PeerState
or_fresh endpoint none = fresh_state endpoint
or_fresh endpoint (some existing) = existing

-- The first loop of `SetEndpoints`.
unfoldable pub keep_states :
    Map PeerState → List Text → Map PeerState → List Text → Map PeerState × List Text
keep_states old [] next order = (next, order)
keep_states old (endpoint ∷ endpoints) next order =
    let seen = is_some (get next endpoint) in
    keep_states old endpoints
      (if seen then next else put next endpoint (or_fresh endpoint (get old endpoint)))
      (if seen then order else order ++ endpoint ∷ [])

-- The message about a node's own ID. `%q` puts it in quotes; that it would also escape a quote, a
-- backslash or a control character in it is left out.
abbrev pub own_id_error : Text → Text
own_id_error id = bytes "node id " ++ (b'"' ∷ (id ++ (b'"' ∷ bytes " is this node's own id")))

-- The checks of `pull` on the answer to /v1/info.
unfoldable pub check_info : Text → Fetched Info → Fetched Info
check_info local_id (failed e) = failed e
check_info local_id (fetched info) =
    if is_empty info.node_id
    then failed (bytes "node reported no id")
    else if text_eq info.node_id local_id
    then failed (own_id_error info.node_id)
    else fetched info

-- What the two requests of `pull` give together. The second is made after the first succeeded.
unfoldable pub fetch_both :
    Text → Fetched Info → Fetched (List Service) → Fetched (Info × List Service)
unfolding check_info
fetch_both local_id info services = elim (check_info local_id info) [
  | failed e ↦ failed e
  | fetched i ↦ elim services [ failed e ↦ failed e | fetched l ↦ fetched (i, l) ]
]

-- The state of an endpoint after a successful pull.
abbrev pub seen_state : Info → ℕ → PeerState → PeerState
seen_state info now s = record s {
  node_id = info.node_id;
  node_name = info.node_name;
  online = true;
  last_seen = some now;
  last_err = [];
}

abbrev pub lost_state : Text → PeerState → PeerState
lost_state cause s = record s { online = false; last_err = cause }

module _ (S : RemoteStore) where
  open S use {Store, set_remote, count_remote}

  -- The puller with the store behind it and what it has logged.
  pub record Network : Type 0 where
    pub store : Store
    pub peers : Peers
    pub log : List LogLine

  -- The second loop of `SetEndpoints`, over the old states.
  unfoldable pub forget_dropped : Map PeerState → Map PeerState → Store → Store
  forget_dropped [] next st = st
  forget_dropped ((endpoint, s) ∷ old) next st = forget_dropped old next (
      if not (is_some (get next endpoint)) && not (is_empty s.node_id)
      then set_remote s.node_id [] st
      else st)

  -- `SetEndpoints`
  unfoldable pub set_endpoints : List Text → Network → Network
  unfolding keep_states forget_dropped
  set_endpoints endpoints n =
      let kept = keep_states n.peers.states endpoints [] [] in
      record n {
        store = forget_dropped n.peers.states kept.0 n.store;
        peers = record (n.peers) { states = kept.0; order = kept.1 };
      }

  -- `NewPeers`
  unfoldable pub new_peers : Store → Text → List Text → ℤ → Network
  unfolding set_endpoints
  new_peers st local_node_id endpoints interval = set_endpoints endpoints (record {
    store = st;
    peers = record {
      local_node_id = local_node_id;
      interval = if leb_ℤ interval (pos 0) then nanoseconds default_pull_seconds else interval;
      states = [];
      order = [];
    };
    log = [];
  })

  abbrev forget : Text → Store → Store
  forget id st = if is_empty id then st else set_remote id [] st

  abbrev mark_state : Text → Text → Network → Option PeerState → Network
  mark_state endpoint cause n none = n
  mark_state endpoint cause n (some s) = record {
    store = forget s.node_id n.store;
    peers = record (n.peers) { states = put n.peers.states endpoint (lost_state cause s) };
    log =
        if s.online || is_empty s.last_err then n.log ++ unreachable endpoint cause ∷ [] else n.log;
  }

  -- `markOffline`
  unfoldable pub mark_offline : Text → Text → Network → Network
  mark_offline endpoint cause n = mark_state endpoint cause n (get n.peers.states endpoint)

  -- The store after a successful pull: what `pull` does once it has released the mutex.
  unfoldable pub publish : Text → Text → List Service → Store → Store
  publish previous_id node_id services st = set_remote node_id services (
      if not (is_empty previous_id) && not (text_eq previous_id node_id)
      then set_remote previous_id [] st
      else st)

  abbrev pull_state : Text → ℕ → Info → List Service → Network → Option PeerState → Network
  pull_state endpoint now info services n none = n
  pull_state endpoint now info services n (some s) = record {
    store = publish s.node_id info.node_id services n.store;
    peers = record (n.peers) { states = put n.peers.states endpoint (seen_state info now s) };
    log =
        if s.online then n.log else n.log ++ reachable info.node_id endpoint (length services) ∷ [];
  }

  abbrev pull_result : Text → ℕ → Network → Fetched (Info × List Service) → Network
  pull_result endpoint now n (failed cause) = mark_offline endpoint cause n
  pull_result endpoint now n (fetched (info, services)) =
      pull_state endpoint now info services n (get n.peers.states endpoint)

  -- `pull`, where no reload comes between its parts.
  unfoldable pub pull : Text → ℕ → Fetched Info → Fetched (List Service) → Network → Network
  unfolding fetch_both mark_offline publish
  pull endpoint now info services n =
      pull_result endpoint now n (fetch_both n.peers.local_node_id info services)

  -- The other nodes during one round: what each answers, and the time.
  pub record Round : Type 0 where
    pub info : Text → Fetched Info
    pub services : Text → Fetched (List Service)
    pub now : ℕ

  unfoldable pub pull_each : Round → List Text → Network → Network
  unfolding pull
  pull_each round [] n = n
  pull_each round (endpoint ∷ endpoints) n =
      pull_each round endpoints
        (pull endpoint round.now (round.info endpoint) (round.services endpoint) n)

  -- `PullAll`
  unfoldable pub pull_all : Round → Network → Network
  unfolding pull_each
  pull_all round n = pull_each round n.peers.order n

  -- `Run`, for as many ticks as there are rounds until it is cancelled.
  unfoldable pub run : List Round → Network → Network
  unfolding pull_all
  run [] n = n
  run (round ∷ rounds) n = run rounds (pull_all round n)

  abbrev node_services : Store → Text → ℕ
  node_services st id = if is_empty id then 0 else count_remote st id

  abbrev seconds : Option ℕ → ℕ
  seconds none = 0
  seconds (some t) = t

  abbrev node_of : Store → PeerState → Node
  node_of st s = record {
    id = s.node_id;
    name = s.node_name;
    endpoint = s.endpoint;
    is_local = false;
    online = s.online;
    services = node_services st s.node_id;
    last_seen = seconds s.last_seen;
    error = s.last_err;
  }

  -- The loop of `Nodes`. `none` is the panic of a read through a nil `*peerState`.
  unfoldable pub nodes_of : Map PeerState → Store → List Text → Option (List Node)
  nodes_of states st [] = some []
  nodes_of states st (endpoint ∷ order) =
      let rest = nodes_of states st order in
      elim (get states endpoint) [
        | none ↦ none
        | some s ↦ elim rest [ none ↦ none | some ns ↦ some (node_of st s ∷ ns) ]
      ]

  -- `Nodes`
  unfoldable pub nodes : Network → Option (List Node)
  unfolding nodes_of
  nodes n = nodes_of n.peers.states n.store n.peers.order
