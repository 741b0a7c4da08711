-- ===== src/Daemon/Peers/Requests.antt =====
-- The requests of internal/daemon/peers.go to the other nodes. Sending one and decoding JSON are arguments.
use corenet.Common.{
  ℕ, Text, bytes, ◌≡◌, refl, subst, sym, ap, ◌∙◌, Bool, true, false, not, ◌==◌, List, Option, some,
  HttpReply, ◌++◌, take, if◌then◌else◌, HttpAnswer, no_answer, replied, Bool-cases, inl, inr,
}
use corenet.Common
use corenet.Protocol.{Service, Info}
use corenet.Daemon.Peers.{
  RemoteStore, PeerState, Fetched, failed, fetch_both, Network, Round, pull_all,
}
use corenet.Daemon.Peers.Report.{IsListed, contains}
use corenet.Daemon.Peers.Recovery.{Tells, pull_all-state}

-- `get`, where `decode` is the decoding of at most 4 MiB of a response.
unfoldable pub get {ℓ} : {A : Type ℓ} → (Text → Fetched A) → Text → HttpAnswer → Fetched A
get decode path (no_answer e) = failed e
get decode path (replied r) =
    if r.code == 200
    then decode (take 4194304 r.body)
    else failed (path ++ (bytes " returned " ++ r.status))

-- The requests of `pull` to each endpoint in a round.
unfoldable pub round_of :
    (S : RemoteStore)
    → (Text → Fetched Info)
    → (Text → Fetched (List Service))
    → (Text → Text → HttpAnswer)
    → ℕ
    → Round S
unfolding get
round_of S decode_info decode_services send now = record {
  info = λ e. get decode_info (bytes "/v1/info") (send e (bytes "/v1/info"));
  services = λ e. get decode_services (bytes "/v1/services") (send e (bytes "/v1/services"));
  now = now;
}

-- A configured node that answers the first request with another code than 200 is offline after the round, and
-- its error names the path and the status.
pub pull_all-refused :
    (S : RemoteStore) (decode_info : Text → Fetched Info)
    (decode_services : Text → Fetched (List Service)) (send : Text → Text → HttpAnswer) (now : ℕ)
    (n : Network S) (e : Text) (r : HttpReply)
    → IsListed n.peers
    → contains n.peers.order e ≡ true
    → send e (bytes "/v1/info") ≡ replied r
    → (r.code == 200) ≡ false
    → (s : PeerState) × (Common.get
          (pull_all S (round_of S decode_info decode_services send now) n).peers.states
          e
        ≡ some s)
      × (s.online ≡ false)
      × (s.last_err ≡ bytes "/v1/info returned " ++ r.status)
unfolding round_of fetch_both
pull_all-refused S decode_info decode_services send now n e r listed there sent code =
    let round = round_of S decode_info decode_services send now in
    let unanswered : get decode_info (bytes "/v1/info") (send e (bytes "/v1/info"))
        ≡ failed (bytes "/v1/info returned " ++ r.status) =
      rw (sent, code, get) refl in
    let (s, known, told) = pull_all-state S round n e listed there in
    let state : Tells now (failed (bytes "/v1/info returned " ++ r.status)) s =
      subst (λ f. Tells now f s)
        (ap (λ f. fetch_both n.peers.local_node_id f (round.services e)) unanswered) told in
    (s, known, state.0, state.1)
