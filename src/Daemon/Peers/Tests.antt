-- ===== src/Daemon/Peers/Tests.antt =====
-- The puller of internal/daemon/peers.go over the registry, and the theorems at a concrete network.
use corenet.Common.{
  Text, bytes, pos, ◌≡◌, refl, true, false, List, [], ◌∷◌, some, get, put, plain_unicode, text_eq,
  if◌then◌else◌, delete,
}
use corenet.Protocol.{Service, Info}
use corenet.Protocol.Names.{normalize_name, validate_name}
use corenet.Registry.{Registry, new, set_remote, checked_map, is_unusable, count_remote}
use corenet.Registry.Lookup.{offer}
use corenet.Registry.Latest.{latest, set_remote_lem}
use corenet.Daemon.Store.{registry_store, registry_laws}
use corenet.Daemon.Peers.{
  fresh_state, Network, fetched, failed, Round, fetch_both, set_endpoints, new_peers, pull_all, run,
  nodes,
}
use corenet.Daemon.Peers.Coverage.{IsCovered}
use corenet.Daemon.Peers.Laws.{Event, pulled, configured, after}
use corenet.Daemon.Peers.Interleaving.{commit, finish, raced, stale_directory}

abbrev pub peer_b : Text
peer_b = bytes "b:7000"

abbrev pub peer_c : Text
peer_c = bytes "c:7000"

abbrev info_b : Info
info_b = record { version = bytes "0.2"; node_id = bytes "node-b"; node_name = []; services = 1 }

abbrev pub blog : Service
blog = record { name = bytes "blog.core"; address = bytes "10.0.0.9"; port = pos 80; source = [] }

-- Node b answers; every other endpoint refuses the connection.
abbrev pub round : Round (registry_store plain_unicode)
round = record {
  info = λ e. if text_eq e peer_b then fetched info_b else failed (bytes "refused");
  services = λ e. if text_eq e peer_b then fetched (blog ∷ []) else failed (bytes "refused");
  now = 100;
}

abbrev empty_network : Network (registry_store plain_unicode)
empty_network = record {
  store = new;
  peers = record { local_node_id = bytes "node-a"; interval = pos 30; states = []; order = [] };
  log = [];
}

empty_network-IsCovered :
    IsCovered (registry_store plain_unicode) (registry_laws plain_unicode) empty_network
unfolding get
empty_network-IsCovered = record { covered = λ id k s h. absurd (cc h) }

abbrev story : List (Event (registry_store plain_unicode))
story = configured (peer_b ∷ peer_c ∷ []) ∷ pulled round ∷ configured (peer_c ∷ []) ∷ []

puller : Unit {0}
unfolding run pull_all set_endpoints nodes set_remote checked_map get put count_remote after
    normalize_name validate_name is_unusable delete commit finish new_peers
puller = tt

-- Two nodes after one round: b is known with its service, and c is reported once.
one_round :
    nodes (registry_store plain_unicode) (
      run (registry_store plain_unicode) (round ∷ round ∷ []) (
        set_endpoints (registry_store plain_unicode) (peer_b ∷ peer_c ∷ peer_b ∷ []) empty_network))
    ≡ some (
        record {
          id = bytes "node-b";
          name = [];
          endpoint = peer_b;
          is_local = false;
          online = true;
          services = 1;
          last_seen = 100;
          error = [];
        }
        ∷ record {
          id = [];
          name = [];
          endpoint = peer_c;
          is_local = false;
          online = false;
          services = 0;
          last_seen = 0;
          error = bytes "refused";
        }
        ∷ [])
unfolding puller
one_round = refl

abbrev with_b : Network (registry_store plain_unicode)
with_b = set_endpoints (registry_store plain_unicode) (peer_b ∷ []) empty_network

b_answers :
    fetch_both (bytes "node-a") (fetched info_b) (fetched (blog ∷ [])) ≡ fetched (info_b, blog ∷ [])
unfolding fetch_both text_eq
b_answers = refl

blog_written :
    (r : Registry)
    → offer
        (set_remote plain_unicode (bytes "node-b") (blog ∷ []) r)
        (bytes "node-b")
        (bytes "blog.core")
      ≡ some (record blog { source = bytes "node-b" })
unfolding latest normalize_name validate_name is_unusable text_eq
blog_written r = (set_remote_lem plain_unicode (bytes "node-b") (blog ∷ []) r).0 _ _

b_is_configured : get with_b.peers.states peer_b ≡ some (fresh_state peer_b)
unfolding puller
b_is_configured = refl

stale_directory_example :
    (offer
        (run
          (registry_store plain_unicode)
          (round ∷ [])
          (raced (registry_store plain_unicode) peer_b 100 info_b (blog ∷ []) with_b)).store
        (bytes "node-b")
        (bytes "blog.core")
      ≡ some (record blog { source = bytes "node-b" }))
    × ((run
          (registry_store plain_unicode)
          (round ∷ [])
          (raced (registry_store plain_unicode) peer_b 100 info_b (blog ∷ []) with_b)).peers.states
        ≡ [])
    × ¬ (
        IsCovered (registry_store plain_unicode) (registry_laws plain_unicode) (
          run
            (registry_store plain_unicode)
            (round ∷ [])
            (raced (registry_store plain_unicode) peer_b 100 info_b (blog ∷ []) with_b)))
stale_directory_example =
    stale_directory (registry_store plain_unicode) (registry_laws plain_unicode) peer_b
      (bytes "blog.core") 100 info_b (blog ∷ []) with_b (fresh_state peer_b)
      (record blog { source = bytes "node-b" }) (round ∷ []) b_is_configured blog_written

abbrev with_both : Network (registry_store plain_unicode)
unfolding set_endpoints
with_both = set_endpoints (registry_store plain_unicode) (peer_b ∷ peer_c ∷ []) empty_network
