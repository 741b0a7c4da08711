-- ===== src/Daemon/Node/Tests.antt =====
-- Witnesses for the reload of a node.
use corenet.Common.{Text, List, bytes, pos, get, ◌≡◌, [], ◌∷◌, plain_unicode, ◌<|>◌, find_by}
use corenet.Protocol.Names.{normalize_name}
use corenet.Registry.{lookup}
use corenet.Registry.Listing.{by_name}
use corenet.Config.Loading.{loaded}
use corenet.Config.Tests.{with_services, written, blog, passes}
use corenet.Config.Checks.{IsValid}
use corenet.Config.Validated.{validate-IsValid}
use corenet.Daemon.Node.{Daemon, new_daemon, reload, registry_of}
use corenet.Discovery.Container.{Refusal}
use corenet.Discovery.Polling.{failure}
use corenet.Daemon.Api.{post_services, decoded}
use corenet.Daemon.Peers.Tests.{round, peer_b, peer_c}
use corenet.Daemon.Node.Lifetime.{Event, hup, pulled, asked, listed, after}
use corenet.Daemon.Node.Sound.{IsSound, after-IsSound}
use corenet.Protocol.{Node, Service}
use corenet.Config.{Config}
use corenet.Daemon.Node.Reloading.{IsKept, local, reload_lem}

abbrev node : Daemon plain_unicode
node = new_daemon plain_unicode (with_services [])

blog-IsValid : IsValid (with_services (blog ∷ []))
blog-IsValid =
    (validate-IsValid plain_unicode (with_services (written ∷ [])) (with_services (blog ∷ []))
      passes).0

reload_lem_example :
    IsKept (reload plain_unicode (loaded (with_services (blog ∷ []))) node).1.cfg node.cfg
    × ((name : Text)
        → lookup plain_unicode
            (local (
              registry_of plain_unicode
                (reload plain_unicode (loaded (with_services (blog ∷ []))) node).1))
            name
          ≡ (get (registry_of plain_unicode node).runtime (normalize_name plain_unicode name)
              <|> (find_by by_name (normalize_name plain_unicode name) (blog ∷ [])
                  <|> lookup plain_unicode
                      (record (local (registry_of plain_unicode node)) {
                        runtime = [];
                        config = [];
                      })
                      name)))
reload_lem_example = reload_lem plain_unicode (with_services (blog ∷ [])) node blog-IsValid

-- The node is started with one peer, hears from it, reloads a configuration with another, takes a
-- registration, and polls Docker in vain.
abbrev story : List (Event plain_unicode)
story =
    hup (loaded (record (with_services (blog ∷ [])) { nodes = peer_c ∷ peer_b ∷ [] }))
    ∷ pulled round
    ∷ asked 7 (post_services (decoded (record written { name = bytes "wiki.core" })))
    ∷ listed (failure (bytes "no socket"))
    ∷ []

abbrev wording : Refusal → Text
wording e = bytes "refused"

abbrev aged : Daemon plain_unicode
unfolding after
aged = after plain_unicode wording story (new_daemon plain_unicode (with_services []))

after-IsSound_example : IsSound plain_unicode (with_services []) aged
unfolding aged
after-IsSound_example = after-IsSound plain_unicode wording story (with_services [])

-- The configuration of a node with one peer.
abbrev with_peer : Config
with_peer = record (with_services []) { nodes = peer_b ∷ [] }

abbrev from_b : Service
from_b = record {
  name = bytes "blog.core";
  address = bytes "10.0.0.9";
  port = pos 80;
  source = bytes "node-b";
}
