-- ===== src/Daemon/Api/Tests.antt =====
-- Witnesses for the HTTP API.
use corenet.Common.{
  bytes, pos, ◌≡◌, ◌↔◌, refl, [], ◌∷◌, none, some, plain_unicode, is_some, subst, if◌then◌else◌,
  find_by, sort_by, put_all, insert_by, get, put, ◌⊎◌,
}
use corenet.Protocol.{Service, version, source_runtime}
use corenet.Protocol.Names.{normalize_name, validate_name}
use corenet.Protocol.Grammar.{IsCoreName, validate_name_iff}
use corenet.Registry.{new, lookup, conflict, list_local}
use corenet.Registry.Invariant.{IsWellFormed, new-IsWellFormed}
use corenet.Registry.Listing.{by_name}
use corenet.Daemon.Api.{
  Api, Response, decoded, created, no_content, service_body, get_resolve, post_services,
  delete_service, get_services, control, peer, serve, handle_resolve, registered,
}
use corenet.Daemon.Api.Resolving.{status_of, handle_resolve_lem}
use corenet.Daemon.Api.Serving.{serve_lem, post-resolve-delete, listed}

abbrev api : Api
api = record {
  dir = new;
  status = λ r. record {
    version = version;
    node_id = bytes "node-a";
    node_name = [];
    uptime = 5;
    listeners = record { dns = []; http = []; peer = []; control = [] };
    services = 0;
    nodes = 1;
  };
  info = λ r. record { version = version; node_id = bytes "node-a"; node_name = []; services = 0 };
  nodes = λ r. [];
  log = [];
}

abbrev sent : Service
sent = record { name = bytes "Wiki.core"; address = bytes "10.0.0.5"; port = pos 80; source = [] }

abbrev wiki : Service
wiki = record sent { name = bytes "wiki.core"; source = source_runtime }

abbrev after_post : Api
after_post = record api {
  dir = record new { runtime = (bytes "wiki.core", wiki) ∷ [] };
  log = registered (bytes "wiki.core") (bytes "10.0.0.5:80") ∷ [];
}

post_works : control plain_unicode (post_services (decoded sent)) api ≡ (created wiki, after_post)
unfolding control normalize_name validate_name get put
post_works = refl

wiki_valid : validate_name plain_unicode (bytes "wiki.core") ≡ none
unfolding validate_name
wiki_valid = refl

wiki_normal : normalize_name plain_unicode (bytes "wiki.core") ≡ bytes "wiki.core"
unfolding normalize_name
wiki_normal = refl

wiki-IsCoreName : IsCoreName (normalize_name plain_unicode (bytes "wiki.core"))
wiki-IsCoreName =
    rw wiki_normal ((validate_name_iff plain_unicode (bytes "wiki.core")).0 wiki_valid)

handle_resolve_lem_example :
    ((s : Service)
      → (handle_resolve plain_unicode (bytes "wiki.core") after_post.dir ≡ service_body s) ↔ (
          IsCoreName (normalize_name plain_unicode (bytes "wiki.core"))
          × (lookup plain_unicode after_post.dir (bytes "wiki.core") ≡ some s)))
    × ((status_of (handle_resolve plain_unicode (bytes "wiki.core") after_post.dir) ≡ 400)
        ↔ (¬ IsCoreName (normalize_name plain_unicode (bytes "wiki.core"))))
    × ((status_of (handle_resolve plain_unicode (bytes "wiki.core") after_post.dir) ≡ 400)
        ⊎ ((s : Service) × (lookup plain_unicode after_post.dir (bytes "wiki.core") ≡ some s))
        ⊎ (status_of (handle_resolve plain_unicode (bytes "wiki.core") after_post.dir) ≡ (
            if is_some (conflict plain_unicode after_post.dir (bytes "wiki.core"))
            then 409
            else 404)))
handle_resolve_lem_example = handle_resolve_lem plain_unicode (bytes "wiki.core") after_post.dir

wiki_respelled : normalize_name plain_unicode (bytes "WIKI.core.") ≡ bytes "wiki.core"
unfolding normalize_name
wiki_respelled = refl

post-resolve-delete_example :
    ((control plain_unicode (get_resolve (bytes "WIKI.core.")) after_post).0 ≡ service_body wiki)
    × ((peer plain_unicode (get_resolve (bytes "WIKI.core.")) after_post).0 ≡ service_body wiki)
    × ((control plain_unicode (delete_service (bytes "wiki.core")) after_post).0 ≡ no_content)
    × ((control plain_unicode (delete_service (bytes "wiki.core")) after_post).1.dir ≡ new)
post-resolve-delete_example =
    post-resolve-delete plain_unicode sent wiki api after_post (bytes "WIKI.core.") post_works
      wiki_respelled

after_post-IsWellFormed : IsWellFormed after_post.dir
unfolding serve
after_post-IsWellFormed =
    subst (λ (p : Response × Api). IsWellFormed p.1.dir) post_works
      (serve_lem plain_unicode (post_services (decoded sent) ∷ []) api new-IsWellFormed).0

wiki-listed :
    find_by by_name
      (normalize_name plain_unicode (bytes "wiki.core"))
      (listed plain_unicode (peer plain_unicode get_services after_post).0)
    ≡ some wiki
unfolding peer list_local find_by normalize_name put sort_by put_all insert_by
wiki-listed = refl
