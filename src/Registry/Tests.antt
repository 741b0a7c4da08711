-- ===== src/Registry/Tests.antt =====
-- The directory of internal/registry/registry.go on concrete services, and the theorems at them.
use corenet.Common.{
  ℕ, Text, bytes, pos, ◌≡◌, ◌≢◌, ◌↔◌, refl, true, List, [], ◌∷◌, none, some, get, plain_unicode,
  IsSorted, is_some, find_by, text_eq, if◌then◌else◌, text_lt, sort_by, insert_by, put, delete,
  arith, text_eq_iff, ◌⊎◌,
}
use mathlib.Core.Option
use corenet.Protocol.{Service, Conflict, source_config, source_runtime}
use corenet.Protocol.Names.{normalize_name, validate_name}
use corenet.Registry.{
  Registry, new, ok, err, conflict_configured, owned_by_docker, is_conflict, add, remove,
  set_config_services, set_docker, set_remote, conflict, conflicts, lookup, list, list_local,
  config_map, checked_map, conflict_maps, lookup_name,
}
use corenet.Registry.Invariant.{IsWellFormed}
use corenet.Registry.Preserved.{
  started, called, register, configure, discover, learn, Reachable-IsWellFormed,
}
use corenet.Registry.Lookup.{offer, Serves, lookup_iff}
use corenet.Registry.Listing.{by_name, list_agrees}
use corenet.Registry.Writes.{
  IsServable, registered, is_ok, add-ok_iff, add-err, lookup-add, remove-add,
}
use corenet.Registry.Latest.{latest, set_remote_lem}
use corenet.Registry.Conflicts.{latest_conflict, conflict_is_routed}
use corenet.Registry.Order.{order_independent}

-- What a run of the methods computes with.
abbrev service : List ℕ → List ℕ → ℕ → Service
service name address port = record { name = name; address = address; port = pos port; source = [] }

abbrev wiki : Service
wiki = service (bytes "Wiki.Core.") (bytes "10.0.0.2") 80

abbrev mail : Service
mail = service (bytes "mail.core") (bytes "10.0.0.3") 25

abbrev docs : Service
docs = service (bytes "docs.core") (bytes "172.17.0.2") 8080

abbrev blog : Service
blog = service (bytes "blog.core") (bytes "192.168.1.9") 80

abbrev claimed : Conflict
claimed = record { name = bytes "blog.core"; reason = bytes "claimed by 2 Docker containers" }

abbrev configured : Registry
configured = set_config_services plain_unicode (wiki ∷ []) new

abbrev node_b : Text
node_b = bytes "node-b"

-- A configured, a registered, a discovered and a learned service; the last is in conflict here.
abbrev pub demo : Registry
demo = set_remote plain_unicode node_b (blog ∷ []) (
    set_docker plain_unicode (docs ∷ blog ∷ []) (claimed ∷ [])
      (add plain_unicode mail configured).1)

-- The theorem at the calls that lead to `demo`.
Reachable-IsWellFormed_example : IsWellFormed demo
Reachable-IsWellFormed_example = Reachable-IsWellFormed plain_unicode (
    called
      (called (called (called started (configure (wiki ∷ []))) (register mail))
        (discover (docs ∷ blog ∷ []) (claimed ∷ [])))
      (learn node_b (blog ∷ [])))

registry : Unit {0}
unfolding set_remote set_docker set_config_services add remove conflict lookup list list_local
    normalize_name validate_name checked_map config_map conflict_maps get put conflicts latest
    latest_conflict find_by text_lt sort_by insert_by delete lookup_name
registry = tt

lookups :
    (Option.map (λ (s : Service). s.source) (lookup plain_unicode demo (bytes "WIKI.core"))
      ≡ some source_config)
    × (Option.map (λ (s : Service). s.source) (lookup plain_unicode demo (bytes "blog.core"))
        ≡ some node_b)
    × (lookup plain_unicode demo (bytes "none.core") ≡ none)
unfolding registry
lookups = (refl, refl, refl)

-- The configured name and Docker's are refused for registration and for removal.
refusals :
    ((add plain_unicode wiki demo).0 ≡ err (conflict_configured (bytes "wiki.core")))
    × ((remove plain_unicode (bytes "docs.core") demo).0
        ≡ err (owned_by_docker (bytes "docs.core")))
unfolding registry
refusals = (refl, refl)

-- "wiki.core.." loses one dot in the handler and the other in `Remove`.
two_dots : normalize_name plain_unicode (bytes "wiki.core..") ≢ bytes "wiki.core"
unfolding registry
two_dots e = cc e

list_agrees_example :
    IsSorted by_name (list demo)
    × ((name : Text)
        → find_by by_name (normalize_name plain_unicode name) (list demo)
          ≡ lookup plain_unicode demo name)
list_agrees_example = list_agrees plain_unicode demo Reachable-IsWellFormed_example

lookup_iff_example :
    (lookup plain_unicode demo (bytes "Wiki.core.")
      ≡ some (record wiki { name = bytes "wiki.core"; source = source_config }))
    ↔ Serves demo
        (normalize_name plain_unicode (bytes "Wiki.core."))
        (record wiki { name = bytes "wiki.core"; source = source_config })
lookup_iff_example =
    lookup_iff plain_unicode demo (bytes "Wiki.core.")
      (record wiki { name = bytes "wiki.core"; source = source_config })
      Reachable-IsWellFormed_example

add-ok_iff_example : (is_ok (add plain_unicode mail configured).0 ≡ true) ↔ (
    IsServable plain_unicode mail
    × (get configured.config (normalize_name plain_unicode mail.name) ≡ none)
    × (get configured.runtime (normalize_name plain_unicode mail.name) ≡ none))
add-ok_iff_example = add-ok_iff plain_unicode mail configured

add-err_example :
    ((add plain_unicode wiki demo).1 ≡ demo)
    × ((is_conflict (conflict_configured (bytes "wiki.core")) ≡ true)
        ↔ IsServable plain_unicode wiki)
add-err_example =
    add-err plain_unicode wiki demo (conflict_configured (bytes "wiki.core")) refusals.0

abbrev with_mail : Registry
with_mail = record configured {
  runtime = (mail.name, record mail { source = source_runtime }) ∷ [];
}

mail_added :
    add plain_unicode mail configured ≡ (ok (record mail { source = source_runtime }), with_mail)
unfolding registry
mail_added = refl

lookup-add_example :
    (record mail { source = source_runtime } ≡ registered plain_unicode mail)
    × ((name : Text)
        → lookup plain_unicode with_mail name ≡ (
            if text_eq mail.name (normalize_name plain_unicode name)
            then some (record mail { source = source_runtime })
            else lookup plain_unicode configured name))
lookup-add_example =
    lookup-add plain_unicode mail configured (record mail { source = source_runtime }) with_mail
      mail_added

remove-add_example : remove plain_unicode mail.name with_mail ≡ (ok tt, configured)
remove-add_example =
    remove-add plain_unicode mail configured (record mail { source = source_runtime }) with_mail
      mail_added

mail_is_there : is_some (get demo.runtime (normalize_name plain_unicode mail.name)) ≡ true
unfolding registry
mail_is_there = refl

set_remote_lem_example :
    ((j k : Text)
      → offer (set_remote plain_unicode node_b (blog ∷ []) configured) j k ≡ (
          if text_eq node_b j
          then latest plain_unicode node_b k (blog ∷ [])
          else offer configured j k))
    × ((name : Text)
        → (lookup plain_unicode (record configured { remote = [] }) name ≡ none)
          ⊎ (lookup plain_unicode (set_remote plain_unicode node_b (blog ∷ []) configured) name
              ≡ lookup plain_unicode (record configured { remote = [] }) name))
set_remote_lem_example = set_remote_lem plain_unicode node_b (blog ∷ []) configured

blog_in_conflict : conflict plain_unicode demo blog.name ≡ some claimed
unfolding registry
blog_in_conflict = refl

blog_offered :
    offer demo node_b (normalize_name plain_unicode blog.name)
    ≡ some (record blog { source = node_b })
unfolding registry
blog_offered = refl

conflict_is_routed_example : lookup plain_unicode demo blog.name ≢ none
conflict_is_routed_example =
    conflict_is_routed plain_unicode demo blog.name node_b claimed (record blog { source = node_b })
      blog_in_conflict blog_offered

abbrev one_order : Registry
one_order = set_config_services plain_unicode (mail ∷ docs ∷ []) new

abbrev other_order : Registry
other_order = set_config_services plain_unicode (docs ∷ mail ∷ []) new

same_config : (k : Text) → get one_order.config k ≡ get other_order.config k
unfolding registry
same_config k = ground (arith, text_eq_iff mail.name k, text_eq_iff docs.name k)

order_independent_example :
    ((name : Text) → lookup plain_unicode one_order name ≡ lookup plain_unicode other_order name)
    × (list one_order ≡ list other_order)
    × (list_local one_order ≡ list_local other_order)
order_independent_example =
    order_independent plain_unicode one_order other_order
      (Reachable-IsWellFormed plain_unicode (called started (configure (mail ∷ docs ∷ []))))
      (Reachable-IsWellFormed plain_unicode (called started (configure (docs ∷ mail ∷ []))))
      (unfold registry in
        record {
          runtime = λ k. refl;
          config = same_config;
          docker = λ k. refl;
          remote = λ id k. refl;
        })
