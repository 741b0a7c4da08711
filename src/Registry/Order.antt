-- ===== src/Registry/Order.antt =====
-- Go goes through a map in an order of the runtime's choosing. What the methods of
-- internal/registry/registry.go answer does not depend on it.
use corenet.Common.{
  Text, ◌≡◌, refl, sym, ◌∙◌, [], Unicode, get, IsSorted-unique, Option-cases, inl, inr,
}
use corenet.Protocol.{Service}
use corenet.Protocol.Names.{normalize_name}
use corenet.Registry.{Registry, lookup_name, lookup, list, list_local}
use corenet.Registry.Invariant.{IsWellFormed, forget-IsWellFormed}
use corenet.Registry.Lookup.{offer, Serves, lookup_name-Serves, Serves-lookup_name}
use corenet.Registry.Listing.{
  by_name, find_by-list, find_by-list_local, list-IsSorted, list_local-IsSorted,
}

-- The same entries in each tier, in whatever order they stand.
pub record SameEntries (r s : Registry) : Type 0 where
  pub runtime : (k : Text) → get r.runtime k ≡ get s.runtime k
  pub config : (k : Text) → get r.config k ≡ get s.config k
  pub docker : (k : Text) → get r.docker k ≡ get s.docker k
  pub remote : (id k : Text) → offer r id k ≡ offer s id k

SameEntries-symm : {r s : Registry} → SameEntries r s → SameEntries s r
SameEntries-symm e = record {
  runtime = λ k. sym (e.runtime k);
  config = λ k. sym (e.config k);
  docker = λ k. sym (e.docker k);
  remote = λ id k. sym (e.remote id k);
}

Serves-same :
    {r s : Registry} {name : Text} {a : Service}
    → SameEntries r s
    → Serves r name a
    → Serves s name a
Serves-same {name} e (Serves.by_runtime h) = Serves.by_runtime (sym (e.runtime name) ∙ h)
Serves-same {name} e (Serves.by_config h k) =
    Serves.by_config (sym (e.runtime name) ∙ h) (sym (e.config name) ∙ k)
Serves-same {name} e (Serves.by_docker h k l) =
    Serves.by_docker (sym (e.runtime name) ∙ h) (sym (e.config name) ∙ k) (sym (e.docker name) ∙ l)
Serves-same {name} e (Serves.by_node h k l id o below) =
    Serves.by_node (sym (e.runtime name) ∙ h) (sym (e.config name) ∙ k) (sym (e.docker name) ∙ l) id
      (sym (e.remote id name) ∙ o) (λ j lt. sym (e.remote j name) ∙ below j lt)

module _ (r s : Registry) (h : IsWellFormed r) (k : IsWellFormed s) (e : SameEntries r s) where
  lookup_name_same : (name : Text) → lookup_name r name ≡ lookup_name s name
  lookup_name_same name = elim (Option-cases (lookup_name r name)) [
    | inr (a, here) ↦
        here
        ∙ sym (Serves-lookup_name s name k a (Serves-same e (lookup_name-Serves r name h a here)))
    | inl gone ↦ elim (Option-cases (lookup_name s name)) [
      | inl gone' ↦ gone ∙ sym gone'
      | inr (a, here) ↦
          Serves-lookup_name r name h a
            (Serves-same (SameEntries-symm e) (lookup_name-Serves s name k a here))
          ∙ sym here
    ]
  ]

  list_same : list r ≡ list s
  list_same =
      IsSorted-unique by_name (list r) (list s) (list-IsSorted r h) (list-IsSorted s k)
        (λ name. find_by-list r h name ∙ lookup_name_same name ∙ sym (find_by-list s k name))

-- Two well-formed registries with the same entries, in whatever order their maps hold them, answer
-- `Lookup`, `List` and `ListLocal` alike.
pub order_independent :
    (u : Unicode) (r s : Registry)
    → IsWellFormed r
    → IsWellFormed s
    → SameEntries r s
    → ((name : Text) → lookup u r name ≡ lookup u s name)
      × (list r ≡ list s)
      × (list_local r ≡ list_local s)
unfolding lookup get
order_independent u r s h k e = (
  λ name. lookup_name_same r s h k e (normalize_name u name),
  list_same r s h k e,
  IsSorted-unique by_name (list_local r) (list_local s) (list_local-IsSorted r h)
      (list_local-IsSorted s k)
      (λ name.
        find_by-list_local r h name
        ∙ lookup_name_same (record r { remote = [] }) (record s { remote = [] })
            (forget-IsWellFormed h) (forget-IsWellFormed k)
            (record {
              runtime = e.runtime;
              config = e.config;
              docker = e.docker;
              remote = λ id n. refl;
            })
            name
        ∙ sym (find_by-list_local s k name)),
)
