-- ===== src/Registry/Lookup.antt =====
-- Who serves a name: `Lookup` of internal/registry/registry.go against its order of precedence.
use corenet.Common.{
  itself, keys-IsSorted, find_by-sorted_keys, Above-lt, present_cases, Text, ◌≡◌, ◌↔◌, refl, ap,
  ◌∙◌, true, List, [], ◌∷◌, Option, none, some, arith, get, text_eq, text_lt, text_eq_iff, find_by,
  IsSorted, is_some, Bool-cases, Option-cases, inl, inr, find_by_smaller, Unicode,
}
use corenet.Protocol.{Service}
use corenet.Protocol.Names.{normalize_name}
use corenet.Registry.{Registry, directory_of, sorted_node_ids, lookup_remote, lookup_name, lookup}
use corenet.Registry.Invariant.{IsWellFormed}

-- What a node offers under a name.
abbrev pub offer : Registry → Text → Text → Option Service
offer r id name = get (directory_of (get r.remote id)) name

-- The service that must serve a name, by the documented precedence: runtime, then configuration,
-- then Docker, then the node with the lowest ID among those that offer the name.
pub data Serves (r : Registry) (name : Text) (s : Service) : Type 0 where
  by_runtime : get r.runtime name ≡ some s → Serves r name s
  by_config : get r.runtime name ≡ none → get r.config name ≡ some s → Serves r name s
  by_docker :
      get r.runtime name ≡ none
      → get r.config name ≡ none
      → get r.docker name ≡ some s
      → Serves r name s
  by_node :
      get r.runtime name ≡ none
      → get r.config name ≡ none
      → get r.docker name ≡ none
      → (id : Text) → offer r id name ≡ some s
      → ((j : Text) → text_lt j id ≡ true → offer r j name ≡ none)
      → Serves r name s

module _ (r : Registry) (name : Text) where
  -- What the loop over sorted IDs returns is the lowest node's offer.
  lowest :
      (ids : List Text) {s : Service}
      → IsSorted itself ids
      → lookup_remote r.remote ids name ≡ some s
      → (id : Text) × (offer r id name ≡ some s)
        × ((j : Text)
            → text_lt j id ≡ true
            → is_some (find_by itself j ids) ≡ true
            → offer r j name ≡ none)
  unfolding lookup_remote
  lowest [] o e = absurd (cc e)
  lowest (h ∷ ids) {s} o e = elim (Option-cases (offer r h name)) [
    | inr (a, first) ↦ (
      h,
      ground (arith, e, first),
      λ j lt found. absurd (cc (found, ap is_some (find_by_smaller itself j h ids lt o.0))),
    )
    | inl without ↦
        let (id, offers, below) = lowest ids o.1 (ground (arith, e, without)) in
        (
          id,
          offers,
          λ j lt found. elim (present_cases h j ids found) [
            | inl same ↦ rw (← same) without
            | inr later ↦ below j lt later
          ],
        )
  ]

  first_offer :
      (ids : List Text) (id : Text) {s : Service}
      → IsSorted itself ids
      → is_some (find_by itself id ids) ≡ true
      → offer r id name ≡ some s
      → ((j : Text) → text_lt j id ≡ true → offer r j name ≡ none)
      → lookup_remote r.remote ids name ≡ some s
  unfolding lookup_remote find_by
  first_offer [] id o found e below = absurd (cc found)
  first_offer (h ∷ ids) id o found e below = elim (Bool-cases (text_eq h id)) [
    | inl same ↦ let same : h ≡ id = (text_eq_iff h id).0 same in rw same (rw e)
    | inr other ↦
        let later : is_some (find_by itself id ids) ≡ true = ground (arith, found, other) in
        rw (below h (Above-lt h id ids o.0 later)) (first_offer ids id o.1 later e below)
  ]

  no_offer :
      (ids : List Text)
      → lookup_remote r.remote ids name ≡ none
      → (j : Text) → is_some (find_by itself j ids) ≡ true
      → offer r j name ≡ none
  unfolding lookup_remote find_by
  no_offer [] e j found = absurd (cc found)
  no_offer (h ∷ ids) e j found = elim (present_cases h j ids found) [
    | inl same ↦ rw (← same) (ground (arith, e))
    | inr later ↦ no_offer ids (ground (arith, e)) j later
  ]

  no_offer_found :
      (ids : List Text)
      → ((j : Text) → offer r j name ≡ none)
      → lookup_remote r.remote ids name ≡ none
  unfolding lookup_remote
  no_offer_found [] f = refl
  no_offer_found (h ∷ ids) f = rw (f h) (no_offer_found ids f)

  -- A node that is not known offers nothing.
  offer_unknown :
      (j : Text) → (is_some (get r.remote j) ≡ true → offer r j name ≡ none) → offer r j name ≡ none
  unfolding get
  offer_unknown j f = elim (Option-cases (get r.remote j)) [
    | inl gone ↦ rw gone
    | inr (m, there) ↦ f (ap is_some there)
  ]

  in_ids : (j : Text) → is_some (find_by itself j (sorted_node_ids r)) ≡ is_some (get r.remote j)
  unfolding sorted_node_ids
  in_ids j = find_by-sorted_keys r.remote j

  pub lookup_name-Serves :
      IsWellFormed r → (s : Service) → lookup_name r name ≡ some s → Serves r name s
  unfolding lookup_name sorted_node_ids
  lookup_name-Serves h s e = elim (Option-cases (get r.runtime name)) [
    | inr (a, runtime) ↦ Serves.by_runtime (ground (arith, e, runtime))
    | inl no_runtime ↦ elim (Option-cases (get r.config name)) [
      | inr (a, config) ↦ Serves.by_config no_runtime (ground (arith, e, config))
      | inl no_config ↦ elim (Option-cases (get r.docker name)) [
        | inr (a, docker) ↦ Serves.by_docker no_runtime no_config (ground (arith, e, docker))
        | inl no_docker ↦
            let (id, offers, below) =
              lowest (sorted_node_ids r) (keys-IsSorted r.remote h.remote.distinct)
                (ground (arith, e)) in
            Serves.by_node no_runtime no_config no_docker id offers
              (λ j lt. offer_unknown j (λ known. below j lt (in_ids j ∙ known)))
      ]
    ]
  ]

  known_of_offer :
      (id : Text) (s : Service) → offer r id name ≡ some s → is_some (get r.remote id) ≡ true
  unfolding get
  known_of_offer id s e = elim (Option-cases (get r.remote id)) [
    | inl gone ↦ absurd (cc (rw gone at e))
    | inr (m, there) ↦ ap is_some there
  ]

  pub Serves-lookup_name :
      IsWellFormed r → (s : Service) → Serves r name s → lookup_name r name ≡ some s
  unfolding lookup_name sorted_node_ids
  Serves-lookup_name h s (Serves.by_runtime a) = rw a
  Serves-lookup_name h s (Serves.by_config a b) = rw (a, b)
  Serves-lookup_name h s (Serves.by_docker a b c) = rw (a, b, c)
  Serves-lookup_name h s (Serves.by_node a b c id offers below) =
      rw (a, b, c)
        (first_offer (sorted_node_ids r) id (keys-IsSorted r.remote h.remote.distinct)
          (in_ids id ∙ known_of_offer id s offers) offers below)

-- In a well-formed registry `Lookup` returns a service for a name exactly when that service has
-- precedence for the normalized name: runtime, then configuration, then Docker, then the offer of
-- the node with the lowest ID among the nodes that offer the name.
pub lookup_iff :
    (u : Unicode) (r : Registry) (name : Text) (s : Service)
    → IsWellFormed r
    → (lookup u r name ≡ some s) ↔ Serves r (normalize_name u name) s
unfolding lookup
lookup_iff u r name s h = (
  lookup_name-Serves r (normalize_name u name) h s,
  Serves-lookup_name r (normalize_name u name) h s,
)

-- `Lookup` finds nothing exactly when no tier and no node has the normalized name.
pub lookup-eq-none_iff :
    (u : Unicode) (r : Registry) (name : Text)
    → (lookup u r name ≡ none) ↔ (
        (get r.runtime (normalize_name u name) ≡ none)
        × (get r.config (normalize_name u name) ≡ none)
        × (get r.docker (normalize_name u name) ≡ none)
        × ((id : Text) → offer r id (normalize_name u name) ≡ none))
unfolding lookup lookup_name sorted_node_ids
lookup-eq-none_iff u r name =
    let n = normalize_name u name in
    (
      λ e. (
        ground (arith, e),
        ground (arith, e),
        ground (arith, e),
        λ id. offer_unknown r n id (λ known.
            no_offer r n (sorted_node_ids r) (ground (arith, e)) id
              (find_by-sorted_keys r.remote id ∙ known)),
      ),
      λ (a, b, c, f). rw (a, b, c) (no_offer_found r n (sorted_node_ids r) f),
    )
