-- ===== src/Registry/Latest.antt =====
-- `SetRemote` of internal/registry/registry.go, and what the loops over services that another
-- program describes keep: under each name the last usable service of the list.
use corenet.Common.{
  Text, ◌≡◌, refl, ◌∙◌, Bool, true, not, ◌&&◌, List, [], ◌∷◌, Option, none, some, arith, Unicode,
  Map, get, put, get-put, get-delete, text_eq, is_empty, if◌then◌else◌, ◌<|>◌, Bool-cases, inl, inr,
  sort_by, ◌⊎◌, Option-cases, sym,
}
use corenet.Protocol.{Service}
use corenet.Protocol.Names.{normalize_name}
use corenet.Registry.{
  Registry, is_unusable, checked_map, set_remote, sorted_node_ids, lookup_name, lookup,
}
use corenet.Registry.Lookup.{offer}

module _ (u : Unicode) where
  -- A service as the registry stores it.
  abbrev pub stored : Text → Service → Service
  stored source svc = record svc { name = normalize_name u svc.name; source = source }

  abbrev pub names : Text → Service → Bool
  names k svc =
      text_eq (normalize_name u svc.name) k
      && not (is_unusable u (record svc { name = normalize_name u svc.name }))

  -- The last usable service of a list that has the name `k`.
  unfoldable pub latest : Text → Text → List Service → Option Service
  latest source k [] = none
  latest source k (svc ∷ services) =
      latest source k services <|> (if names k svc then some (stored source svc) else none)

  pub get-checked_map :
      (source : Text) (services : List Service) (next : Map Service) (k : Text)
      → get (checked_map u source next services) k ≡ (latest source k services <|> get next k)
  unfolding checked_map latest
  get-checked_map source [] next k = refl
  get-checked_map source (svc ∷ services) next k =
      let named : Service = record svc { name = normalize_name u svc.name } in
      elim (Bool-cases (is_unusable u named)) [
        | inl bad ↦ rw bad (ground (arith, get-checked_map source services next k))
        | inr good ↦ rw good (
            ground (
              arith,
              get-checked_map source services (put next named.name (stored source svc)) k,
              get-put next named.name k (stored source svc),
            ))
      ]

  get-nil-of_empty : (m : Map Service) (k : Text) → is_empty m ≡ true → get m k ≡ none
  unfolding get
  get-nil-of_empty [] k h = refl
  get-nil-of_empty (x ∷ m) k h = cc h

  offers :
      (id : Text) (services : List Service) (r : Registry) (j k : Text)
      → offer (set_remote u id services r) j k
        ≡ (if text_eq id j then latest id k services else offer r j k)
  unfolding set_remote get
  offers id services r j k =
      let next = checked_map u id [] services in
      let kept : get next k ≡ latest id k services =
        get-checked_map id services [] k ∙ or-none (latest id k services) in
      elim (Bool-cases (is_empty next)) [
        | inl gone ↦
            rw (gone, get-delete r.remote id j) (ground (arith, kept, get-nil-of_empty next k gone))
        | inr more ↦ rw (more, get-put r.remote id j next) (ground (arith, kept))
      ]
    where
      or-none : (o : Option Service) → (o <|> none) ≡ o
      or-none none = refl
      or-none (some s) = refl

  -- The local tiers come before what other nodes offer.
  keeps_local :
      (id : Text) (services : List Service) (r : Registry) (name : Text) (s : Service)
      → lookup u (record r { remote = [] }) name ≡ some s
      → lookup u (set_remote u id services r) name ≡ some s
  unfolding set_remote lookup lookup_name sorted_node_ids sort_by
  keeps_local id services r name s h = elim (Bool-cases (is_empty (checked_map u id [] services))) [
    | inl gone ↦ rw gone (ground (arith, h))
    | inr more ↦ rw more (ground (arith, h))
  ]

  -- After `SetRemote` the node offers under each name the last usable service of the list with that
  -- name, marked with the node's ID, and nothing else; the other nodes offer what they did; and every
  -- name that this node serves itself resolves as it did.
  pub set_remote_lem :
      (id : Text) (services : List Service) (r : Registry)
      → ((j k : Text)
          → offer (set_remote u id services r) j k
            ≡ (if text_eq id j then latest id k services else offer r j k))
        × ((name : Text)
            → (lookup u (record r { remote = [] }) name ≡ none)
              ⊎ (lookup u (set_remote u id services r) name
                  ≡ lookup u (record r { remote = [] }) name))
  set_remote_lem id services r = (
    offers id services r,
    λ name. elim (Option-cases (lookup u (record r { remote = [] }) name)) [
      | inl unknown ↦ inl unknown
      | inr (s, known) ↦ inr (keeps_local id services r name s known ∙ sym known)
    ],
  )
