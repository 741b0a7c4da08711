-- ===== src/Registry/Conflicts.antt =====
-- `SetDocker`, `Conflict` and `Conflicts` of internal/registry/registry.go: the names that Docker
-- cannot provide unambiguously.
use corenet.Common.{
  Text, ◌≡◌, ◌≢◌, refl, ap, not, ◌&&◌, List, [], ◌∷◌, Option, none, some, arith, Unicode, Map, get,
  put, delete, get-put, get-delete, text_eq, is_some, if◌then◌else◌, ◌<|>◌, Option-cases, inl, inr,
  find_by, IsSorted, IsKeyed, find_by-sort_by-values, sort_by-values-IsSorted, Entries,
}
use corenet.Protocol.{Service, Conflict, source_docker}
use corenet.Protocol.Names.{normalize_name, validate_name}
use corenet.Registry.{
  Registry, checked_map, conflict_maps, set_docker, conflict, conflicts, sorted_node_ids,
  lookup_name, lookup,
}
use corenet.Registry.Invariant.{IsConflict, IsWellFormed}
use corenet.Registry.Lookup.{offer, lookup-eq-none_iff}
use corenet.Registry.Latest.{latest, get-checked_map}

module _ (u : Unicode) where
  -- The last conflict of a list about the name `k`, where that is a name of the grammar.
  unfoldable pub latest_conflict : Text → List Conflict → Option Conflict
  latest_conflict k [] = none
  latest_conflict k (c ∷ cs) =
      let name = normalize_name u c.name in
      latest_conflict k cs
      <|> (if text_eq name k && not (is_some (validate_name u name))
          then some (record c { name = name })
          else none)

  get-conflict_maps :
      (cs : List Conflict) (next : Map Service) (conflicted : Map Conflict) (k : Text)
      → (get (conflict_maps u next conflicted cs).0 k
          ≡ (if is_some (latest_conflict k cs) then none else get next k))
        × (get (conflict_maps u next conflicted cs).1 k
            ≡ (latest_conflict k cs <|> get conflicted k))
  unfolding conflict_maps latest_conflict
  get-conflict_maps [] next conflicted k = (refl, refl)
  get-conflict_maps (c ∷ cs) next conflicted k =
      let name = normalize_name u c.name in
      elim (Option-cases (validate_name u name)) [
        | inl valid ↦
            let named : Conflict = record c { name = name } in
            let ih = get-conflict_maps cs (delete next name) (put conflicted name named) k in
            (
              ground (arith, valid, ih.0, get-delete next name k),
              ground (arith, valid, ih.1, get-put conflicted name k named),
            )
        | inr (e, bad) ↦
            let ih = get-conflict_maps cs next conflicted k in
            (ground (arith, bad, ih.0), ground (arith, bad, ih.1))
      ]

  -- After `SetDocker` the names in conflict are those of the list that are names of the grammar, each
  -- with the last reason given for it. Docker provides under any other name the last usable service
  -- of the list with that name, and under a name in conflict nothing.
  pub set_docker_lem :
      (services : List Service) (cs : List Conflict) (r : Registry) (name : Text)
      → (conflict u (set_docker u services cs r) name ≡ latest_conflict (normalize_name u name) cs)
        × (get (set_docker u services cs r).docker name ≡ (
            if is_some (latest_conflict name cs)
            then none
            else latest u source_docker name services))
  unfolding set_docker conflict get
  set_docker_lem services cs r name =
      let next = checked_map u source_docker [] services in
      let at_name = get-conflict_maps cs next [] name in
      let at_normal = get-conflict_maps cs next [] (normalize_name u name) in
      (
        ground (arith, at_normal.1),
        ground (arith, at_name.0, get-checked_map u source_docker services [] name),
      )

  -- In a well-formed registry a name in conflict is never served by a container: it resolves as if
  -- Docker provided nothing.
  pub lookup_of_conflict :
      (r : Registry) (name : Text) (c : Conflict)
      → IsWellFormed r
      → conflict u r name ≡ some c
      → lookup u r name ≡ lookup u (record r { docker = [] }) name
  unfolding conflict lookup lookup_name sorted_node_ids get
  lookup_of_conflict r name c h e =
      let out = h.unrouted (normalize_name u name) (ap is_some e) in ground (arith, out)

  -- A name in conflict is routed all the same where another node offers it.
  pub conflict_is_routed :
      (r : Registry) (name id : Text) (c : Conflict) (s : Service)
      → conflict u r name ≡ some c
      → offer r id (normalize_name u name) ≡ some s
      → lookup u r name ≢ none
  conflict_is_routed r name id c s e o gone =
      let nobody = ((lookup-eq-none_iff u r name).0 gone).3 in cc (o, nobody id)

Entries-IsKeyed : (m : Map Conflict) → Entries IsConflict m → IsKeyed (λ c. c.name) m
Entries-IsKeyed [] h = tt
Entries-IsKeyed ((k, c) ∷ m) h = (h.0.keyed, Entries-IsKeyed m h.1)

-- In a well-formed registry `Conflicts` lists each name in conflict once, sorted by name, and holds
-- under any name what `Conflict` reports for it.
pub conflicts_agree :
    (u : Unicode) (r : Registry)
    → IsWellFormed r
    → IsSorted (λ c. c.name) (conflicts r)
      × ((name : Text)
          → find_by (λ c. c.name) (normalize_name u name) (conflicts r) ≡ conflict u r name)
unfolding conflict conflicts
conflicts_agree u r h =
    let keyed = Entries-IsKeyed r.conflicts h.conflicts.entries in
    (
      sort_by-values-IsSorted (λ (c : Conflict). c.name) r.conflicts h.conflicts.distinct keyed,
      λ name. find_by-sort_by-values (λ (c : Conflict). c.name) r.conflicts _ keyed,
    )
