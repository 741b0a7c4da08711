-- ===== src/Registry.antt =====
-- internal/registry/registry.go: the directory of the services that a node knows. Each method is a
-- function of the registry's state, run whole under its mutex; a method that only reads returns its
-- answer alone. A map's entries stand in the order that a `range` loop happens to take.
pub mod Invariant
pub mod Preserved
pub mod Lookup
pub mod Listing
pub mod Writes
pub mod Latest
pub mod Conflicts
pub mod Order
pub mod Tests
use corenet.Common.{
  ℕ, Text, ℤ, pos, leb_ℤ, Bool, true, false, not, ◌&&◌, ◌||◌, List, [], ◌∷◌, map, reverse, Option,
  none, some, Unicode, Map, get, put, delete, put_all, values, keys, length, sort_by, is_some,
  is_empty, if◌then◌else◌, ◌<|>◌,
}
use corenet.Protocol.{Service, Conflict, source_config, source_runtime, source_docker}
use corenet.Protocol.Names.{NameError, normalize_name, validate_name}

-- `remote` goes from a node's ID to its services by name.
pub record Registry : Type 0 where
  pub config : Map Service
  pub runtime : Map Service
  pub docker : Map Service
  pub remote : Map (Map Service)
  pub conflicts : Map Conflict

-- `New`
abbrev pub new : Registry
new = record { config = []; runtime = []; docker = []; remote = []; conflicts = [] }

-- What the methods report. `ErrConflict` is wrapped by the first two of `add`'s refusals on a known
-- name, and `ErrNotFound` by the last.
pub data RegistryError : Type 0 where
  bad_name : NameError → RegistryError
  no_address : Text → RegistryError
  invalid_port : Text → ℤ → RegistryError
  conflict_configured : Text → RegistryError
  conflict_registered : Text → RegistryError
  owned_by_config : Text → RegistryError
  owned_by_docker : Text → RegistryError
  unknown_service : Text → RegistryError

-- `errors.Is(err, ErrConflict)`
abbrev pub is_conflict : RegistryError → Bool
is_conflict (conflict_configured n) = true
is_conflict (conflict_registered n) = true
is_conflict _ = false

-- `errors.Is(err, ErrNotFound)`
abbrev pub is_not_found : RegistryError → Bool
is_not_found (unknown_service n) = true
is_not_found _ = false

pub data Result {ℓ} (A : Type ℓ) : Type ℓ where
  ok : A → Result A
  err : RegistryError → Result A

-- `svc.Port < 1 || svc.Port > 65535`
unfoldable pub bad_port : ℤ → Bool
bad_port p = not (leb_ℤ (pos 1) p) || not (leb_ℤ p (pos 65535))

-- `remote[nodeID]`, the empty map where the node is not known.
abbrev pub directory_of : Option (Map Service) → Map Service
directory_of none = []
directory_of (some m) = m

module _ (u : Unicode) where
  -- The loop of `SetConfigServices`.
  unfoldable pub config_map : Map Service → List Service → Map Service
  config_map next [] = next
  config_map next (svc ∷ services) =
      let name = normalize_name u svc.name in
      config_map (put next name (record svc { name = name; source = source_config })) services

  -- `SetConfigServices`
  unfoldable pub set_config_services : List Service → Registry → Registry
  set_config_services services r = record r { config = config_map [] services }

  -- The guards of `Add`, in order, on a service whose name is normalized already.
  unfoldable pub add_refusal : Service → Registry → Option RegistryError
  unfolding bad_port
  add_refusal svc r = elim (validate_name u svc.name) [
    | some e ↦ some (bad_name e)
    | none ↦
        if is_empty svc.address
        then some (no_address svc.name)
        else if bad_port svc.port
        then some (invalid_port svc.name svc.port)
        else if is_some (get r.config svc.name)
        then some (conflict_configured svc.name)
        else if is_some (get r.runtime svc.name)
        then some (conflict_registered svc.name)
        else none
  ]

  abbrev add_checked : Service → Registry → Option RegistryError → Result Service × Registry
  add_checked svc r (some e) = (err e, r)
  add_checked svc r none = (ok svc, record r { runtime = put r.runtime svc.name svc })

  -- `Add`
  unfoldable pub add : Service → Registry → Result Service × Registry
  unfolding add_refusal
  add svc r =
      let named = record svc { name = normalize_name u svc.name } in
      add_checked (record named { source = source_runtime }) r (add_refusal named r)

  -- `Remove`, on a normalized name.
  abbrev remove_normalized : Text → Registry → Result (Unit {0}) × Registry
  remove_normalized name r =
      if is_some (get r.runtime name)
      then (ok tt, record r { runtime = delete r.runtime name })
      else if is_some (get r.config name)
      then (err (owned_by_config name), r)
      else if is_some (get r.docker name)
      then (err (owned_by_docker name), r)
      else (err (unknown_service name), r)

  -- `Remove`
  unfoldable pub remove : Text → Registry → Result (Unit {0}) × Registry
  remove name r = remove_normalized (normalize_name u name) r

  -- The guard of the loops over services that another program describes.
  unfoldable pub is_unusable : Service → Bool
  unfolding bad_port
  is_unusable svc = is_some (validate_name u svc.name) || is_empty svc.address || bad_port svc.port

  -- The loop of `SetRemote` and the first of `SetDocker`, which differ in the source.
  unfoldable pub checked_map : Text → Map Service → List Service → Map Service
  unfolding is_unusable
  checked_map source next [] = next
  checked_map source next (svc ∷ services) =
      let named = record svc { name = normalize_name u svc.name } in
      checked_map source
        (if is_unusable named then next else put next named.name (record named { source = source }))
        services

  -- `SetRemote`
  unfoldable pub set_remote : Text → List Service → Registry → Registry
  set_remote node_id services r =
      let next = checked_map node_id [] services in
      if is_empty next
      then record r { remote = delete r.remote node_id }
      else record r { remote = put r.remote node_id next }

  -- The second loop of `SetDocker`, over its two maps.
  unfoldable pub conflict_maps :
      Map Service → Map Conflict → List Conflict → Map Service × Map Conflict
  conflict_maps next conflicted [] = (next, conflicted)
  conflict_maps next conflicted (c ∷ cs) =
      let named = record c { name = normalize_name u c.name } in
      let refused = is_some (validate_name u named.name) in
      conflict_maps (if refused then next else delete next named.name)
        (if refused then conflicted else put conflicted named.name named) cs

  -- `SetDocker`
  unfoldable pub set_docker : List Service → List Conflict → Registry → Registry
  set_docker services conflicts r =
      let maps = conflict_maps (checked_map source_docker [] services) [] conflicts in
      record r { docker = maps.0; conflicts = maps.1 }

  -- `Conflict`
  unfoldable pub conflict : Registry → Text → Option Conflict
  conflict r name = get r.conflicts (normalize_name u name)

-- `Conflicts`
unfoldable pub conflicts : Registry → List Conflict
conflicts r = sort_by (λ c. c.name) (values r.conflicts)

-- `sortedNodeIDs`
unfoldable pub sorted_node_ids : Registry → List Text
sorted_node_ids r = sort_by (λ id. id) (keys r.remote)

-- The last loop of `Lookup`, over the sorted node IDs.
unfoldable pub lookup_remote : Map (Map Service) → List Text → Text → Option Service
lookup_remote remote [] name = none
lookup_remote remote (id ∷ ids) name =
    get (directory_of (get remote id)) name <|> lookup_remote remote ids name

-- `Lookup`, on a normalized name.
unfoldable pub lookup_name : Registry → Text → Option Service
unfolding lookup_remote sorted_node_ids
lookup_name r name =
    get r.runtime name
    <|> get r.config name
    <|> get r.docker name
    <|> lookup_remote r.remote (sorted_node_ids r) name

unfoldable pub lookup : Unicode → Registry → Text → Option Service
lookup u r name = lookup_name r (normalize_name u name)

-- The first loop of `List`, over the reversed node IDs.
unfoldable pub merge_remote : Map Service → Map (Map Service) → List Text → Map Service
merge_remote merged remote [] = merged
merge_remote merged remote (id ∷ ids) =
    merge_remote (put_all merged (directory_of (get remote id))) remote ids

-- The three loops that `List` and `ListLocal` share.
unfoldable pub merge_local : Map Service → Registry → Map Service
merge_local merged r = put_all (put_all (put_all merged r.docker) r.config) r.runtime

-- `List`
unfoldable pub list : Registry → List Service
unfolding merge_remote merge_local
list r =
    sort_by (λ s. s.name)
      (values (merge_local (merge_remote [] r.remote (reverse (sorted_node_ids r))) r))

-- `ListLocal`
unfoldable pub list_local : Registry → List Service
unfolding merge_local
list_local r = sort_by (λ s. s.name) (values (merge_local [] r))

-- `CountRemote`
unfoldable pub count_remote : Registry → Text → ℕ
count_remote r node_id = length (directory_of (get r.remote node_id))
