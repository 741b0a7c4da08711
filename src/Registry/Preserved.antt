-- ===== src/Registry/Preserved.antt =====
-- Every method of internal/registry/registry.go keeps the registry well-formed.
use corenet.Common.{
  Text, ◌≡◌, ◌≢◌, refl, subst, false, List, [], ◌∷◌, none, arith, Unicode, Map, get, put, delete,
  get-put, get-delete, is_some, is_empty, Bool-cases, Option-cases, inl, inr,
}
use corenet.Protocol.{Service, Conflict, source_runtime, source_docker}
use corenet.Protocol.Names.{normalize_name, validate_name}
use corenet.Protocol.Grammar.{validate_name_iff}
use corenet.Registry.{
  Registry, new, is_unusable, config_map, set_config_services, add, add_refusal, remove,
  checked_map, set_remote, conflict_maps, set_docker,
}
use corenet.Registry.Invariant.{
  IsConfigured, IsUsable, IsDirectory, IsConflict, IsTier, IsUnrouted, IsWellFormed, nil-IsTier,
  put-IsTier, delete-IsTier, is_unusable-IsUsable, new-IsWellFormed,
}

module _ (u : Unicode) where
  config_map-IsTier :
      (services : List Service) (next : Map Service)
      → IsTier IsConfigured next
      → IsTier IsConfigured (config_map u next services)
  unfolding config_map
  config_map-IsTier [] next h = h
  config_map-IsTier (s ∷ services) next h =
      config_map-IsTier services _ (put-IsTier _ _ (record { keyed = refl; origin = refl }) h)

  pub set_config_services-IsWellFormed :
      (services : List Service) {r : Registry}
      → IsWellFormed r
      → IsWellFormed (set_config_services u services r)
  unfolding set_config_services
  set_config_services-IsWellFormed services h = record {
    config = config_map-IsTier services [] nil-IsTier;
    runtime = h.runtime;
    docker = h.docker;
    remote = h.remote;
    conflicts = h.conflicts;
    unrouted = h.unrouted;
  }

  checked_map-IsTier :
      (source : Text) (services : List Service) (next : Map Service)
      → IsTier (IsUsable source) next
      → IsTier (IsUsable source) (checked_map u source next services)
  unfolding checked_map
  checked_map-IsTier source [] next h = h
  checked_map-IsTier source (s ∷ services) next h =
      let named : Service = record s { name = normalize_name u s.name } in
      checked_map-IsTier source services _ (elim (Bool-cases (is_unusable u named)) [
        | inl bad ↦ rw bad h
        | inr good ↦ rw good (put-IsTier _ _ (is_unusable-IsUsable u source named good) h)
      ])

  pub set_remote-IsWellFormed :
      (id : Text) (services : List Service) {r : Registry}
      → IsWellFormed r
      → IsWellFormed (set_remote u id services r)
  unfolding set_remote
  set_remote-IsWellFormed id services {r} h =
      let next = checked_map u id [] services in
      let usable : IsTier (IsUsable id) next = checked_map-IsTier id services [] nil-IsTier in
      elim (Bool-cases (is_empty next)) [
        | inl gone ↦ rw gone (with_remote (delete-IsTier id h.remote))
        | inr more ↦ rw more (
            with_remote
              (put-IsTier id _ (record { filled = ne_nil next more; usable = usable }) h.remote))
      ]
    where
      ne_nil : (m : Map Service) → is_empty m ≡ false → m ≢ []
      ne_nil [] e = cc e
      ne_nil (x ∷ m) e = cc

      with_remote :
          {remote : Map (Map Service)}
          → IsTier IsDirectory remote
          → IsWellFormed (record r { remote = remote })
      with_remote t = record {
        config = h.config;
        runtime = h.runtime;
        docker = h.docker;
        remote = t;
        conflicts = h.conflicts;
        unrouted = h.unrouted;
      }

  conflict_maps-IsTier :
      (cs : List Conflict) (next : Map Service) (conflicted : Map Conflict)
      → IsTier (IsUsable source_docker) next
      → IsTier IsConflict conflicted
      → IsUnrouted next conflicted
      → IsTier (IsUsable source_docker) (conflict_maps u next conflicted cs).0
        × IsTier IsConflict (conflict_maps u next conflicted cs).1
        × IsUnrouted (conflict_maps u next conflicted cs).0 (conflict_maps u next conflicted cs).1
  unfolding conflict_maps
  conflict_maps-IsTier [] next conflicted t c n = (t, c, n)
  conflict_maps-IsTier (x ∷ cs) next conflicted t c n =
      let name = normalize_name u x.name in
      elim (Option-cases (validate_name u name)) [
        | inl valid ↦
            rw (valid, conflict_maps)
              (conflict_maps-IsTier cs (delete next name)
                (put conflicted name (record x { name = name })) (delete-IsTier name t)
                (put-IsTier name _
                  (record { keyed = refl; named = (validate_name_iff u name).0 valid }) c)
                (λ k h. ground (
                  arith,
                  get-put conflicted name k (record x { name = name }),
                  get-delete next name k,
                  n k,
                )))
        | inr (e, bad) ↦ rw (bad, conflict_maps) (conflict_maps-IsTier cs next conflicted t c n)
      ]

  pub set_docker-IsWellFormed :
      (services : List Service) (cs : List Conflict) {r : Registry}
      → IsWellFormed r
      → IsWellFormed (set_docker u services cs r)
  unfolding set_docker get
  set_docker-IsWellFormed services cs h =
      let (docker, conflicts, unrouted) =
        conflict_maps-IsTier cs (checked_map u source_docker [] services) []
          (checked_map-IsTier source_docker services [] nil-IsTier) nil-IsTier
          (λ k e. absurd (cc e)) in
      record {
        config = h.config;
        runtime = h.runtime;
        docker = docker;
        remote = h.remote;
        conflicts = conflicts;
        unrouted = unrouted;
      }

  with_runtime :
      {r : Registry} {runtime : Map Service}
      → IsWellFormed r
      → IsTier (IsUsable source_runtime) runtime
      → IsWellFormed (record r { runtime = runtime })
  with_runtime h t = record {
    config = h.config;
    runtime = t;
    docker = h.docker;
    remote = h.remote;
    conflicts = h.conflicts;
    unrouted = h.unrouted;
  }

  -- What the guards of `Add` establish when they let a service through.
  pub record IsAddable (svc : Service) (r : Registry) : Type 0 where
    pub usable : IsUsable source_runtime svc.name (record svc { source = source_runtime })
    pub not_configured : get r.config svc.name ≡ none
    pub not_registered : get r.runtime svc.name ≡ none

  pub add_refusal-IsAddable :
      (svc : Service) (r : Registry) → add_refusal u svc r ≡ none → IsAddable svc r
  unfolding add_refusal is_unusable
  add_refusal-IsAddable svc r h = record {
    usable = is_unusable-IsUsable u source_runtime svc (ground arith);
    not_configured = ground arith;
    not_registered = ground arith;
  }

  pub add-IsWellFormed :
      (svc : Service) {r : Registry} → IsWellFormed r → IsWellFormed (add u svc r).1
  unfolding add
  add-IsWellFormed svc {r} h =
      let named : Service = record svc { name = normalize_name u svc.name } in
      elim (Option-cases (add_refusal u named r)) [
        | inl free ↦
            rw (free, add)
              (with_runtime h (
                put-IsTier named.name (record named { source = source_runtime })
                  (add_refusal-IsAddable named r free).usable h.runtime))
        | inr (e, refused) ↦ rw (refused, add) h
      ]

  pub remove-IsWellFormed :
      (name : Text) {r : Registry} → IsWellFormed r → IsWellFormed (remove u name r).1
  unfolding remove
  remove-IsWellFormed name {r} h =
      elim (Bool-cases (is_some (get r.runtime (normalize_name u name)))) [
        | inl there ↦
            rw (there, remove) (with_runtime h (delete-IsTier (normalize_name u name) h.runtime))
        | inr absent ↦ subst IsWellFormed (unchanged absent) h
      ]
    where
      unchanged : is_some (get r.runtime (normalize_name u name)) ≡ false → r ≡ (remove u name r).1
      unchanged absent = ground arith

  -- One call of a method that writes.
  pub data Step (r : Registry) : Registry → Type 0 where
    configure : (services : List Service) → Step r (set_config_services u services r)
    register : (svc : Service) → Step r (add u svc r).1
    unregister : (name : Text) → Step r (remove u name r).1
    learn : (id : Text) (services : List Service) → Step r (set_remote u id services r)
    discover : (services : List Service) (cs : List Conflict) → Step r (set_docker u services cs r)

  -- The registries that calls from any goroutines, in any order, can produce.
  pub data Reachable : Registry → Type 0 where
    started : Reachable new
    called : {r s : Registry} → Reachable r → Step r s → Reachable s

  Step-IsWellFormed : {r s : Registry} → Step r s → IsWellFormed r → IsWellFormed s
  Step-IsWellFormed (configure services) h = set_config_services-IsWellFormed services h
  Step-IsWellFormed (register svc) h = add-IsWellFormed svc h
  Step-IsWellFormed (unregister name) h = remove-IsWellFormed name h
  Step-IsWellFormed (learn id services) h = set_remote-IsWellFormed id services h
  Step-IsWellFormed (discover services cs) h = set_docker-IsWellFormed services cs h

  -- Whatever methods have been called, in any order, the registry is well-formed: each tier has one
  -- entry for a name, stored under the service's own name with the tier's source; every service
  -- registered, discovered or learned has a name of the .core grammar, an address and a port from 1
  -- to 65535; no node's directory is empty; and no name in conflict is in the Docker tier.
  pub Reachable-IsWellFormed : {r : Registry} → Reachable r → IsWellFormed r
  Reachable-IsWellFormed started = new-IsWellFormed
  Reachable-IsWellFormed (called before step) =
      Step-IsWellFormed step (Reachable-IsWellFormed before)
