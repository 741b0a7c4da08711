-- ===== src/Registry/Writes.antt =====
-- What `Add` and `Remove` of internal/registry/registry.go do to the directory, on every branch.
use corenet.Common.{
  ne-nil-is_empty, ℕ, Text, ◌≡◌, ◌≢◌, ◌↔◌, sym, ap, ◌∙◌, Bool, true, false, not, [], none, some,
  arith, Unicode, get, put, get-put, get-delete, delete-put, text_eq, text_eq_iff, text_eq_refl,
  is_some, is_empty, if◌then◌else◌, ◌<|>◌, Option-cases, inl, inr,
}
use corenet.Protocol.{Service, source_runtime}
use corenet.Protocol.Names.{normalize_name}
use corenet.Protocol.Grammar.{IsCoreName, validate_name_iff, normalize_name-IsCoreName}
use corenet.Registry.{
  Registry, RegistryError, Result, ok, err, is_conflict, is_not_found, add, add_refusal, remove,
  sorted_node_ids, lookup_name, lookup,
}
use corenet.Registry.Invariant.{IsPort, bad_port-IsPort, IsPort-bad_port}
use corenet.Registry.Preserved.{add_refusal-IsAddable}

-- A service as another part of the program may describe it: a name of the grammar once it is
-- normalized, an address, and a port from 1 to 65535.
pub record IsServable (u : Unicode) (svc : Service) : Type 0 where
  pub named : IsCoreName (normalize_name u svc.name)
  pub addressed : svc.address ≢ []
  pub ported : IsPort svc.port

-- The service as `Add` stores it.
abbrev pub registered : Unicode → Service → Service
registered u svc = record svc { name = normalize_name u svc.name; source = source_runtime }

module _ (u : Unicode) (svc : Service) (r : Registry) where
  abbrev named : Service
  named = record svc { name = normalize_name u svc.name }

  -- With a servable service the answer turns on the two upper tiers alone.
  servable_refusal :
      IsServable u svc
      → is_some (add_refusal u named r)
        ≡ is_some (get r.config named.name <|> get r.runtime named.name)
  unfolding add_refusal
  servable_refusal h =
      let free = (validate_name_iff u named.name).1 h.named in
      let addressed = ne-nil-is_empty svc.address h.addressed in
      let ported = IsPort-bad_port svc.port h.ported in ground (arith, free, addressed, ported)

  conflict_refusal :
      IsServable u svc → (e : RegistryError) → add_refusal u named r ≡ some e → is_conflict e ≡ true
  unfolding add_refusal
  conflict_refusal h e q =
      let free = (validate_name_iff u named.name).1 h.named in
      let addressed = ne-nil-is_empty svc.address h.addressed in
      let ported = IsPort-bad_port svc.port h.ported in ground (arith, q, free, addressed, ported)

  -- Every refusal that is no conflict names a fault of the service itself.
  refusal-IsServable :
      (e : RegistryError) → add_refusal u named r ≡ some e → is_conflict e ≡ true → IsServable u svc
  unfolding add_refusal
  refusal-IsServable e q c = record {
    named = (validate_name_iff u named.name).0 (ground (arith, q, c));
    addressed = λ empty. ground (arith, q, c, ap (is_empty {A = ℕ}) empty);
    ported = bad_port-IsPort svc.port (ground (arith, q, c));
  }

abbrev pub is_ok {ℓ} : {A : Type ℓ} → Result A → Bool
is_ok (ok a) = true
is_ok (err e) = false

module _ (u : Unicode) (svc : Service) (r : Registry) where
  add_result : is_ok (add u svc r).0 ≡ not (is_some (add_refusal u (named u svc r) r))
  unfolding add
  add_result = ground arith

  -- `Add` succeeds exactly for a service with a name of the grammar once normalized, an address and a
  -- port from 1 to 65535, whose name is neither configured nor registered.
  pub add-ok_iff : (is_ok (add u svc r).0 ≡ true) ↔ (
      IsServable u svc
      × (get r.config (normalize_name u svc.name) ≡ none)
      × (get r.runtime (normalize_name u svc.name) ≡ none))
  add-ok_iff = (
    λ h.
        let free : add_refusal u (named u svc r) r ≡ none = ground (arith, add_result, h) in
        let a = add_refusal-IsAddable u (named u svc r) r free in
        (
          record {
            named = a.usable.named;
            addressed = a.usable.addressed;
            ported = a.usable.ported;
          },
          a.not_configured,
          a.not_registered,
        ),
    λ (h, c, d). ground (arith, add_result, servable_refusal u svc r h, c, d),
  )

  -- When `Add` fails the registry is unchanged, and the error is `ErrConflict` exactly when the
  -- service itself is servable, so that only its name stands in the way.
  pub add-err :
      (e : RegistryError)
      → (add u svc r).0 ≡ err e
      → ((add u svc r).1 ≡ r) × ((is_conflict e ≡ true) ↔ IsServable u svc)
  unfolding add
  add-err e h = elim (Option-cases (add_refusal u (named u svc r) r)) [
    | inl free ↦ absurd (ground (arith, h, free))
    | inr (d, refused) ↦
        let same : d ≡ e = ground (arith, h, refused) in
        let q : add_refusal u (named u svc r) r ≡ some e = refused ∙ ap some same in
        (
          ground (arith, refused),
          (refusal-IsServable u svc r e q, λ s. conflict_refusal u svc r s e q),
        )
  ]

  -- After `Add` has succeeded the name resolves to the new service, stored under the normalized name
  -- with the runtime source, and every other name resolves as it did.
  pub lookup-add :
      (s : Service) (r' : Registry)
      → add u svc r ≡ (ok s, r')
      → (s ≡ registered u svc)
        × ((name : Text)
            → lookup u r' name
              ≡ (if text_eq s.name (normalize_name u name) then some s else lookup u r name))
  unfolding add lookup lookup_name sorted_node_ids
  lookup-add s r' h = elim (Option-cases (add_refusal u (named u svc r) r)) [
    | inr (d, refused) ↦ absurd (ground (arith, h, refused))
    | inl free ↦
        let same : registered u svc ≡ s = ground (arith, h, free) in
        let stored : record r {
          runtime = put r.runtime (normalize_name u svc.name) (registered u svc);
        }
            ≡ r' =
          ground (arith, h, free) in
        (
          sym same,
          λ name.
              rw (← stored, ← same)
                (ground (
                  arith,
                  get-put r.runtime (normalize_name u svc.name) (normalize_name u name)
                      (registered u svc),
                )),
        )
  ]

  -- Removing what `Add` has just registered succeeds and gives back the registry as it was.
  pub remove-add :
      (s : Service) (r' : Registry) → add u svc r ≡ (ok s, r') → remove u s.name r' ≡ (ok tt, r)
  unfolding add remove
  remove-add s r' h = elim (Option-cases (add_refusal u (named u svc r) r)) [
    | inr (d, refused) ↦ absurd (ground (arith, h, refused))
    | inl free ↦
        let name = normalize_name u svc.name in
        let a = add_refusal-IsAddable u (named u svc r) r free in
        let fixed = normalize_name-IsCoreName u name a.usable.named in
        let same : registered u svc ≡ s = ground (arith, h, free) in
        let stored : record r { runtime = put r.runtime name (registered u svc) } ≡ r' =
          ground (arith, h, free) in
        rw (← stored, ← same)
          (ground (
            arith,
            fixed,
            get-put r.runtime name name (registered u svc),
            text_eq_refl name,
            delete-put r.runtime name (registered u svc) a.not_registered,
          ))
  ]

module _ (u : Unicode) (name : Text) (r : Registry) where
  -- `Remove` of a registered name succeeds. Then the name resolves to what it would without any
  -- registration, and every other name resolves as it did.
  pub lookup-remove :
      is_some (get r.runtime (normalize_name u name)) ≡ true
      → ((remove u name r).0 ≡ ok tt)
        × ((other : Text)
            → lookup u (remove u name r).1 other ≡ (
                if text_eq (normalize_name u name) (normalize_name u other)
                then lookup u (record r { runtime = [] }) name
                else lookup u r other))
  unfolding remove lookup lookup_name sorted_node_ids get
  lookup-remove h = (
    ground (arith, h),
    λ other. ground (
      arith,
      h,
      text_eq_iff (normalize_name u name) (normalize_name u other),
      get-delete r.runtime (normalize_name u name) (normalize_name u other),
    ),
  )

  -- When `Remove` fails the registry is unchanged, the name is not registered, and the error is
  -- `ErrNotFound` exactly when no container and no configuration of this node has the name.
  pub remove-err :
      (e : RegistryError)
      → (remove u name r).0 ≡ err e
      → ((remove u name r).1 ≡ r)
        × (get r.runtime (normalize_name u name) ≡ none)
        × ((is_not_found e ≡ true) ↔ (
            (get r.config (normalize_name u name) ≡ none)
            × (get r.docker (normalize_name u name) ≡ none)))
  unfolding remove
  remove-err e h = ground arith
