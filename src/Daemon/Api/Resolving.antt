-- ===== src/Daemon/Api/Resolving.antt =====
-- `handleResolve` of internal/daemon/api.go against the registry, and what follows a registration.
use corenet.Common.{
  ℕ, Text, ◌≡◌, ◌≢◌, ◌↔◌, sym, ap, ◌∙◌, Option, none, some, arith, Unicode, is_some, if◌then◌else◌,
  get, ◌⊎◌, inl, inr, Option-cases,
}
use corenet.Protocol.{Service, Conflict}
use corenet.Protocol.Names.{normalize_name, validate_name}
use corenet.Protocol.Grammar.{IsCoreName, validate_name_iff, normalize_name_of_valid}
use corenet.Registry.{Registry, lookup, lookup_name, conflict}
use corenet.Daemon.Api.{Response, service_body, failure, handle_resolve, created, no_content}

-- The status code that a response is written with.
abbrev pub status_of : Response → ℕ
status_of (created s) = 201
status_of no_content = 204
status_of (failure status code cause) = status
status_of _ = 200

module _ (u : Unicode) (raw : Text) (r : Registry) where
  abbrev n : Text
  n = normalize_name u raw

  -- The registry normalizes the name once more, which changes nothing.
  normal_lookup : validate_name u n ≡ none → lookup u r n ≡ lookup u r raw
  unfolding lookup
  normal_lookup valid = ap (lookup_name r) (normalize_name_of_valid u n valid)

  normal_conflict : validate_name u n ≡ none → conflict u r n ≡ conflict u r raw
  unfolding conflict
  normal_conflict valid = ap (get r.conflicts) (normalize_name_of_valid u n valid)

  service_body_iff :
      (s : Service)
      → (handle_resolve u raw r ≡ service_body s)
        ↔ ((validate_name u n ≡ none) × (lookup u r n ≡ some s))
  unfolding handle_resolve
  service_body_iff s = ground arith

  bad_request_iff : (status_of (handle_resolve u raw r) ≡ 400) ↔ (validate_name u n ≢ none)
  unfolding handle_resolve
  bad_request_iff = ground arith

  unserved_status :
      validate_name u n ≡ none
      → lookup u r n ≡ none
      → status_of (handle_resolve u raw r) ≡ (if is_some (conflict u r n) then 409 else 404)
  unfolding handle_resolve
  unserved_status valid unknown = ground (arith, valid, unknown)

  -- The answer to a resolution. It is a service exactly if the name is of the grammar once normalized and
  -- the registry looks that service up. It is a bad request exactly if the name is not of the grammar.
  -- Otherwise, where the registry looks no service up, it is a conflict, 409, if the registry holds one about
  -- the name, and 404 if not.
  pub handle_resolve_lem :
      ((s : Service)
        → (handle_resolve u raw r ≡ service_body s)
          ↔ (IsCoreName (normalize_name u raw) × (lookup u r raw ≡ some s)))
      × ((status_of (handle_resolve u raw r) ≡ 400) ↔ (¬ IsCoreName (normalize_name u raw)))
      × ((status_of (handle_resolve u raw r) ≡ 400)
          ⊎ ((s : Service) × (lookup u r raw ≡ some s))
          ⊎ (status_of (handle_resolve u raw r)
              ≡ (if is_some (conflict u r raw) then 409 else 404)))
  handle_resolve_lem = (
    λ s. (
      λ h.
          let (valid, known) = (service_body_iff s).0 h in
          ((validate_name_iff u n).0 valid, sym (normal_lookup valid) ∙ known),
      λ (named, known).
          let valid = (validate_name_iff u n).1 named in
          (service_body_iff s).1 (valid, normal_lookup valid ∙ known),
    ),
    (
      λ h named. bad_request_iff.0 h ((validate_name_iff u n).1 named),
      λ h. bad_request_iff.1 (λ valid. h ((validate_name_iff u n).0 valid)),
    ),
    elim (Option-cases (validate_name u n)) [
      | inr (e, bad) ↦ inl (bad_request_iff.1 (λ valid. absurd (cc (bad, valid))))
      | inl valid ↦ elim (Option-cases (lookup u r raw)) [
        | inr known ↦ inr (inl known)
        | inl unknown ↦ inr (
            inr (
              unserved_status valid (normal_lookup valid ∙ unknown)
              ∙ ap (λ (c : Option Conflict). if is_some c then 409 else 404)
                  (normal_conflict valid)))
      ]
    ],
  )
