-- ===== src/Config/Services.antt =====
-- The loop over the services in `Validate` of internal/config/config.go.
use corenet.Common.{
  Text, ◌≡◌, ◌≢◌, ◌↔◌, refl, sym, ap, subst, ◌∙◌, Bool, true, false, List, [], ◌∷◌, none, arith,
  Unicode, All, Map, get, put, get-put, is_some, is_empty, text_eq_iff, Option-cases, inl, inr, map,
  find_by, IsDistinct, is_empty-ne-nil, ne-nil-is_empty,
}
use corenet.Protocol.{Service, source_config}
use corenet.Protocol.Names.{normalize_name, validate_name}
use corenet.Protocol.Grammar.{IsCoreName, validate_name_iff, normalize_name-IsCoreName}
use corenet.Registry.{bad_port}
use corenet.Registry.Invariant.{IsPort, bad_port-IsPort, IsPort-bad_port}
use corenet.Registry.Listing.{by_name}
use corenet.Config.{Checked, passed, failed, service_refusal, with_service, check_services}
use corenet.Config.Checks.{IsOwn, passed-injective}

module _ (u : Unicode) where
  service_refusal-eq-none_iff :
      (seen : Map Bool) (s : Service)
      → (service_refusal u seen s ≡ none) ↔ (
          (validate_name u s.name ≡ none)
          × (is_empty s.address ≡ false)
          × (bad_port s.port ≡ false)
          × (is_some (get seen s.name) ≡ false))
  unfolding service_refusal
  service_refusal-eq-none_iff seen s = ground arith

  service_refusal_iff :
      (seen : Map Bool) (s : Service)
      → (service_refusal u seen s ≡ none) ↔ (
          IsCoreName s.name
          × (s.address ≢ [])
          × IsPort s.port
          × (is_some (get seen s.name) ≡ false))
  service_refusal_iff seen s = (
    λ h.
        let (valid, addressed, ported, fresh) = (service_refusal-eq-none_iff seen s).0 h in
        (
          (validate_name_iff u s.name).0 valid,
          is_empty-ne-nil s.address addressed,
          bad_port-IsPort s.port ported,
          fresh,
        ),
    λ (named, addressed, ported, fresh). (service_refusal-eq-none_iff seen s).1 (
      (validate_name_iff u s.name).1 named,
      ne-nil-is_empty s.address addressed,
      IsPort-bad_port s.port ported,
      fresh,
    ),
  )

  with_service-passed :
      (s : Service) (rest : Checked (List Service)) (ss : List Service)
      → with_service u s rest ≡ passed ss
      → (tail : List Service) × (rest ≡ passed tail) × (ss ≡ s ∷ tail)
  with_service-passed s (passed tail) ss h = (tail, refl, cc h)
  with_service-passed s (failed e) ss h = absurd (cc h)

  -- None of the names is in `seen`.
  abbrev pub IsFresh : Map Bool → List Service → Type 0
  IsFresh seen ss = (k : Text) → is_some (get seen k) ≡ true → find_by by_name k ss ≡ none

  pub check_services-valid :
      (seen : Map Bool) (services ss : List Service)
      → check_services u seen services ≡ passed ss
      → All IsOwn ss × IsDistinct by_name ss × IsFresh seen ss
  unfolding check_services find_by
  check_services-valid seen [] ss h =
      subst (λ t. All IsOwn t × IsDistinct by_name t × IsFresh seen t) (passed-injective h)
        (tt, tt, λ k _. refl)
  check_services-valid seen (svc ∷ services) ss h =
      let named : Service = record svc { name = normalize_name u svc.name } in
      let own : Service = record named { source = source_config } in
      let rest = check_services u (put seen named.name true) services in
      elim (Option-cases (service_refusal u seen named)) [
        | inr (e, bad) ↦ absurd (ground (arith, h, bad))
        | inl good ↦
            let (tail, checked, whole) =
              with_service-passed own rest ss (ground (arith, h, good)) in
            let (name, addressed, ported, fresh) = (service_refusal_iff seen named).0 good in
            let (owns, distinct, unseen) =
              check_services-valid (put seen named.name true) services tail checked in
            subst (λ t. All IsOwn t × IsDistinct by_name t × IsFresh seen t) (sym whole)
              (
                (
                  record {
                    keyed = refl;
                    named = name;
                    addressed = addressed;
                    ported = ported;
                    origin = refl;
                  },
                  owns,
                ),
                (
                  unseen named.name (
                      ground (
                        arith,
                        get-put seen named.name named.name true,
                        text_eq_iff named.name named.name,
                      )),
                  distinct,
                ),
                λ k there. ground (
                  arith,
                  unseen k,
                  there,
                  fresh,
                  get-put seen named.name k true,
                  text_eq_iff named.name k,
                ),
              )
      ]

  pub valid-check_services :
      (seen : Map Bool) (ss : List Service)
      → All IsOwn ss
      → IsDistinct by_name ss
      → IsFresh seen ss
      → check_services u seen ss ≡ passed ss
  unfolding check_services find_by
  valid-check_services seen [] o d f = refl
  valid-check_services seen (s ∷ ss) o d f =
      let fixed = normalize_name-IsCoreName u s.name o.0.named in
      let (valid, addressed, ported, fresh) = (service_refusal-eq-none_iff seen s).0 (
        (service_refusal_iff seen s).1 (
          o.0.named,
          o.0.addressed,
          o.0.ported,
          ground (arith, f s.name, text_eq_iff s.name s.name),
        )) in
      let tail = valid-check_services (put seen s.name true) ss o.1 d.1 (λ k there.
        ground (arith, f k, d.0, there, get-put seen s.name k true, text_eq_iff s.name k)) in
      ground (arith, fixed, valid, addressed, ported, fresh, tail, o.0.origin)

  -- A service as `Validate` rewrites it.
  abbrev pub own_service : Service → Service
  own_service svc = record svc { name = normalize_name u svc.name; source = source_config }

  pub check_services-map :
      (seen : Map Bool) (services ss : List Service)
      → check_services u seen services ≡ passed ss
      → ss ≡ map own_service services
  unfolding check_services
  check_services-map seen [] ss h = sym (passed-injective h)
  check_services-map seen (svc ∷ services) ss h =
      let named : Service = record svc { name = normalize_name u svc.name } in
      let rest = check_services u (put seen named.name true) services in
      elim (Option-cases (service_refusal u seen named)) [
        | inr (e, bad) ↦ absurd (ground (arith, h, bad))
        | inl good ↦
            let (tail, checked, whole) =
              with_service-passed (own_service svc) rest ss (ground (arith, h, good)) in
            whole
            ∙ ap (λ (t : List Service). own_service svc ∷ t)
                (check_services-map (put seen named.name true) services tail checked)
      ]
