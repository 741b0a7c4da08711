-- ===== src/Config/Routed.antt =====
-- The services of a valid configuration of internal/config/config.go in the registry of
-- internal/registry/registry.go, at the start and after a reload.
use corenet.Common.{
  Text, ◌≡◌, refl, List, [], ◌∷◌, arith, Unicode, All, Map, get, put, get-put, text_eq, text_eq_iff,
  ◌<|>◌, find_by, IsDistinct, Bool-cases, inl, inr,
}
use corenet.Protocol.{Service}
use corenet.Protocol.Names.{normalize_name}
use corenet.Protocol.Grammar.{normalize_name-IsCoreName}
use corenet.Registry.{Registry, config_map, set_config_services, lookup, lookup_name}
use corenet.Registry.Listing.{by_name}
use corenet.Config.{Config}
use corenet.Config.Checks.{IsOwn, IsValid}

module _ (u : Unicode) where
  get-config_map :
      (services : List Service) (next : Map Service) (k : Text)
      → All IsOwn services
      → IsDistinct by_name services
      → get (config_map u next services) k ≡ (find_by by_name k services <|> get next k)
  unfolding config_map find_by
  get-config_map [] next k o d = refl
  get-config_map (s ∷ services) next k o d =
      let fixed = normalize_name-IsCoreName u s.name o.0.named in
      let ih = get-config_map services (put next s.name s) k o.1 d.1 in
      elim (Bool-cases (text_eq s.name k)) [
        | inl same ↦
            ground (
              arith,
              fixed,
              o.0.origin,
              ih,
              get-put next s.name k s,
              same,
              d.0,
              text_eq_iff s.name k,
            )
        | inr other ↦ ground (arith, fixed, o.0.origin, ih, get-put next s.name k s, other)
      ]

  -- After the services of a valid configuration are set, a name resolves to the service that was
  -- registered for it at run time, else to the one that the configuration declares for it, and else to
  -- what Docker or another node provides; no declared service is lost, and none of an earlier
  -- configuration is left.
  pub lookup-set_config_services :
      (c : Config) (r : Registry) (name : Text)
      → IsValid c
      → lookup u (set_config_services u c.services r) name ≡ (
          get r.runtime (normalize_name u name)
          <|> (find_by by_name (normalize_name u name) c.services
              <|> lookup u (record r { runtime = []; config = [] }) name))
  unfolding lookup lookup_name set_config_services get
  lookup-set_config_services c r name v =
      ground (arith, get-config_map c.services [] (normalize_name u name) v.services v.distinct)
