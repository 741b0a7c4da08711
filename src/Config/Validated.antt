-- ===== src/Config/Validated.antt =====
-- `Validate` of internal/config/config.go against what a usable configuration is.
use corenet.Common.{
  pos, leb_ℤ, bytes, ◌≡◌, ◌↔◌, sym, ap, subst, ◌∙◌, not, [], arith, Unicode, get, is_empty, map,
  is_empty-ne-nil, ne-nil-is_empty,
}
use corenet.Config.{
  Config, no_node_id, no_control, negative_pull_interval, negative_poll_interval, passed, refuse_if,
  check_listener, check_nodes, check_services, validate,
}
use corenet.Config.Checks.{
  IsValid, bind-eq-passed, refuse_if-passed, passed-injective, not-false, check_listener-passed,
  listener-check_listener, check_nodes_iff,
}
use corenet.Config.Services.{
  check_services-valid, valid-check_services, check_services-map, own_service,
}

module _ (u : Unicode) where
  -- `Validate` returns only valid configurations.
  passed-IsValid :
      (c c' : Config)
      → validate u c ≡ passed c'
      → IsValid c' × (c' ≡ record c { services = map (own_service u) c.services })
  unfolding validate
  passed-IsValid c c' h =
      let (_, id, h1) = bind-eq-passed (refuse_if (is_empty c.node.id) no_node_id) _ h in
      let (_, control, h2) =
        bind-eq-passed (refuse_if (is_empty c.listen.control) no_control) _ h1 in
      let (_, dns, h3) = bind-eq-passed (check_listener (bytes "listen.dns") c.listen.dns) _ h2 in
      let (_, http, h4) =
        bind-eq-passed (check_listener (bytes "listen.http") c.listen.http) _ h3 in
      let (_, peer, h5) =
        bind-eq-passed (check_listener (bytes "listen.peer") c.listen.peer) _ h4 in
      let (services, checked, h6) = bind-eq-passed (check_services u [] c.services) _ h5 in
      let (_, pull, h7) =
        bind-eq-passed
          (refuse_if (not (leb_ℤ (pos 0) c.pull_interval_seconds)) negative_pull_interval) _ h6 in
      let (_, poll, h8) =
        bind-eq-passed
          (refuse_if (not (leb_ℤ (pos 0) c.docker.poll_interval_seconds)) negative_poll_interval) _
          h7 in
      let (_, nodes, whole) = bind-eq-passed (check_nodes c.nodes) _ h8 in
      let (owns, distinct, _) = check_services-valid u [] c.services services checked in
      (
        subst IsValid (passed-injective whole) (record {
          identified = is_empty-ne-nil c.node.id (refuse_if-passed _ _ id);
          controlled = is_empty-ne-nil c.listen.control (refuse_if-passed _ _ control);
          dns = check_listener-passed _ c.listen.dns dns;
          http = check_listener-passed _ c.listen.http http;
          peer = check_listener-passed _ c.listen.peer peer;
          services = owns;
          distinct = distinct;
          pull = not-false _ (refuse_if-passed _ _ pull);
          poll = not-false _ (refuse_if-passed _ _ poll);
          nodes = (check_nodes_iff c.nodes).0 nodes;
        }),
        sym (passed-injective whole)
            ∙ ap (λ ss. record c { services = ss })
                (check_services-map u [] c.services services checked),
      )

  -- A valid configuration passes as it is.
  pub valid-validate : (c : Config) → IsValid c → validate u c ≡ passed c
  unfolding validate get
  valid-validate c v = ground (
    arith,
    ne-nil-is_empty c.node.id v.identified,
    ne-nil-is_empty c.listen.control v.controlled,
    listener-check_listener (bytes "listen.dns") c.listen.dns v.dns,
    listener-check_listener (bytes "listen.http") c.listen.http v.http,
    listener-check_listener (bytes "listen.peer") c.listen.peer v.peer,
    valid-check_services u [] c.services v.services v.distinct (λ k there. absurd (cc there)),
    v.pull,
    v.poll,
    (check_nodes_iff c.nodes).1 v.nodes,
  )

  -- A configuration that passes `Validate` comes out valid: with a node ID, listen addresses that split,
  -- endpoints with a host and a number, no negative interval, and services of distinct valid names, each
  -- with an address, a port from 1 to 65535 and the source "config". Only names and sources of services
  -- are changed, and a second pass changes nothing.
  pub validate-IsValid :
      (c c' : Config)
      → validate u c ≡ passed c'
      → IsValid c'
        × (c' ≡ record c { services = map (own_service u) c.services })
        × (validate u c' ≡ passed c')
  validate-IsValid c c' h =
      let (valid, same) = passed-IsValid c c' h in (valid, same, valid-validate c' valid)

  -- Every valid configuration passes, and only a valid one passes as it is.
  pub validate_iff : (c : Config) → (validate u c ≡ passed c) ↔ IsValid c
  validate_iff c = (λ h. (passed-IsValid c c h).0, valid-validate c)
