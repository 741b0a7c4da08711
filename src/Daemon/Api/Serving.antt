-- ===== src/Daemon/Api/Serving.antt =====
-- Requests to the handlers of internal/daemon/api.go one after another.
use corenet.Common.{
  ap₂, Text, ◌≡◌, ◌≢◌, refl, sym, ap, ◌∙◌, subst, Bool, true, false, List, [], ◌∷◌, some, arith,
  Unicode, text_eq_refl, if◌then◌else◌, find_by, sort_by,
}
use corenet.Protocol.{Service}
use corenet.Protocol.Names.{normalize_name}
use corenet.Protocol.Grammar.{IsCoreName, normalize_name-IsCoreName}
use corenet.Registry.{
  Registry, lookup, lookup_name, sorted_node_ids, add, remove, Result, ok, err, is_conflict,
  is_conflict,
}
use corenet.Registry.Invariant.{IsWellFormed}
use corenet.Registry.Preserved.{add-IsWellFormed, remove-IsWellFormed}
use corenet.Registry.Listing.{by_name, list_local_agrees}
use corenet.Registry.Writes.{add-ok_iff, lookup-add, remove-add, is_ok}
use corenet.Daemon.Api.{
  Api, Request, Response, service_body, services_body, failure, handle_resolve, post_services,
  get_services, get_resolve, delete_service, created, no_content, control, peer, serve, handle_add,
  handle_remove, decoded, malformed, add_response, remove_response, Cause, code_conflict,
  code_bad_request,
}
use corenet.Daemon.Api.Resolving.{handle_resolve_lem}

module _ (u : Unicode) where
  pub handle_add-dir :
      (svc : Service) (a : Api) → (handle_add u (decoded svc) a).1.dir ≡ (add u svc a.dir).1
  unfolding handle_add
  handle_add-dir svc a = go (add u svc a.dir)
    where
      go : (out : Result Service × Registry) → (add_response u a out).1.dir ≡ out.1
      go (ok s, dir) = refl
      go (err e, dir) = refl

  pub handle_remove-dir :
      (raw : Text) (a : Api)
      → (handle_remove u raw a).1.dir ≡ (remove u (normalize_name u raw) a.dir).1
  unfolding handle_remove
  handle_remove-dir raw a = go (remove u (normalize_name u raw) a.dir)
    where
      go :
          (out : Result (Unit {0}) × Registry)
          → (remove_response u (normalize_name u raw) a out).1.dir ≡ out.1
      go (ok t, dir) = refl
      go (err e, dir) = refl

  pub control-IsWellFormed :
      (req : Request) (a : Api) → IsWellFormed a.dir → IsWellFormed (control u req a).1.dir
  unfolding control
  control-IsWellFormed Request.get_status a h = h
  control-IsWellFormed Request.get_info a h = h
  control-IsWellFormed Request.get_services a h = h
  control-IsWellFormed (Request.post_services (decoded svc)) a h =
      rw (handle_add-dir svc a) (add-IsWellFormed u svc h)
  control-IsWellFormed (Request.post_services (malformed e)) a h = unfold handle_add in h
  control-IsWellFormed (Request.delete_service name) a h =
      rw (handle_remove-dir name a) (remove-IsWellFormed u (normalize_name u name) h)
  control-IsWellFormed (Request.get_resolve name) a h = h
  control-IsWellFormed Request.get_nodes a h = h
  control-IsWellFormed (Request.get_node id) a h = h
  control-IsWellFormed (Request.other path) a h = h

  serve-IsWellFormed :
      (reqs : List Request) (a : Api) → IsWellFormed a.dir → IsWellFormed (serve u reqs a).dir
  unfolding serve
  serve-IsWellFormed [] a h = h
  serve-IsWellFormed (req ∷ reqs) a h = serve-IsWellFormed reqs _ (control-IsWellFormed req a h)

  posted :
      (svc s : Service) (a a' : Api)
      → control u (post_services (decoded svc)) a ≡ (created s, a')
      → add u svc a.dir ≡ (ok s, a'.dir)
  unfolding control handle_add
  posted svc s a a' h = go (add u svc a.dir) refl h
    where
      created-injective : {x y : Service} → created x ≡ created y → x ≡ y
      created-injective q = cc q

      refused :
          (c d : Cause) (b : Bool)
          → (if b then failure 409 code_conflict c else failure 400 code_bad_request d) ≢ created s
      refused c d true q = cc q
      refused c d false q = cc q

      go :
          (out : Result Service × Registry)
          → add u svc a.dir ≡ out
          → add_response u a out ≡ (created s, a')
          → add u svc a.dir ≡ (ok s, a'.dir)
      go (ok t, dir) e k =
          e
          ∙ ap₂ (λ (x : Service) (y : Registry). (ok x, y)) (created-injective (ap (λ p. p.0) k))
              (ap (λ p. p.1.dir) k)
      go (err t, dir) e k = absurd (refused _ _ (is_conflict t) (ap (λ p. p.0) k))

  -- Whatever requests the control socket has served, the registry is well-formed if it was before; and
  -- no request to the peer listener changes anything.
  pub serve_lem :
      (reqs : List Request) (a : Api)
      → IsWellFormed a.dir
      → IsWellFormed (serve u reqs a).dir × ((req : Request) → (peer u req a).1 ≡ a)
  unfolding peer
  serve_lem reqs a h = (serve-IsWellFormed reqs a h, unchanged)
    where
      unchanged : (req : Request) → (peer u req a).1 ≡ a
      unchanged Request.get_status = refl
      unchanged Request.get_info = refl
      unchanged Request.get_services = refl
      unchanged (Request.post_services body) = refl
      unchanged (Request.delete_service name) = refl
      unchanged (Request.get_resolve name) = refl
      unchanged Request.get_nodes = refl
      unchanged (Request.get_node id) = refl
      unchanged (Request.other path) = refl

  resolve_at :
      (name : Text) (s : Service) (r : Registry)
      → IsCoreName (normalize_name u name)
      → lookup u r name ≡ some s
      → handle_resolve u name r ≡ service_body s
  resolve_at name s r n known = ((handle_resolve_lem u name r).0 s).1 (n, known)

  removed_lem :
      (name : Text) (a : Api) (r : Registry)
      → IsCoreName name
      → remove u name a.dir ≡ (ok tt, r)
      → ((handle_remove u name a).0 ≡ no_content) × ((handle_remove u name a).1.dir ≡ r)
  unfolding handle_remove
  removed_lem name a r n gone =
      let at : remove u (normalize_name u name) a.dir ≡ (ok tt, r) =
        ap (λ k. remove u k a.dir) (normalize_name-IsCoreName u name n) ∙ gone in
      (
        ap (λ out. (remove_response u (normalize_name u name) a out).0) at,
        ap (λ out. (remove_response u (normalize_name u name) a out).1.dir) at,
      )

  -- Where the control socket answers a POST with 201 and a service, and a spelling is normalized to that
  -- service's name: both listeners resolve the spelling to the service, and a DELETE of the name answers 204
  -- and gives back the registry as it was.
  pub post-resolve-delete :
      (svc s : Service) (a a' : Api) (name : Text)
      → control u (post_services (decoded svc)) a ≡ (created s, a')
      → normalize_name u name ≡ s.name
      → ((control u (get_resolve name) a').0 ≡ service_body s)
        × ((peer u (get_resolve name) a').0 ≡ service_body s)
        × ((control u (delete_service s.name) a').0 ≡ no_content)
        × ((control u (delete_service s.name) a').1.dir ≡ a.dir)
  unfolding control peer
  post-resolve-delete svc s a a' name h e =
      let done = posted svc s a a' h in
      let (same, resolves) = lookup-add u svc a.dir s a'.dir done in
      let servable = ((add-ok_iff u svc a.dir).0 (ap (λ out. is_ok out.0) done)).0 in
      let named : IsCoreName s.name = subst (λ t. IsCoreName t.name) (sym same) servable.named in
      let found : handle_resolve u name a'.dir ≡ service_body s =
        resolve_at name s a'.dir (rw e named)
          (resolves name ∙ ground (arith, e, text_eq_refl s.name)) in
      let (code, dir) = removed_lem s.name a' a.dir named (remove-add u svc a.dir s a'.dir done) in
      (found, found, code, dir)

  served_locally :
      (r : Registry) (name : Text) (s : Service)
      → lookup u (record r { remote = [] }) name ≡ some s
      → lookup u r name ≡ some s
  unfolding lookup lookup_name sorted_node_ids sort_by
  served_locally r name s h = ground (arith, h)

  -- The services that a response lists.
  abbrev pub listed : Response → List Service
  listed (services_body l) = l.services
  listed _ = []

  -- With a well-formed registry, what a node advertises on its peer listener it also resolves
  -- there, to the same service, for every name of the grammar.
  pub advertised_resolves :
      (a : Api) (name : Text) (s : Service)
      → IsWellFormed a.dir
      → IsCoreName (normalize_name u name)
      → find_by by_name (normalize_name u name) (listed (peer u get_services a).0) ≡ some s
      → (peer u (get_resolve name) a).0 ≡ service_body s
  unfolding peer
  advertised_resolves a name s h n there =
      let alone = sym ((list_local_agrees u a.dir h).1 name) ∙ there in
      resolve_at name s a.dir n (served_locally (a.dir) name s alone)
