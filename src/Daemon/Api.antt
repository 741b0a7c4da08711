-- ===== src/Daemon/Api.antt =====
-- internal/daemon/api.go: the handlers of the control socket and of the peer listener. HTTP itself is not
-- modelled: a request is what the patterns of http.ServeMux make of it, with the decoded body of a POST,
-- and messages are given by their cause. HEAD requests, which the GET patterns also match, are left out.
pub mod Resolving
pub mod Serving
mod Tests
use corenet.Common.{
  ℕ, Text, bytes, Bool, true, false, List, [], ◌∷◌, ◌++◌, Option, none, some, if◌then◌else◌, ◌||◌,
  Unicode, text_eq,
}
use corenet.Protocol.{Service, Node, Status, Info, Conflict, ServiceList, addr}
use corenet.Protocol.Names.{NameError, normalize_name, validate_name}
use corenet.Registry.{
  Registry, RegistryError, is_conflict, is_not_found, Result, ok, err, add, remove, lookup,
  conflict, conflicts, list, list_local,
}

-- The body of a POST: a service, or why it does not decode.
pub data Body : Type 0 where
  decoded : Service → Body
  malformed : Text → Body

pub data Request : Type 0 where
  get_status : Request
  get_info : Request
  get_services : Request
  post_services : Body → Request
  delete_service : Text → Request
  get_resolve : Text → Request
  get_nodes : Request
  get_node : Text → Request
  other : Text → Request

-- The codes of pkg/protocol/protocol.go that the handlers use.
pub data Code : Type 0 where
  code_bad_request : Code
  code_not_found : Code
  code_conflict : Code

-- What an error's message says.
pub data Cause : Type 0 where
  invalid_body : Text → Cause
  registry_error : RegistryError → Cause
  name_error : NameError → Cause
  not_routed : Text → Text → Cause
  unknown_service : Text → Cause
  unknown_node : Text → Cause
  no_endpoint : Text → Cause

-- A response, with its status where that depends on the handler's case.
pub data Response : Type 0 where
  status_body : Status → Response
  info_body : Info → Response
  services_body : ServiceList → Response
  created : Service → Response
  no_content : Response
  service_body : Service → Response
  nodes_body : List Node → Response
  node_body : Node → Response
  failure : ℕ → Code → Cause → Response

-- The lines that the handlers log.
pub data LogLine : Type 0 where
  registered : Text → Text → LogLine
  removed : Text → LogLine

-- `API`: the registry, what the three callbacks answer while the registry is as given, and what was
-- logged.
pub record Api : Type 0 where
  pub dir : Registry
  pub status : Registry → Status
  pub info : Registry → Info
  pub nodes : Registry → List Node
  pub log : List LogLine

-- The loop of `handleNode`.
unfoldable pub find_node : Text → List Node → Response
unfolding text_eq
find_node id [] = failure 404 code_not_found (unknown_node id)
find_node id (n ∷ ns) =
    let rest = find_node id ns in
    if text_eq n.id id || text_eq n.endpoint id then node_body n else rest

module _ (u : Unicode) where
  -- `handleServices` for the control socket and for the peer listener.
  abbrev pub handle_services : Api → Response
  handle_services a = services_body (record { services = list a.dir; conflicts = conflicts a.dir })

  abbrev pub handle_services_local : Api → Response
  handle_services_local a = services_body (record { services = list_local a.dir; conflicts = [] })

  -- The cases of `handleAddService` after `Add`.
  abbrev pub add_response : Api → Result Service × Registry → Response × Api
  add_response a (ok added, dir) = (
    created added,
    record a { dir = dir; log = a.log ++ registered added.name (addr added) ∷ [] },
  )
  add_response a (err e, dir) = (
    if is_conflict e
        then failure 409 code_conflict (registry_error e)
        else failure 400 code_bad_request (registry_error e),
    record a { dir = dir },
  )

  -- `handleAddService`
  unfoldable pub handle_add : Body → Api → Response × Api
  unfolding add addr
  handle_add (malformed e) a = (failure 400 code_bad_request (invalid_body e), a)
  handle_add (decoded svc) a = add_response a (add u svc a.dir)

  -- The cases of `handleRemoveService` after `Remove`.
  abbrev pub remove_response : Text → Api → Result (Unit {0}) × Registry → Response × Api
  remove_response name a (ok t, dir) =
      (no_content, record a { dir = dir; log = a.log ++ removed name ∷ [] })
  remove_response name a (err e, dir) = (
    if is_not_found e
        then failure 404 code_not_found (registry_error e)
        else failure 409 code_conflict (registry_error e),
    record a { dir = dir },
  )

  -- `handleRemoveService`
  unfoldable pub handle_remove : Text → Api → Response × Api
  unfolding remove
  handle_remove raw a =
      let name = normalize_name u raw in remove_response name a (remove u name a.dir)

  -- `handleResolve`
  unfoldable pub handle_resolve : Text → Registry → Response
  unfolding lookup
  handle_resolve raw r =
      let name = normalize_name u raw in
      elim (validate_name u name) [
        | some e ↦ failure 400 code_bad_request (name_error e)
        | none ↦ elim (lookup u r name) [
          | some svc ↦ service_body svc
          | none ↦ elim (conflict u r name) [
            | some c ↦ failure 409 code_conflict (not_routed name c.reason)
            | none ↦ failure 404 code_not_found (unknown_service name)
          ]
        ]
      ]

  -- `ControlMux`
  unfoldable pub control : Request → Api → Response × Api
  unfolding handle_add handle_remove handle_resolve find_node list conflicts
  control get_status a = (status_body (a.status a.dir), a)
  control get_services a = (handle_services a, a)
  control (post_services body) a = handle_add body a
  control (delete_service name) a = handle_remove name a
  control (get_resolve name) a = (handle_resolve name a.dir, a)
  control get_nodes a = (nodes_body (a.nodes a.dir), a)
  control (get_node id) a = (find_node id (a.nodes a.dir), a)
  control get_info a = (failure 404 code_not_found (no_endpoint (bytes "/v1/info")), a)
  control (other path) a = (failure 404 code_not_found (no_endpoint path), a)

  -- `PeerMux`; what is not a pattern of its own falls to `handleNotFound`.
  unfoldable pub peer : Request → Api → Response × Api
  unfolding handle_resolve list_local
  peer get_info a = (info_body (a.info a.dir), a)
  peer get_services a = (handle_services_local a, a)
  peer (get_resolve name) a = (handle_resolve name a.dir, a)
  peer get_status a = (failure 404 code_not_found (no_endpoint (bytes "/v1/status")), a)
  peer (post_services body) a = (failure 404 code_not_found (no_endpoint (bytes "/v1/services")), a)
  peer (delete_service name) a =
      (failure 404 code_not_found (no_endpoint (bytes "/v1/services/" ++ name)), a)
  peer get_nodes a = (failure 404 code_not_found (no_endpoint (bytes "/v1/nodes")), a)
  peer (get_node id) a = (failure 404 code_not_found (no_endpoint (bytes "/v1/nodes/" ++ id)), a)
  peer (other path) a = (failure 404 code_not_found (no_endpoint path), a)

  -- The control socket serves requests one after another.
  unfoldable pub serve : List Request → Api → Api
  unfolding control
  serve [] a = a
  serve (req ∷ reqs) a = serve reqs (control req a).1
