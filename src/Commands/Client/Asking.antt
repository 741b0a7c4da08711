-- ===== src/Commands/Client/Asking.antt =====
-- The commands of cmd/corenet/main.go that ask the daemon: what each sends, and to which end.
use corenet.Common.{
  Text, bytes, false, List, [], ◌∷◌, ◌++◌, none, some, text_eq, atoi, if◌then◌else◌, Unicode,
}
use corenet.Protocol.{addr}
use corenet.Protocol.Names.{normalize_name}
use corenet.Commands.Client.Options.{Options}
use corenet.Commands.Client.Requests.{
  get, post, delete, usage_of, unknown_command, invalid_port, Answer, printed, received, failed,
  new_client, send,
}
use corenet.Commands.Client.Showing.{
  line, Result, done, error, Shell, zero_service, zero_status, zero_node, on_answer, with_client,
  show_status, show_services, show_nodes, show_node,
}

module _ (u : Unicode) (sh : Shell) (opts : Options) where
  abbrev pub ask : Text → Text → Answer
  unfolding send
  ask socket path = send u sh.wire socket get path none opts.json

  -- `status`
  unfoldable pub status : Result
  unfolding new_client ask show_status
  status = with_client (new_client u sh.machine opts) (λ socket.
      on_answer zero_status sh.wire.decode_status (show_status sh.resolving)
        (ask socket (bytes "/v1/status")))

  abbrev pub on_removed : Text → Answer → Result
  on_removed name (failed e) = error [] e
  on_removed name (printed text) = done (line (bytes "removed " ++ name) ∷ [])
  on_removed name (received body) = done (line (bytes "removed " ++ name) ∷ [])

  -- `service add`, after its arguments are counted.
  unfoldable pub service_add : Text → Text → Text → Text → Result
  unfolding send addr atoi
  service_add socket name address port = elim (atoi port) [
    | none ↦ error [] (invalid_port port)
    | some p ↦
        on_answer zero_service sh.wire.decode_service
          (λ added.
            done (line (bytes "registered " ++ (added.name ++ (bytes " -> " ++ addr added))) ∷ []))
          (send u sh.wire socket post (bytes "/v1/services")
            (some (
              sh.wire.encode_service
                (record { name = name; address = address; port = p; source = [] })))
            opts.json)
  ]

  -- `service remove`, after its arguments are counted.
  unfoldable pub service_remove : Text → Text → Result
  unfolding send normalize_name
  service_remove socket raw =
      let name = normalize_name u raw in
      on_removed name (send u sh.wire socket delete (bytes "/v1/services/" ++ name) none false)

  abbrev pub service_list : Text → Result
  unfolding ask show_services
  service_list socket =
      on_answer (record { services = []; conflicts = [] }) sh.wire.decode_services show_services
        (ask socket (bytes "/v1/services"))

  -- The cases of `service`.
  abbrev pub service_at : Text → List Text → Text → Result
  unfolding text_eq service_list service_add service_remove
  service_at command args socket =
      if text_eq command (bytes "list")
      then service_list socket
      else if text_eq command (bytes "add")
      then elim args [
        | name ∷ address ∷ port ∷ [] ↦ service_add socket name address port
        | _ ↦ error [] (usage_of (bytes "service add"))
      ]
      else if text_eq command (bytes "remove")
      then elim args [
        | name ∷ [] ↦ service_remove socket name
        | _ ↦ error [] (usage_of (bytes "service remove"))
      ]
      else error [] (unknown_command command)

  -- `service`
  unfoldable pub service : List Text → Result
  unfolding new_client service_at
  service [] = error [] (usage_of (bytes "service"))
  service (command ∷ args) = with_client (new_client u sh.machine opts) (service_at command args)

  -- `resolve`
  unfoldable pub resolve : List Text → Result
  unfolding new_client ask addr normalize_name
  resolve (name ∷ []) = with_client (new_client u sh.machine opts) (λ socket.
      on_answer zero_service sh.wire.decode_service
        (λ svc. done (
          line
            (svc.name ++ (bytes " -> " ++ (addr svc ++ (bytes " (" ++ (svc.source ++ bytes ")")))))
          ∷ []))
        (ask socket (bytes "/v1/resolve?name=" ++ normalize_name u name)))
  resolve _ = error [] (usage_of (bytes "resolve"))

  -- The cases of `node`.
  abbrev pub node_at : Text → List Text → Text → Result
  unfolding text_eq ask show_nodes show_node
  node_at command args socket =
      if text_eq command (bytes "list")
      then on_answer [] sh.wire.decode_nodes show_nodes (ask socket (bytes "/v1/nodes"))
      else if text_eq command (bytes "info")
      then elim args [
        | id ∷ [] ↦
            on_answer zero_node sh.wire.decode_node (show_node sh.local_time)
              (ask socket (bytes "/v1/nodes/" ++ id))
        | _ ↦ error [] (usage_of (bytes "node info"))
      ]
      else error [] (unknown_command command)

  -- `node`
  unfoldable pub node : List Text → Result
  unfolding new_client node_at
  node [] = error [] (usage_of (bytes "node"))
  node (command ∷ args) = with_client (new_client u sh.machine opts) (node_at command args)
