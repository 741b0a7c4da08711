-- ===== src/Commands/Client/Showing.antt =====
-- The commands of cmd/corenet/main.go that ask the daemon: what they send, and what they show. A table is its
-- rows of cells; how text/tabwriter pads them is not modelled, and neither are messages' wordings.
use corenet.Common.{
  ℕ, ◌==◌, ltb, Text, bytes, pos, Bool, true, false, ◌&&◌, List, [], ◌∷◌, ◌++◌, map, is_empty,
  decimal, if◌then◌else◌,
}
use Prim.Native.Nat.{◌/◌, ◌%◌}
use corenet.Protocol.{Service, Status, Node, Conflict, ServiceList, addr}
use corenet.Config.Loading.{Machine}
use corenet.Commands.Client.Requests.{
  Decoded, value, not_json, Wire, ClientError, bad_answer, to_socket, no_client, Connected, Answer,
  printed, received, failed,
}

-- What a command prints.
pub data Output : Type 0 where
  line : Text → Output
  usage_text : Output
  table : List (List Text) → Output

-- How a command ends, with what it has printed.
pub data Result : Type 0 where
  done : List Output → Result
  error : List Output → ClientError → Result

-- `nodeState`
unfoldable pub node_state : Node → Text
node_state n =
    if n.is_local then bytes "local" else if n.online then bytes "online" else bytes "offline"

-- `orNone`
abbrev pub or_none : Text → Text
or_none s = if is_empty s then bytes "-" else s

-- The text of a duration of so many seconds, below 292 years.
unfoldable pub duration_text : ℕ → Text
unfolding decimal
duration_text s =
    let secs = decimal (s % 60) ++ b's' ∷ [] in
    let mins = decimal ((s / 60) % 60) ++ (b'm' ∷ secs) in
    let whole = decimal (s / 3600) ++ (b'h' ∷ mins) in
    if ltb s 60 then secs else if ltb s 3600 then mins else whole

-- Where the command runs: the machine, the daemon's answers, how the system's clock shows a time, and
-- `resolutionState`, which is whether the resolver's drop-in file is there.
pub record Shell : Type 0 where
  pub machine : Machine
  pub wire : Wire
  pub local_time : ℕ → Text
  pub resolving : Bool

-- `resolutionState`
abbrev pub resolution_state : Bool → Text
resolution_state true = bytes "connected (systemd-resolved)"
resolution_state false = bytes "not connected"

-- The values that an empty body leaves.
abbrev pub zero_service : Service
zero_service = record { name = []; address = []; port = pos 0; source = [] }

abbrev pub zero_status : Status
zero_status = record {
  version = [];
  node_id = [];
  node_name = [];
  uptime = 0;
  listeners = record { dns = []; http = []; peer = []; control = [] };
  services = 0;
  nodes = 0;
}

abbrev pub zero_node : Node
zero_node = record {
  id = [];
  name = [];
  endpoint = [];
  is_local = false;
  online = false;
  services = 0;
  last_seen = 0;
  error = [];
}

abbrev pub on_decoded {ℓ} : {A : Type ℓ} → (A → Result) → Decoded A → Result
on_decoded k (value a) = k a
on_decoded k (not_json e) = error [] (bad_answer e)

-- The end of `do`, and what the command does with the value: none where the answer was printed as it came.
abbrev pub on_answer {ℓ} : {A : Type ℓ} → A → (Text → Decoded A) → (A → Result) → Answer → Result
on_answer absent decode k (printed text) = done (line text ∷ [])
on_answer absent decode k (failed e) = error [] e
on_answer absent decode k (received body) =
    if is_empty body then k absent else on_decoded k (decode body)

abbrev pub with_client : Connected → (Text → Result) → Result
with_client (no_client e) k = error [] e
with_client (to_socket socket) k = k socket

-- The rows of `status`.
unfoldable pub show_status : Bool → Status → Result
unfolding duration_text decimal
show_status resolving st = done (
    table (
      (bytes "CoreNet" ∷ st.version ∷ [])
      ∷ (bytes "node"
          ∷ ((if is_empty st.node_name then st.node_id else st.node_name)
              ++ (bytes " (" ++ (st.node_id ++ bytes ")")))
          ∷ [])
      ∷ (bytes "uptime" ∷ duration_text st.uptime ∷ [])
      ∷ (bytes "resolution" ∷ resolution_state resolving ∷ [])
      ∷ (bytes "dns" ∷ or_none st.listeners.dns ∷ [])
      ∷ (bytes "http" ∷ or_none st.listeners.http ∷ [])
      ∷ (bytes "peer" ∷ or_none st.listeners.peer ∷ [])
      ∷ (bytes "control" ∷ st.listeners.control ∷ [])
      ∷ (bytes "services" ∷ decimal st.services ∷ [])
      ∷ (bytes "nodes" ∷ decimal st.nodes ∷ [])
      ∷ [])
    ∷ [])

-- The tables of `service list`.
abbrev pub service_row : Service → List Text
unfolding addr
service_row s = s.name ∷ addr s ∷ s.source ∷ []

abbrev pub conflict_row : Conflict → List Text
conflict_row c = c.name ∷ c.reason ∷ []

unfoldable pub show_services : ServiceList → Result
unfolding service_row
show_services l =
    let known =
      table ((bytes "NAME" ∷ bytes "ADDRESS" ∷ bytes "SOURCE" ∷ []) ∷ map service_row l.services) in
    let refused = table ((bytes "CONFLICT" ∷ bytes "REASON" ∷ []) ∷ map conflict_row l.conflicts) in
    if is_empty l.services && is_empty l.conflicts
    then done (line (bytes "no services") ∷ [])
    else done (
        (if is_empty l.services then [] else known ∷ [])
        ++ (if is_empty l.conflicts then [] else line [] ∷ refused ∷ []))

-- The table of `node list`.
abbrev pub node_row : Node → List Text
unfolding node_state decimal
node_row n =
    or_none n.id ∷ or_none n.name ∷ or_none n.endpoint ∷ node_state n ∷ decimal n.services ∷ []

unfoldable pub show_nodes : List Node → Result
unfolding node_row
show_nodes ns = done (
    table (
      (bytes "ID" ∷ bytes "NAME" ∷ bytes "ENDPOINT" ∷ bytes "STATE" ∷ bytes "SERVICES" ∷ [])
      ∷ map node_row ns)
    ∷ [])

-- The rows of `node info`.
unfoldable pub show_node : (ℕ → Text) → Node → Result
unfolding node_state decimal
show_node local_time n = done (
    table (
      (bytes "id" ∷ or_none n.id ∷ [])
      ∷ (bytes "name" ∷ or_none n.name ∷ [])
      ∷ (bytes "endpoint" ∷ or_none n.endpoint ∷ [])
      ∷ (bytes "state" ∷ node_state n ∷ [])
      ∷ (bytes "services" ∷ decimal n.services ∷ [])
      ∷ ((if n.last_seen == 0 then [] else (bytes "last seen" ∷ local_time n.last_seen ∷ []) ∷ [])
          ++ (if is_empty n.error then [] else (bytes "error" ∷ n.error ∷ []) ∷ [])))
    ∷ [])
