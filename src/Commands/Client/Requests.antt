-- ===== src/Commands/Client/Requests.antt =====
-- The client of cmd/corenet/main.go: which socket it speaks to, and what it makes of an answer. HTTP and JSON
-- are parameters: what sending a request gives, and what encoding and decoding give.
use corenet.Common.{
  ℕ, Text, Bool, ◌&&◌, List, Option, none, some, leb, is_empty, take, trim_space, if◌then◌else◌,
  Unicode,
}
use corenet.Protocol.{Service, Status, Node, ServiceList}
use corenet.Config.Loading.{
  Machine, LoadError, Loaded, loaded, not_loaded, is_not_exist, default_config, load,
}
use corenet.Commands.Client.Options.{Options, FlagError}

pub data Method : Type 0 where
  get : Method
  post : Method
  delete : Method

-- The parts of a response that the client reads: its code, its status line and its body.
pub record Reply : Type 0 where
  pub code : ℕ
  pub status : Text
  pub body : Text

-- What a request gives: it cannot be made, it is not answered, its answer breaks off, or it is answered.
pub data Exchanged : Type 0 where
  not_made : Text → Exchanged
  not_answered : Text → Exchanged
  cut_off : Text → Exchanged
  answered : Reply → Exchanged

pub data Decoded {ℓ} (A : Type ℓ) : Type ℓ where
  value : A → Decoded A
  not_json : Text → Decoded A

-- HTTP over the socket, and JSON. `error_message` is the message of an error response, empty where it has
-- none, and none where the text is no error response.
pub record Wire : Type 0 where
  pub exchange : Text → Method → Text → Option Text → Exchanged
  pub encode_service : Service → Text
  pub error_message : Text → Option Text
  pub decode_status : Text → Decoded Status
  pub decode_services : Text → Decoded ServiceList
  pub decode_service : Text → Decoded Service
  pub decode_nodes : Text → Decoded (List Node)
  pub decode_node : Text → Decoded Node

-- What a command reports.
pub data ClientError : Type 0 where
  flag_error : FlagError → ClientError
  load_error : LoadError → ClientError
  request_not_made : Text → ClientError
  not_reachable : Text → Text → ClientError
  answer_cut_off : Text → ClientError
  api_error : Text → ClientError
  http_error : Text → Text → ClientError
  bad_answer : Text → ClientError
  usage_of : Text → ClientError
  unknown_command : Text → ClientError
  invalid_port : Text → ClientError
  needs_root : Text → ClientError
  no_dns_listener : ClientError
  resolver_inactive : ClientError
  resolver_not_restarted : Text → ClientError
  not_written : Text → ClientError
  not_removed : Text → ClientError

-- The socket of `newClient`, or why there is no client.
pub data Connected : Type 0 where
  to_socket : Text → Connected
  no_client : ClientError → Connected

-- What `do` gives: it has printed the answer as it came, or the answer is to be decoded.
pub data Answer : Type 0 where
  printed : Text → Answer
  received : Text → Answer
  failed : ClientError → Answer

module _ (u : Unicode) where
  abbrev pub socket_of : Machine → Options → Loaded → Connected
  unfolding default_config
  socket_of m opts (loaded cfg) = to_socket cfg.listen.control
  socket_of m opts (not_loaded e) =
      if is_not_exist e && is_empty opts.config
      then to_socket (default_config m).listen.control
      else no_client (load_error e)

  -- `newClient`
  unfoldable pub new_client : Machine → Options → Connected
  unfolding load socket_of
  new_client m opts =
      let configured = socket_of m opts (load u m opts.config) in
      if is_empty opts.socket then configured else to_socket opts.socket

  -- `do`, on an answer that was read, of which at most 8 MiB count.
  unfoldable pub on_reply : Wire → Bool → Reply → Answer
  unfolding trim_space
  on_reply w raw r =
      let data_read = take 8388608 r.body in
      let plain = failed (http_error r.status (trim_space u data_read)) in
      if leb 400 r.code
      then elim (w.error_message data_read) [
        | none ↦ plain
        | some message ↦ if is_empty message then plain else failed (api_error message)
      ]
      else if raw
      then printed (trim_space u data_read)
      else received data_read

  unfoldable pub on_exchange : Wire → Text → Bool → Exchanged → Answer
  unfolding on_reply
  on_exchange w socket raw (not_made e) = failed (request_not_made e)
  on_exchange w socket raw (not_answered e) = failed (not_reachable socket e)
  on_exchange w socket raw (cut_off e) = failed (answer_cut_off e)
  on_exchange w socket raw (answered r) = on_reply w raw r

  -- `do`, up to where the answer is decoded.
  unfoldable pub send : Wire → Text → Method → Text → Option Text → Bool → Answer
  unfolding on_exchange
  send w socket method path payload raw =
      on_exchange w socket raw (w.exchange socket method path payload)
