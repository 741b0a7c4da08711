-- ===== src/Config.antt =====
-- internal/config/config.go: the configuration and its checks. `validate` starts from a decoded configuration,
-- which Config/Loading finds and reads.
pub mod Checks
pub mod Services
pub mod Validated
pub mod Routed
pub mod Identity
pub mod Durations
pub mod Loading
pub mod Tests
use corenet.Common.{
  ℕ, ◌+◌, ◌-◌, ◌*◌, ◌^◌, Text, ℤ, pos, negsuc, bytes, Bool, true, false, not, ◌&&◌, ◌||◌, ◌==◌, ltb,
  leb, List, [], ◌∷◌, map, reverse, Option, none, some, if◌then◌else◌, Unicode, Map, get, put,
  is_some, is_empty, text_eq, split_host_port, atoi, leb_ℤ,
}
use Prim.Native.Nat.{◌%◌, zero, suc}
use corenet.Protocol.{Service, source_config}
use corenet.Protocol.Names.{NameError, normalize_name, validate_name}
use corenet.Registry.{bad_port}

abbrev pub default_pull_seconds : ℕ
default_pull_seconds = 30

abbrev pub default_docker_poll_seconds : ℕ
default_docker_poll_seconds = 5

abbrev pub default_docker_socket : Text
default_docker_socket = bytes "/var/run/docker.sock"

-- `Node`
pub record NodeConfig : Type 0 where
  pub id : Text
  pub name : Text

-- `Docker`; `enabled` may be absent.
pub record DockerConfig : Type 0 where
  pub enabled : Option Bool
  pub socket : Text
  pub network : Text
  pub poll_interval_seconds : ℤ

-- `Listen`
pub record Listen : Type 0 where
  pub dns : Text
  pub http : Text
  pub peer : Text
  pub control : Text

-- `Config`
pub record Config : Type 0 where
  pub node : NodeConfig
  pub listen : Listen
  pub services : List Service
  pub nodes : List Text
  pub pull_interval_seconds : ℤ
  pub docker : DockerConfig
  pub path : Text

-- `IsEnabled`
abbrev pub is_enabled : DockerConfig → Bool
is_enabled d = elim d.enabled [ none ↦ true | some b ↦ b ]

-- `SocketPath`
abbrev pub socket_path : DockerConfig → Text
socket_path d = if is_empty d.socket then default_docker_socket else d.socket

-- A 64-bit pattern as a signed integer.
abbrev pub signed : ℕ → ℤ
signed n = if ltb n (2 ^ 63) then pos n else negsuc (2 ^ 64 - 1 - n)

-- `time.Duration(n) * time.Second` for a positive `n`: a signed 64-bit product, which wraps around.
abbrev pub nanoseconds : ℕ → ℤ
nanoseconds n = signed ((n * 1000000000) % 2 ^ 64)

-- `PollInterval` and `PullInterval`, which differ in the default.
unfoldable pub interval : ℕ → ℤ → ℤ
interval default (pos zero) = nanoseconds default
interval default (pos (suc n)) = nanoseconds (suc n)
interval default (negsuc n) = nanoseconds default

abbrev pub poll_interval : DockerConfig → ℤ
poll_interval d = interval default_docker_poll_seconds d.poll_interval_seconds

abbrev pub pull_interval : Config → ℤ
pull_interval c = interval default_pull_seconds c.pull_interval_seconds

abbrev pub eq_bool : Bool → Bool → Bool
eq_bool true b = b
eq_bool false b = not b

abbrev pub eq_ℤ : ℤ → ℤ → Bool
eq_ℤ (pos a) (pos b) = a == b
eq_ℤ (negsuc a) (negsuc b) = a == b
eq_ℤ (pos a) (negsuc b) = false
eq_ℤ (negsuc a) (pos b) = false

-- `Equal`
unfoldable pub equal : DockerConfig → DockerConfig → Bool
unfolding interval
equal d other =
    eq_bool (is_enabled d) (is_enabled other)
    && (text_eq (socket_path d) (socket_path other)
        && (text_eq d.network other.network && eq_ℤ (poll_interval d) (poll_interval other)))

-- What `Validate` reports.
pub data ConfigError : Type 0 where
  no_node_id : ConfigError
  no_control : ConfigError
  bad_listener : Text → Text → ConfigError
  bad_service_name : NameError → ConfigError
  service_without_address : Text → ConfigError
  service_with_bad_port : Text → ℤ → ConfigError
  declared_twice : Text → ConfigError
  negative_pull_interval : ConfigError
  negative_poll_interval : ConfigError
  bad_node : Text → ConfigError
  bad_node_port : Text → ConfigError

pub data Checked {ℓ} (A : Type ℓ) : Type ℓ where
  passed : A → Checked A
  failed : ConfigError → Checked A

infixl 5 ◌>>=◌
abbrev pub ◌>>=◌ {ℓ κ} : {A : Type ℓ} {B : Type κ} → Checked A → (A → Checked B) → Checked B
passed a >>= f = f a
failed e >>= f = failed e

abbrev pub refuse_if : Bool → ConfigError → Checked (Unit {0})
refuse_if true e = failed e
refuse_if false e = passed tt

-- The loop over the listen addresses, at one of them.
unfoldable pub check_listener : Text → Text → Checked (Unit {0})
unfolding split_host_port
check_listener field value =
    refuse_if (not (is_empty value) && not (is_some (split_host_port value)))
      (bad_listener field value)

-- The guards of the loop over the nodes.
unfoldable pub check_node : Text → Checked (Unit {0})
unfolding split_host_port atoi
check_node endpoint = elim (split_host_port endpoint) [
  | none ↦ failed (bad_node endpoint)
  | some p ↦
      if is_empty p.0
      then failed (bad_node endpoint)
      else refuse_if (not (is_some (atoi p.1))) (bad_node_port endpoint)
]

unfoldable pub check_nodes : List Text → Checked (Unit {0})
unfolding check_node
check_nodes [] = passed tt
check_nodes (endpoint ∷ endpoints) = do _ ← check_node endpoint; check_nodes endpoints

module _ (u : Unicode) where
  -- The guards of the loop over the services, on a service whose name is normalized already.
  unfoldable pub service_refusal : Map Bool → Service → Option ConfigError
  unfolding bad_port
  service_refusal seen svc = elim (validate_name u svc.name) [
    | some e ↦ some (bad_service_name e)
    | none ↦
        if is_empty svc.address
        then some (service_without_address svc.name)
        else if bad_port svc.port
        then some (service_with_bad_port svc.name svc.port)
        else if is_some (get seen svc.name)
        then some (declared_twice svc.name)
        else none
  ]

  abbrev pub with_service : Service → Checked (List Service) → Checked (List Service)
  with_service svc (passed services) = passed (svc ∷ services)
  with_service svc (failed e) = failed e

  -- The loop over the services, which stops at the first problem. `seen` maps names to true only.
  unfoldable pub check_services : Map Bool → List Service → Checked (List Service)
  unfolding service_refusal
  check_services seen [] = passed []
  check_services seen (svc ∷ services) =
      let named = record svc { name = normalize_name u svc.name } in
      let rest = check_services (put seen named.name true) services in
      elim (service_refusal seen named) [
        | some e ↦ failed e
        | none ↦ with_service (record named { source = source_config }) rest
      ]

  -- `Validate`: the configuration that it leaves, or the first problem.
  unfoldable pub validate : Config → Checked Config
  unfolding check_listener check_services check_nodes
  validate c = do
    _ ← refuse_if (is_empty c.node.id) no_node_id
    _ ← refuse_if (is_empty c.listen.control) no_control
    _ ← check_listener (bytes "listen.dns") c.listen.dns
    _ ← check_listener (bytes "listen.http") c.listen.http
    _ ← check_listener (bytes "listen.peer") c.listen.peer
    services ← check_services [] c.services
    _ ← refuse_if (not (leb_ℤ (pos 0) c.pull_interval_seconds)) negative_pull_interval
    _ ← refuse_if (not (leb_ℤ (pos 0) c.docker.poll_interval_seconds)) negative_poll_interval
    _ ← check_nodes c.nodes
    passed (record c { services = services })

-- `defaultNodeID`, on the runes of the host name.
unfoldable pub id_rune : ℕ → ℕ
id_rune r =
    if (leb b'a' r && leb r b'z') || ((leb b'0' r && leb r b'9') || (r == b'-'))
    then r
    else if leb b'A' r && leb r b'Z'
    then r + 32
    else b'-'

-- `strings.TrimLeft(s, "-")`
unfoldable pub trim_hyphens : Text → Text
trim_hyphens [] = []
trim_hyphens (c ∷ s) = let rest = trim_hyphens s in if c == b'-' then rest else c ∷ s

unfoldable pub default_node_id : List ℕ → Text
unfolding id_rune trim_hyphens
default_node_id host =
    let id = reverse (trim_hyphens (reverse (trim_hyphens (map id_rune host)))) in
    if is_empty id then bytes "corenet" else id
