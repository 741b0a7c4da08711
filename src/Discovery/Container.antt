-- ===== src/Discovery/Container.antt =====
-- internal/discovery/docker.go: what a container says about itself, and the service that it makes. The
-- request to the Docker socket stands with the polling.
pub mod Address
pub mod Usable
use corenet.Common.{
  ℕ, Text, ℤ, bytes, Bool, ◌&&◌, ◌||◌, not, true, false, List, [], ◌∷◌, Option, none, some, Unicode,
  Map, get, keys, ltb, length, take, is_empty, is_some, text_eq, sort_by, if◌then◌else◌, atoi,
}
use corenet.Protocol.{Service, source_docker}
use corenet.Protocol.Names.{NameError, normalize_name, validate_name}
use corenet.Registry.{bad_port}

abbrev pub label_name : Text
label_name = bytes "corenet.name"

abbrev pub label_service : Text
label_service = bytes "corenet.service"

abbrev pub label_port : Text
label_port = bytes "corenet.port"

abbrev pub service_http : Text
service_http = bytes "http"

-- `container`; `networks` goes from a network's name to the container's address on it.
pub record Container : Type 0 where
  pub id : Text
  pub names : List Text
  pub state : Text
  pub labels : Map Text
  pub networks : Map Text

abbrev short_id : Text → Text
short_id id = if ltb 12 (length id) then take 12 id else id

-- `name`
unfoldable pub container_name : Container → Text
container_name c = elim c.names [
  | [] ↦ short_id c.id
  | n ∷ ns ↦ elim n [
    | [] ↦ short_id c.id
    | slash ∷ rest ↦ if is_empty rest then short_id c.id else rest
  ]
]

-- Why a container makes no service. The first is `errSkip`.
pub data Refusal : Type 0 where
  skip : Refusal
  bad_name : NameError → Refusal
  no_label : Text → Refusal
  unsupported : Text → Refusal
  invalid_port : Text → Refusal
  no_address_on : Text → Refusal
  no_reachable_address : Refusal

pub data Made {ℓ} (A : Type ℓ) : Type ℓ where
  made : A → Made A
  refused : Refusal → Made A

infixl 5 ◌>>=◌
abbrev pub ◌>>=◌ {ℓ κ} : {A : Type ℓ} {B : Type κ} → Made A → (A → Made B) → Made B
made a >>= f = f a
refused e >>= f = refused e

-- `m[k]` of a map of strings.
abbrev pub or_empty : Option Text → Text
or_empty none = []
or_empty (some s) = s

-- The loop of `address` over the sorted network names.
unfoldable pub first_address : Map Text → List Text → Made Text
first_address networks [] = refused no_reachable_address
first_address networks (name ∷ names) =
    let ip = or_empty (get networks name) in
    let rest = first_address networks names in if is_empty ip then rest else made ip

-- `address`
unfoldable pub address : Container → Text → Made Text
unfolding first_address
address c preferred =
    let ip = or_empty (get c.networks preferred) in
    let any = first_address c.networks (sort_by (λ n. n) (keys c.networks)) in
    if is_empty preferred
    then any
    else if is_empty ip
    then refused (no_address_on preferred)
    else made ip

-- The switch of `service` over the kind of service.
unfoldable pub check_kind : Text → Made (Unit {0})
check_kind kind =
    if text_eq kind service_http
    then made tt
    else if is_empty kind
    then refused (no_label label_service)
    else refused (unsupported kind)

abbrev pub port_in_range : Text → Option ℤ → Made ℤ
port_in_range raw none = refused (invalid_port raw)
port_in_range raw (some p) = if bad_port p then refused (invalid_port raw) else made p

-- The port label of `service`.
unfoldable pub check_port : Option Text → Made ℤ
unfolding bad_port
check_port none = refused (no_label label_port)
check_port (some raw) = port_in_range raw (atoi raw)

abbrev pub check_name : Unicode → Text → Made Text
check_name u name =
    if is_empty name
    then refused skip
    else elim (validate_name u name) [ some e ↦ refused (bad_name e) | none ↦ made name ]

-- `service`
unfoldable pub service : Unicode → Container → Text → Made Service
unfolding check_kind check_port address
service u c preferred = do
  name ← check_name u (normalize_name u (or_empty (get c.labels label_name)))
  kind ← check_kind (or_empty (get c.labels label_service))
  port ← check_port (get c.labels label_port)
  ip ← address c preferred
  made (record { name = name; address = ip; port = port; source = source_docker })
