-- ===== src/Protocol.antt =====
-- pkg/protocol/protocol.go: the wire types, and the names of the .core namespace.
pub mod Names
pub mod Labels
pub mod Grammar
pub mod Shape
pub mod Targets
mod Tests
use corenet.Common.{Text, bytes, ℤ, Bool, ℕ, List, ◌∷◌, ◌++◌, decimal_ℤ}

abbrev pub version : Text
version = bytes "0.2"

abbrev pub tld : Text
tld = bytes "core"

abbrev pub source_config : Text
source_config = bytes "config"

abbrev pub source_runtime : Text
source_runtime = bytes "runtime"

abbrev pub source_docker : Text
source_docker = bytes "docker"

pub record Service : Type 0 where
  pub name : Text
  pub address : Text
  pub port : ℤ
  pub source : Text

-- `Addr`
unfoldable pub addr : Service → Text
unfolding decimal_ℤ
addr s = s.address ++ (b':' ∷ decimal_ℤ s.port)

-- `Node`; `last_seen` is 0 where the node was never seen.
pub record Node : Type 0 where
  pub id : Text
  pub name : Text
  pub endpoint : Text
  pub is_local : Bool
  pub online : Bool
  pub services : ℕ
  pub last_seen : ℕ
  pub error : Text

pub record Listeners : Type 0 where
  pub dns : Text
  pub http : Text
  pub peer : Text
  pub control : Text

pub record Status : Type 0 where
  pub version : Text
  pub node_id : Text
  pub node_name : Text
  pub uptime : ℕ
  pub listeners : Listeners
  pub services : ℕ
  pub nodes : ℕ

pub record Info : Type 0 where
  pub version : Text
  pub node_id : Text
  pub node_name : Text
  pub services : ℕ

pub record Conflict : Type 0 where
  pub name : Text
  pub reason : Text

pub record ServiceList : Type 0 where
  pub services : List Service
  pub conflicts : List Conflict
