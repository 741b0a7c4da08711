-- ===== src/Config/Loading.antt =====
-- `Default` and `Load` of internal/config/config.go: where a configuration comes from. The machine is an
-- argument: its host name, the user's home directory, and what reading a file gives. So is json.Unmarshal.
pub mod Search
use corenet.Common.{
  Text, bytes, pos, Bool, true, false, List, [], ◌∷◌, Option, none, some, is_empty, runes,
  join_path, if◌then◌else◌, Unicode,
}
use corenet.Config.{Config, ConfigError, Checked, passed, failed, default_node_id, validate}

abbrev pub system_path : Text
system_path = bytes "/etc/corenet/config.json"

abbrev pub user_path : Text
user_path = bytes ".corenet/config.json"

abbrev pub default_dns_addr : Text
default_dns_addr = bytes "127.0.0.1:53"

abbrev pub default_http_addr : Text
default_http_addr = bytes "127.0.0.1:80"

abbrev pub default_control_path : Text
default_control_path = bytes "/run/corenet/corenetd.sock"

-- What os.ReadFile gives: `missing` is the error that os.IsNotExist tells from the others.
pub data File : Type 0 where
  missing : File
  unreadable : Text → File
  contents : Text → File

-- What json.Unmarshal makes of a text and the value it decodes into.
pub data Decoded : Type 0 where
  decoded : Config → Decoded
  malformed : Text → Decoded

-- `host_name` is os.Hostname, `home` is os.UserHomeDir; none is an error.
pub record Machine : Type 0 where
  pub host_name : Option Text
  pub home : Option Text
  pub read_file : Text → File
  pub unmarshal : Text → Config → Decoded

pub data LoadError : Type 0 where
  no_such_file : Text → LoadError
  read_failed : Text → Text → LoadError
  not_json : Text → Text → LoadError
  invalid : Text → ConfigError → LoadError
  invalid_defaults : ConfigError → LoadError

pub data Loaded : Type 0 where
  loaded : Config → Loaded
  not_loaded : LoadError → Loaded

-- os.IsNotExist of what `Load` returns. It does not look into an error that wraps another.
abbrev pub is_not_exist : LoadError → Bool
is_not_exist (no_such_file path) = true
is_not_exist (read_failed path e) = false
is_not_exist (not_json path e) = false
is_not_exist (invalid path e) = false
is_not_exist (invalid_defaults e) = false

abbrev pub host_or_corenet : Option Text → Text
host_or_corenet none = bytes "corenet"
host_or_corenet (some host) = if is_empty host then bytes "corenet" else host

-- `Default`
unfoldable pub default_config : Machine → Config
unfolding default_node_id runes
default_config m =
    let host = host_or_corenet m.host_name in
    record {
      node = record { id = default_node_id (runes host); name = host };
      listen = record {
        dns = default_dns_addr;
        http = default_http_addr;
        peer = [];
        control = default_control_path;
      };
      services = [];
      nodes = [];
      pull_interval_seconds = pos 0;
      docker = record { enabled = none; socket = []; network = []; poll_interval_seconds = pos 0 };
      path = [];
    }

-- `searchPaths`
unfoldable pub search_paths : Machine → List Text
unfolding join_path
search_paths m = system_path ∷ elim m.home [ none ↦ [] | some home ↦ join_path home user_path ∷ [] ]

module _ (u : Unicode) (m : Machine) where
  -- The end of `loadFile`, on what `Validate` gave.
  abbrev pub accept : Text → Checked Config → Loaded
  accept path (passed cfg) = loaded cfg
  accept path (failed e) = not_loaded (invalid path e)

  abbrev pub load_decoded : Text → Decoded → Loaded
  load_decoded path (malformed e) = not_loaded (not_json path e)
  load_decoded path (decoded cfg) = accept path (validate u (record cfg { path = path }))

  -- The configuration that a file is decoded into.
  abbrev pub prepared : Config
  unfolding default_config
  prepared = record (default_config m) { services = []; nodes = [] }

  abbrev pub load_contents : Text → File → Loaded
  load_contents path missing = not_loaded (no_such_file path)
  load_contents path (unreadable e) = not_loaded (read_failed path e)
  load_contents path (contents file) = load_decoded path (m.unmarshal file prepared)

  -- `loadFile`
  unfoldable pub load_file : Text → Loaded
  unfolding default_config validate
  load_file path = load_contents path (m.read_file path)

  -- The end of `Load`, where no file was found.
  abbrev pub load_default : Checked Config → Loaded
  load_default (passed cfg) = loaded cfg
  load_default (failed e) = not_loaded (invalid_defaults e)

  abbrev pub unless_missing : Loaded → Loaded → Loaded
  unless_missing (loaded cfg) next = loaded cfg
  unless_missing (not_loaded e) next = if is_not_exist e then next else not_loaded e

  -- The loop of `Load` over the candidates.
  unfoldable pub load_candidates : List Text → Loaded
  unfolding default_config validate load_file
  load_candidates [] = load_default (validate u (default_config m))
  load_candidates (candidate ∷ candidates) =
      unless_missing (load_file candidate) (load_candidates candidates)

  -- `Load`
  unfoldable pub load : Text → Loaded
  unfolding load_file load_candidates search_paths
  load path = if is_empty path then load_candidates (search_paths m) else load_file path
