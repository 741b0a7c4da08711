-- ===== src/Config/Tests.antt =====
-- Witnesses for the configuration.
use corenet.Common.{
  pos, bytes, ◌≡◌, ◌≤◌, ◌*◌, arith, ◌↔◌, refl, List, [], ◌∷◌, none, map, plain_unicode, get, ◌<|>◌,
  find_by, text_eq, some, if◌then◌else◌,
}
use corenet.Protocol.{Service, source_config}
use corenet.Protocol.Names.{normalize_name, validate_name}
use corenet.Registry.{lookup, set_config_services}
use corenet.Registry.Listing.{by_name}
use corenet.Registry.Tests.{demo}
use corenet.Config.{Config, interval, default_node_id, passed, validate}
use corenet.Config.Checks.{IsValid}
use corenet.Config.Services.{own_service}
use corenet.Config.Validated.{validate-IsValid}
use corenet.Config.Loading.{
  Machine, missing, contents, decoded, malformed, not_json, loaded, not_loaded, default_config,
  load,
}
use corenet.Config.Durations.{interval_iff}
use corenet.Config.Routed.{lookup-set_config_services}

abbrev pub with_services : List Service → Config
with_services services = record {
  node = record { id = bytes "node-a"; name = bytes "Node A" };
  listen = record {
    dns = bytes "127.0.0.1:53";
    http = bytes "127.0.0.1:80";
    peer = [];
    control = bytes "/run/corenetd.sock";
  };
  services = services;
  nodes = bytes "10.0.0.2:7070" ∷ [];
  pull_interval_seconds = pos 30;
  docker = record { enabled = none; socket = []; network = []; poll_interval_seconds = pos 0 };
  path = [];
}

abbrev pub written : Service
written = record {
  name = bytes "Blog.core.";
  address = bytes "127.0.0.1";
  port = pos 8080;
  source = [];
}

abbrev pub blog : Service
blog = record written { name = bytes "blog.core"; source = source_config }

pub passes :
    validate plain_unicode (with_services (written ∷ [])) ≡ passed (with_services (blog ∷ []))
unfolding validate normalize_name validate_name get text_eq
passes = refl

validate-IsValid_example :
    IsValid (with_services (blog ∷ []))
    × (with_services (blog ∷ []) ≡ record (with_services (written ∷ [])) {
      services = map (own_service plain_unicode) (written ∷ []);
    })
    × (validate plain_unicode (with_services (blog ∷ [])) ≡ passed (with_services (blog ∷ [])))
validate-IsValid_example =
    validate-IsValid plain_unicode (with_services (written ∷ [])) (with_services (blog ∷ [])) passes

blog-IsValid : IsValid (with_services (blog ∷ []))
blog-IsValid =
    (validate-IsValid plain_unicode (with_services (written ∷ [])) (with_services (blog ∷ []))
      passes).0

lookup-set_config_services_example :
    lookup plain_unicode (set_config_services plain_unicode (blog ∷ []) demo) (bytes "blog.core")
    ≡ (get demo.runtime (normalize_name plain_unicode (bytes "blog.core"))
        <|> (find_by by_name (normalize_name plain_unicode (bytes "blog.core")) (blog ∷ [])
            <|> lookup plain_unicode
                (record demo { runtime = []; config = [] })
                (bytes "blog.core")))
lookup-set_config_services_example =
    lookup-set_config_services plain_unicode (with_services (blog ∷ [])) demo (bytes "blog.core")
      blog-IsValid

-- The node ID of a host whose name is no label.
my_host : default_node_id (bytes "-My_Host.local-") ≡ bytes "my-host-local"
unfolding default_node_id
my_host = refl

interval_iff_example :
    (interval 5 (pos 9223372037) ≡ pos (9223372037 * 1000000000)) ↔ (9223372037 ≤ 9223372036)
interval_iff_example = interval_iff 5 9223372037 (omega arith)

-- A machine with a broken configuration file in the user's directory; every file with the text "{}" decodes to
-- the defaults.
abbrev pub machine : Machine
machine = record {
  host_name = some (bytes "My_Host");
  home = some (bytes "/home/ann/");
  read_file = λ path.
      if text_eq path (bytes "/home/ann/.corenet/config.json")
      then contents (bytes "{")
      else missing;
  unmarshal =
      λ file c. if text_eq file (bytes "{}") then decoded c else malformed (bytes "unexpected end");
}

-- The configuration of the file at a path that is given.
abbrev found : Config
unfolding default_config
found = record (default_config machine) { path = bytes "/tmp/c.json" }

abbrev with_file : Machine
with_file = record machine {
  read_file = λ path. if text_eq path (bytes "/tmp/c.json") then contents (bytes "{}") else missing;
}

-- The broken file is reported, though the defaults would do.
broken_file :
    load plain_unicode machine []
    ≡ not_loaded (not_json (bytes "/home/ann/.corenet/config.json") (bytes "unexpected end"))
unfolding load text_eq
broken_file = refl

-- A machine without any file.
bare_machine :
    load plain_unicode (record machine { read_file = λ path. missing }) []
    ≡ loaded (record (with_services []) {
      node = record { id = bytes "my-host"; name = bytes "My_Host" };
      listen = record {
        dns = bytes "127.0.0.1:53";
        http = bytes "127.0.0.1:80";
        peer = [];
        control = bytes "/run/corenet/corenetd.sock";
      };
      nodes = [];
      pull_interval_seconds = pos 0;
    })
unfolding load
bare_machine = refl
