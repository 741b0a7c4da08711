-- ===== src/Commands/Client/Tests.antt =====
-- Witnesses and tests for the command line client.
use corenet.Common.{
  bytes, ◌≡◌, ◌≢◌, refl, All, true, false, List, [], ◌∷◌, none, some, contains, text_eq,
  join_host_port, plain_unicode, atoi,
}
use corenet.Protocol.{Status}
use corenet.Config.{Config}
use corenet.Commands.Corenetd.Tests.{bare}
use corenet.Commands.Client.Options.{token, positional, no_fuel, failed, needs_argument, parse_args}
use corenet.Commands.Client.Parsing.{
  Item, IsWord, a_word, a_socket, a_json, render, words_of, parse_args_lem,
}
use corenet.Commands.Client.Requests.{Wire, answered, value, not_json, invalid_port}
use corenet.Commands.Client.Showing.{Shell, error, zero_status, duration_text}
use corenet.Commands.Client.Files.{Files, WriteCalls}
use corenet.Commands.Client.Connecting.{drop_in_path, drop_in_server, is_unspecified, Host, connect}
use corenet.Commands.Client.Resolver.{found_at, drop_in_server_lem}
use corenet.Commands.Client.Dispatch.{no_options, run}

-- corenet --json service --socket /tmp/a list --socket /tmp/b
abbrev items : List Item
items =
    a_json
    ∷ a_word (bytes "service")
    ∷ a_socket (bytes "/tmp/a")
    ∷ a_word (bytes "list")
    ∷ a_socket (bytes "/tmp/b")
    ∷ []

plain_words : All IsWord (words_of items)
unfolding IsWord token
plain_words = (refl, (refl, tt))

parse_args_lem_example :
    (parse_args no_options (bytes "--config" ∷ []) ≢ no_fuel)
    × (parse_args no_options (render items)
        ≡ positional
            (bytes "service" ∷ bytes "list" ∷ [])
            (record { config = []; socket = bytes "/tmp/b"; json = true }))
parse_args_lem_example = parse_args_lem no_options (bytes "--config" ∷ []) items plain_words

-- An option that wants a value is refused without one.
no_value :
    parse_args no_options (bytes "node" ∷ bytes "--config" ∷ [])
    ≡ failed (needs_argument (bytes "config"))
unfolding parse_args
no_value = refl

-- A write that fails after 9 bytes.
abbrev disk_full : WriteCalls
disk_full = record {
  temporary = bytes "/etc/systemd/resolved.conf.d/.corenet-1";
  make_directory = none;
  create = none;
  write = some (bytes "no space left on device");
  written = 9;
  close = none;
  chmod = none;
  rename = none;
}

abbrev before : Files
before =
    (drop_in_path, record { content = bytes "old"; mode = 420 })
    ∷ (bytes "/etc/hosts", record { content = []; mode = 420 })
    ∷ []

-- A daemon whose DNS listener is on all addresses.
abbrev serving : Status
serving = record zero_status {
  listeners = record zero_status.listeners { dns = bytes "0.0.0.0:5353" };
}

-- The daemon answers every request, and nothing decodes but a status.
abbrev wire : Wire
wire = record {
  exchange = λ socket method path payload.
      answered (record { code = 200; status = bytes "200 OK"; body = bytes "{}" });
  encode_service = λ s. bytes "{}";
  error_message = λ s. none;
  decode_status = λ s. value serving;
  decode_services = λ s. not_json (bytes "unexpected end");
  decode_service = λ s. not_json (bytes "unexpected end");
  decode_nodes = λ s. not_json (bytes "unexpected end");
  decode_node = λ s. not_json (bytes "unexpected end");
}

abbrev shell : Shell
shell = record { machine = bare; wire = wire; local_time = λ t. bytes "now"; resolving = false }

abbrev host : Host
host = record {
  is_root = true;
  resolver_active = true;
  restart = none;
  remove_file = none;
  write_calls = record disk_full { write = none };
  files = before;
}

-- Without root nothing is asked or written.
not_root : (connect plain_unicode shell no_options (record host { is_root = false })).1 ≡ before
unfolding connect
not_root = refl

drop_in_server_lem_example :
    (found_at (drop_in_server (bytes "0.0.0.0:5353")) ≡ (bytes "127.0.0.1", bytes "5353"))
    × (is_unspecified (bytes "127.0.0.1") ≡ false)
unfolding join_host_port contains is_unspecified text_eq
drop_in_server_lem_example =
    drop_in_server_lem (bytes "0.0.0.0") (bytes "5353") (record { opening = refl; closing = refl })
      refl (record { opening = refl; closing = refl }) refl

-- A port that is no number is refused before anything is sent.
no_number :
    (run plain_unicode shell host
      (bytes "service" ∷ bytes "add" ∷ bytes "blog" ∷ bytes "10.0.0.1" ∷ bytes "http" ∷ [])).0
    ≡ error [] (invalid_port (bytes "http"))
unfolding run atoi
no_number = refl

-- How long the daemon has been up.
ninety_minutes : duration_text 5405 ≡ bytes "1h30m5s"
unfolding duration_text
ninety_minutes = refl
