-- ===== src/Commands/Client/Connecting.antt =====
-- cmd/corenet/connect.go: the resolver's drop-in file, and the commands that write and remove it. systemctl
-- is an argument.
use corenet.Common.{
  ℕ, Text, bytes, Bool, false, not, ◌||◌, List, [], ◌∷◌, ◌++◌, Option, none, some, map, reverse,
  get, delete, is_empty, is_some, text_eq, split, join, split_host_port, join_host_port,
  if◌then◌else◌, Unicode, ◌==◌,
}
use corenet.Protocol.{Status, tld}
use corenet.Commands.Client.Options.{Options}
use corenet.Commands.Client.Requests
use corenet.Commands.Client.Requests.{
  ClientError, needs_root, no_dns_listener, resolver_inactive, resolver_not_restarted, not_written,
  not_removed, new_client, send,
}
use corenet.Commands.Client.Files.{Files, WriteCalls, write_file_atomic, last_files}
use corenet.Commands.Client.Showing.{Output, line, Result, done, error, Shell, zero_status}

abbrev pub drop_in_path : Text
drop_in_path = bytes "/etc/systemd/resolved.conf.d/corenet.conf"

abbrev pub newline : ℕ
newline = 10

-- The host and the port that `dropInContent` finds.
abbrev pub host_port : Text → Option (Text × Text) → Text × Text
host_port dns_addr none = (dns_addr, bytes "53")
host_port dns_addr (some p) = p

unfoldable pub is_unspecified : Text → Bool
unfolding text_eq
is_unspecified host = is_empty host || (text_eq host (bytes "0.0.0.0") || text_eq host (bytes "::"))

-- The server of `dropInContent`.
unfoldable pub drop_in_server : Text → Text
unfolding split_host_port join_host_port text_eq is_unspecified
drop_in_server dns_addr =
    let p = host_port dns_addr (split_host_port dns_addr) in
    let host = if is_unspecified p.0 then bytes "127.0.0.1" else p.0 in
    if text_eq p.1 (bytes "53") then host else join_host_port host p.1

-- `dropInContent`
unfoldable pub drop_in_content : Text → Text
unfolding drop_in_server
drop_in_content dns_addr =
    bytes "# Managed by corenet. Remove with: corenet disconnect"
    ++ (newline
        ∷ (bytes "[Resolve]"
            ++ (newline
                ∷ (bytes "DNS="
                    ++ (drop_in_server dns_addr
                        ++ (newline ∷ (bytes "Domains=~" ++ (tld ++ newline ∷ []))))))))

-- `strings.TrimLeft(s, "\n")`
abbrev pub trim_newlines : Text → Text
trim_newlines [] = []
trim_newlines (c ∷ s) = let rest = trim_newlines s in if c == 10 then rest else c ∷ s

-- `indent`
unfoldable pub indent : Text → Text → Text
unfolding split join
indent text prefix =
    join newline (map (λ l. prefix ++ l) (split newline (reverse (trim_newlines (reverse text)))))

-- `manualInstructions`
unfoldable pub manual_instructions : Text → Text
unfolding indent
manual_instructions drop_in =
    bytes "systemd-resolved is not running, so CoreNet did not change anything."
    ++ (newline
        ∷ newline
        ∷ (bytes "Point your resolver at corenetd for the ."
            ++ (tld
                ++ (bytes " domain. With systemd-resolved that is:"
                    ++ (newline
                        ∷ newline
                        ∷ (bytes "  "
                            ++ (drop_in_path
                                ++ (newline
                                    ∷ newline
                                    ∷ (indent drop_in (bytes "  ") ++ newline ∷ [])))))))))

-- The system that the commands change: whether they run as root, whether the resolver is active, what
-- restarting it and removing the file give, and the files.
pub record Host : Type 0 where
  pub is_root : Bool
  pub resolver_active : Bool
  pub restart : Option Text
  pub remove_file : Option Text
  pub write_calls : WriteCalls
  pub files : Files

-- `restartResolved`
abbrev pub restarted : Host → Result → Result
restarted h result = elim h.restart [ none ↦ result | some e ↦ error [] (resolver_not_restarted e) ]

abbrev pub connected_lines : Status → List Output
connected_lines st =
    line (bytes "connected: .core resolves through " ++ st.listeners.dns)
    ∷ line (bytes "wrote " ++ drop_in_path)
    ∷ (if st.services == 0
        then line (bytes "no services are registered yet (try: corenet service add ...)") ∷ []
        else [])

-- The end of `connect`, on the status: how it ends, and the files it leaves.
unfoldable pub connect_to : Host → Status → Result × Files
unfolding drop_in_content manual_instructions write_file_atomic
connect_to h st =
    let drop_in = drop_in_content st.listeners.dns in
    let out = write_file_atomic h.write_calls drop_in_path drop_in 420 h.files in
    let left = last_files h.files out.states in
    if is_empty st.listeners.dns
    then (error [] no_dns_listener, h.files)
    else if not h.resolver_active
    then (error (line (manual_instructions drop_in) ∷ []) resolver_inactive, h.files)
    else elim out.error [
      | some e ↦ (error [] (not_written e), left)
      | none ↦ (restarted h (done (connected_lines st)), left)
    ]

-- What `connect` makes of the answer to its request.
unfoldable pub on_status : Shell → Host → Requests.Answer → Result × Files
unfolding connect_to
on_status sh h (Requests.printed text) = (done (line text ∷ []), h.files)
on_status sh h (Requests.failed e) = (error [] e, h.files)
on_status sh h (Requests.received body) =
    if is_empty body then connect_to h zero_status else elim (sh.wire.decode_status body) [
      | Requests.value st ↦ connect_to h st
      | Requests.not_json e ↦ (error [] (Requests.bad_answer e), h.files)
    ]

module _ (u : Unicode) where
  -- `connect`
  unfoldable pub connect : Shell → Options → Host → Result × Files
  unfolding new_client send on_status
  connect sh opts h =
      if not h.is_root
      then (error [] (needs_root (bytes "connect")), h.files)
      else elim (new_client u sh.machine opts) [
        | Requests.no_client e ↦ (error [] e, h.files)
        | Requests.to_socket socket ↦
            on_status sh h (send u sh.wire socket Requests.get (bytes "/v1/status") none false)
      ]

-- `disconnect`
unfoldable pub disconnect : Host → Result × Files
unfolding delete
disconnect h =
    let left = delete h.files drop_in_path in
    let gone = done (line (bytes "disconnected: removed " ++ drop_in_path) ∷ []) in
    if not h.is_root
    then (error [] (needs_root (bytes "disconnect")), h.files)
    else if not (is_some (get h.files drop_in_path))
    then (done (line (bytes "not connected") ∷ []), h.files)
    else elim h.remove_file [
      | some e ↦ (error [] (not_removed e), h.files)
      | none ↦ (if h.resolver_active then restarted h gone else gone, left)
    ]
