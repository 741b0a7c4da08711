-- ===== src/Commands/Client/Connected.antt =====
-- What `connect` and `disconnect` of cmd/corenet/connect.go do to the system's files.
use corenet.Common.{Text, ◌≡◌, ◌≢◌, ◌⊎◌, Bool, true, false, [], some, get}
use corenet.Commands.Client.Options.{Options}
use corenet.Commands.Client.Requests.{Answer, printed, received, failed}
use corenet.Commands.Client.Files.{File, Files}
use corenet.Commands.Client.Showing.{Result, done, error}
use corenet.Commands.Client.Connecting.{drop_in_path, drop_in_content}

abbrev pub is_done : Result → Bool
is_done (done out) = true
is_done (error out e) = false

-- The drop-in file for a DNS listener.
abbrev pub drop_in : Text → File
unfolding drop_in_content
drop_in dns = record { content = drop_in_content dns; mode = 420 }

-- What a command that connects leaves: other files are as they were, and the drop-in file is as it was, after
-- an error, or whole, on a system whose resolver was active and where the command ran as root.
pub record IsConnection (files : Files) (active : Bool) (out : Result × Files) : Type 0 where
  pub others : (p : Text) → p ≢ drop_in_path → get out.1 p ≡ get files p
  pub drop_in_file :
      ((get out.1 drop_in_path ≡ get files drop_in_path) × (is_done out.0 ≡ false))
      ⊎ ((dns : Text) × (dns ≢ [])
          × (get out.1 drop_in_path ≡ some (drop_in dns))
          × (active ≡ true))

abbrev is_printed : Answer → Bool
is_printed (printed text) = true
is_printed (received body) = false
is_printed (failed e) = false
