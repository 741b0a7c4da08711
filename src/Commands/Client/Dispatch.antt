-- ===== src/Commands/Client/Dispatch.antt =====
-- run of cmd/corenet/main.go: which command the arguments ask for.
use corenet.Common.{
  ℕ, Text, bytes, false, ◌||◌, List, [], ◌∷◌, ◌++◌, text_eq, if◌then◌else◌, Unicode,
}
use corenet.Protocol.{version}
use corenet.Commands.Client.Options.{Options, Args, positional, failed, no_fuel, parse_args}
use corenet.Commands.Client.Requests.{flag_error, unknown_command}
use corenet.Commands.Client.Files.{Files}
use corenet.Commands.Client.Showing.{line, usage_text, Result, done, error, Shell}
use corenet.Commands.Client.Asking.{status, service, resolve, node}
use corenet.Commands.Client.Connecting.{Host, connect, disconnect}

abbrev pub no_options : Options
no_options = record { config = []; socket = []; json = false }

module _ (u : Unicode) (sh : Shell) (h : Host) where
  abbrev pub unchanged : Result → Result × Files
  unchanged r = (r, h.files)

  -- The cases of `run`.
  unfoldable pub command : Options → Text → List Text → Result × Files
  unfolding text_eq connect disconnect status service resolve node
  command opts name args =
      if text_eq name (bytes "help") || (text_eq name (bytes "-h") || text_eq name (bytes "--help"))
      then unchanged (done (usage_text ∷ []))
      else if text_eq name (bytes "version")
      then unchanged (done (line (bytes "corenet " ++ version) ∷ []))
      else if text_eq name (bytes "connect")
      then connect u sh opts h
      else if text_eq name (bytes "disconnect")
      then disconnect h
      else if text_eq name (bytes "status")
      then unchanged (status u sh opts)
      else if text_eq name (bytes "service")
      then unchanged (service u sh opts args)
      else if text_eq name (bytes "resolve")
      then unchanged (resolve u sh opts args)
      else if text_eq name (bytes "node")
      then unchanged (node u sh opts args)
      else unchanged (error [] (unknown_command name))

  -- `run`, on what parseArgs returns, which is never that it needs more rounds.
  abbrev pub run_parsed : Args → Result × Files
  unfolding command
  run_parsed (failed e) = unchanged (error [] (flag_error e))
  run_parsed no_fuel = unchanged (error [] (unknown_command []))
  run_parsed (positional [] opts) = unchanged (done (usage_text ∷ []))
  run_parsed (positional (name ∷ args) opts) = command opts name args

  -- `run`
  unfoldable pub run : List Text → Result × Files
  unfolding parse_args run_parsed
  run args = run_parsed (parse_args no_options args)

-- The status that `main` exits with.
abbrev pub exit_status : Result → ℕ
exit_status (done out) = 0
exit_status (error out e) = 1
