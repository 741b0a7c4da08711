-- ===== src/Discovery/Polling.antt =====
-- internal/discovery/discovery.go: the loop that keeps the registry's Docker tier in step with the
-- running containers, with listContainers of internal/discovery/docker.go. The response of Docker is an
-- argument, and so is the wording of a refusal, by which `skipped` is compared.
pub mod Claims
pub mod Effect
pub mod Split
pub mod Stored
pub mod Listed
mod Tests
use corenet.Common.{
  ℕ, Text, bytes, Bool, ◌&&◌, ◌||◌, not, true, false, List, [], ◌∷◌, ◌++◌, Option, none, some,
  Unicode, Map, get, put, delete, keys, values, ltb, length, is_empty, is_some, text_eq, sort_by,
  if◌then◌else◌, decimal, join, take, ◌==◌, HttpAnswer, no_answer, replied,
}
use corenet.Protocol.{Service, Conflict}
use corenet.Registry.{Registry, set_docker}
use corenet.Discovery.Container.{
  Container, container_name, Refusal, skip, Made, made, refused, service, or_empty,
}

-- The lines that the loop logs.
pub data LogLine : Type 0 where
  unavailable : Text → LogLine
  available_again : LogLine
  ignoring : Text → Text → LogLine
  not_routed : Text → Text → LogLine
  no_longer_in_conflict : Text → LogLine

-- `Docker`, without its client, interval and logger, with what it has logged and the registry that it
-- writes to. `conflicted` holds only names that are mapped to true.
pub record Docker : Type 0 where
  pub network : Text
  pub available : Bool
  pub skipped : Map Text
  pub conflicted : Map Bool
  pub log : List LogLine
  pub store : Registry

-- `NewDocker`
abbrev pub new_docker : Registry → Text → Docker
new_docker store network = record {
  network = network;
  available = true;
  skipped = [];
  conflicted = [];
  log = [];
  store = store;
}

-- `reportSkip`
unfoldable pub report_skip : Text → Text → Docker → Docker
unfolding text_eq
report_skip container cause d =
    if text_eq (or_empty (get d.skipped container)) cause then d else record d {
      skipped = put d.skipped container cause;
      log = d.log ++ ignoring container cause ∷ [];
    }

-- `forgetSkips`, over the entries of `skipped`.
unfoldable pub forget_skips : Map Text → Map Text → Map Text
forget_skips seen [] = []
forget_skips seen ((container, cause) ∷ skipped) =
    let rest = forget_skips seen skipped in
    if is_some (get seen container) then rest else (container, cause) ∷ rest

-- The maps that the first loop of `convert` fills.
pub record Found : Type 0 where
  pub claimed : Map (List Text)
  pub services : Map Service
  pub seen : Map Text

abbrev pub nothing_found : Found
nothing_found = record { claimed = []; services = []; seen = [] }

abbrev pub or_nil : Option (List Text) → List Text
or_nil none = []
or_nil (some names) = names

abbrev pub claim : Text → Service → Found → Found
claim container svc f = record {
  claimed = put f.claimed svc.name (or_nil (get f.claimed svc.name) ++ container ∷ []);
  services = put f.services svc.name svc;
  seen = put f.seen container svc.name;
}

-- `fmt.Sprintf("claimed by %d Docker containers: %v", len(owners), owners)`
unfoldable pub reason : List Text → Text
unfolding decimal join
reason owners =
    bytes "claimed by "
    ++ (decimal (length owners)
        ++ (bytes " Docker containers: [" ++ (join b' ' owners ++ bytes "]")))

abbrev pub contested : Text → List Text → Conflict
contested name owners = record { name = name; reason = reason (sort_by (λ o. o) owners) }

-- The second loop of `convert`, over `claimed`.
unfoldable pub take_conflicts :
    Map (List Text) → Map Service → List Conflict → Map Service × List Conflict
take_conflicts [] services cs = (services, cs)
take_conflicts ((name, owners) ∷ claimed) services cs =
    let lone = ltb (length owners) 2 in
    take_conflicts claimed (if lone then services else delete services name)
      (if lone then cs else cs ++ contested name owners ∷ [])

-- The first loop of `reportConflicts`.
unfoldable pub note_conflicts :
    List Conflict → Map Bool → Map Bool → List LogLine → Map Bool × List LogLine
note_conflicts [] old current log = (current, log)
note_conflicts (c ∷ cs) old current log =
    note_conflicts cs old (put current c.name true)
      (if is_some (get old c.name) then log else log ++ not_routed c.name c.reason ∷ [])

-- The second loop of `reportConflicts`, over the names that were in conflict.
unfoldable pub note_cleared : Map Bool → Map Bool → List LogLine → List LogLine
note_cleared [] current log = log
note_cleared ((name, b) ∷ old) current log =
    note_cleared old current
      (if is_some (get current name) then log else log ++ no_longer_in_conflict name ∷ [])

-- `reportConflicts`
unfoldable pub report_conflicts : List Conflict → Docker → Docker
unfolding note_conflicts note_cleared
report_conflicts cs d =
    let noted = note_conflicts cs d.conflicted [] d.log in
    record d { conflicted = noted.0; log = note_cleared d.conflicted noted.0 noted.1 }

-- What the request for the running containers gave.
pub data Listing : Type 0 where
  containers : List Container → Listing
  failure : Text → Listing

-- `listContainers`, where `decode` is the decoding of at most 8 MiB of a response.
unfoldable pub list_containers : (Text → Listing) → HttpAnswer → Listing
list_containers decode (no_answer e) = failure e
list_containers decode (replied r) =
    if r.code == 200
    then decode (take 8388608 r.body)
    else failure (bytes "docker returned " ++ r.status)

module _ (u : Unicode) (wording : Refusal → Text) where
  abbrev pub scan_made : Text → Made Service → Found → Docker → Found × Docker
  scan_made container (made svc) f d = (claim container svc f, d)
  scan_made container (refused skip) f d = (f, d)
  scan_made container (refused e) f d = (f, report_skip container (wording e) d)

  -- The first loop of `convert`.
  unfoldable pub scan : List Container → Found → Docker → Found × Docker
  unfolding service report_skip container_name
  scan [] f d = (f, d)
  scan (c ∷ cs) f d =
      let next = scan_made (container_name c) (service u c d.network) f d in scan cs next.0 next.1

  -- `convert`
  unfoldable pub convert : List Container → Docker → (List Service × List Conflict) × Docker
  unfolding scan forget_skips take_conflicts report_conflicts
  convert cs d =
      let scanned = scan cs nothing_found d in
      let f = scanned.0 in
      let quiet = record (scanned.1) { skipped = forget_skips f.seen scanned.1.skipped } in
      let split = take_conflicts f.claimed f.services [] in
      let services = sort_by (λ s. s.name) (values split.0) in
      let conflicts = sort_by (λ c. c.name) split.1 in
      ((services, conflicts), report_conflicts conflicts quiet)

  -- `Poll`
  unfoldable pub poll : Listing → Docker → Docker
  unfolding convert
  poll (failure e) d =
      if d.available
      then record d {
        available = false;
        log = d.log ++ unavailable e ∷ [];
        store = set_docker u [] [] d.store;
      }
      else d
  poll (containers cs) d =
      let ready = record d {
        available = true;
        log = if d.available then d.log else d.log ++ available_again ∷ [];
      } in
      let converted = convert cs ready in
      record (converted.1) { store = set_docker u converted.0.0 converted.0.1 converted.1.store }

  -- `Run`, for as many ticks as there are listings until it is cancelled.
  unfoldable pub run : List Listing → Docker → Docker
  unfolding poll
  run [] d = d
  run (listing ∷ listings) d = run listings (poll listing d)
