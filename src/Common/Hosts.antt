-- ===== src/Common/Hosts.antt =====
-- Go's net.SplitHostPort and net.JoinHostPort. Callers only ask whether an address splits, so an
-- error is `none`.
use Prim.Native.Nat.{ℕ, ◌+◌}
use mathlib.Core.Bool.{Bool, false, not, ◌||◌}
use mathlib.Core.Option.{Option, none, some}
use mathlib.Core.List.{[], ◌∷◌, ◌++◌}
use corenet.Common.Tests.{if◌then◌else◌, ◌==◌}
use corenet.Common.Lists.{length, drop}
use corenet.Common.Bytes.{Text}

-- Whether a byte occurs.
unfoldable pub contains : ℕ → Text → Bool
contains d [] = false
contains d (c ∷ s) = (c == d) || contains d s

-- What stands before and after the first occurrence of a byte.
unfoldable pub cut : ℕ → Text → Option (Text × Text)
cut d [] = none
cut d (c ∷ s) =
    let rest = cut d s in
    if c == d then some ([], s) else elim rest [ some p ↦ some (c ∷ p.0, p.1) | none ↦ none ]

-- What stands before and after the last occurrence of a byte.
unfoldable pub cut_last : ℕ → Text → Option (Text × Text)
cut_last d [] = none
cut_last d (c ∷ s) =
    let rest = cut_last d s in
    elim rest [ some p ↦ some (c ∷ p.0, p.1) | none ↦ if c == d then some ([], s) else none ]

-- An address in brackets: the first "]" must stand right before the last ":".
unfoldable pub split_bracketed : Text → Text → Text → Option (Text × Text)
unfolding cut contains
split_bracketed hostport front port = elim (cut b']' hostport) [
  | none ↦ none
  | some p ↦
      if not (length p.0 + 1 == length front)
        || contains b'[' (drop 1 hostport)
        || contains b']' p.1
      then none
      else some (drop 1 p.0, port)
]

unfoldable pub split_plain : Text → Text → Text → Option (Text × Text)
unfolding contains
split_plain hostport front port =
    if contains b':' front || contains b'[' hostport || contains b']' hostport
    then none
    else some (front, port)

abbrev pub starts_with : ℕ → Text → Bool
starts_with d [] = false
starts_with d (c ∷ s) = c == d

-- `net.SplitHostPort`
unfoldable pub split_host_port : Text → Option (Text × Text)
unfolding cut_last split_bracketed split_plain
split_host_port hostport = elim (cut_last b':' hostport) [
  | none ↦ none
  | some p ↦
      if starts_with b'[' hostport
      then split_bracketed hostport p.0 p.1
      else split_plain hostport p.0 p.1
]

-- `net.JoinHostPort`
unfoldable pub join_host_port : Text → Text → Text
unfolding contains
join_host_port host port =
    if contains b':' host then b'[' ∷ (host ++ (b']' ∷ b':' ∷ port)) else host ++ (b':' ∷ port)
