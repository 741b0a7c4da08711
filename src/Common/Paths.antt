-- ===== src/Common/Paths.antt =====
-- The functions of Go's package `path/filepath` that the program calls, on a Unix system.
use mathlib.Core.Bool.{Bool, ◌||◌}
use mathlib.Core.Option.{none, some}
use mathlib.Core.List.{List, [], ◌∷◌, ◌++◌, reverse}
use corenet.Common.Tests.{if◌then◌else◌}
use corenet.Common.Bytes.{Text, bytes, text_eq}
use corenet.Common.Strings.{is_empty, split, join}
use corenet.Common.Hosts.{starts_with, cut_last}

-- What a ".." does to the elements before it, the last of which comes first.
abbrev go_up : Bool → List Text → List Text
unfolding text_eq
go_up rooted [] = if rooted then [] else bytes ".." ∷ []
go_up rooted (p ∷ ps) = if text_eq p (bytes "..") then bytes ".." ∷ p ∷ ps else ps

-- The elements that are left, the last of which comes first.
unfoldable clean_parts : Bool → List Text → List Text → List Text
unfolding text_eq
clean_parts rooted done [] = done
clean_parts rooted done (p ∷ ps) =
    clean_parts rooted
      (if is_empty p || text_eq p (bytes ".")
        then done
        else if text_eq p (bytes "..")
        then go_up rooted done
        else p ∷ done)
      ps

-- `filepath.Clean`
unfoldable pub clean : Text → Text
unfolding clean_parts split join
clean path =
    let rooted = starts_with b'/' path in
    let whole = join b'/' (reverse (clean_parts rooted [] (split b'/' path))) in
    if rooted then b'/' ∷ whole else if is_empty whole then bytes "." else whole

-- `filepath.Join` of two elements
unfoldable pub join_path : Text → Text → Text
unfolding clean
join_path first second =
    if is_empty first
    then if is_empty second then [] else clean second
    else if is_empty second
    then clean first
    else clean (first ++ (b'/' ∷ second))

-- `filepath.Dir`
unfoldable pub dir_path : Text → Text
unfolding clean cut_last
dir_path path = elim (cut_last b'/' path) [ none ↦ bytes "." | some p ↦ clean (p.0 ++ b'/' ∷ []) ]
