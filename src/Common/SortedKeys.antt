-- ===== src/Common/SortedKeys.antt =====
-- The sorted keys of a map, and lists of texts sorted by themselves.
use mathlib.Core.Path.{◌≡◌, refl, ap, ◌∙◌}
use mathlib.Core.Logic.{◌⊎◌}
use mathlib.Core.Bool.{true, false}
use mathlib.Core.Option.{Option, none, some}
use mathlib.Core.List.{List, [], ◌∷◌}
use native.Mathlib.Omega.{arith}
use corenet.Common.Tests.{is_some}
use corenet.Common.Bytes.{Text, text_lt, text_eq_iff}
use corenet.Common.Assoc.{Map, get, keys, IsMap}
use corenet.Common.Sorting.{find_by, sort_by, IsSorted, Above, find_by-sort_by, insert_by-IsSorted}

abbrev pub itself : Text → Text
itself id = id

module _ {V : Type 0} where
  find_by-keys : (m : Map V) (k : Text) → is_some (find_by itself k (keys m)) ≡ is_some (get m k)
  unfolding find_by get
  find_by-keys [] k = refl
  find_by-keys ((j, v) ∷ m) k = ground (arith, find_by-keys m k)

  -- A Go map's keys, sorted, are strictly sorted.
  pub keys-IsSorted : (m : Map V) → IsMap m → IsSorted itself (sort_by itself (keys m))
  unfolding sort_by
  keys-IsSorted [] h = tt
  keys-IsSorted ((k, v) ∷ m) h =
      insert_by-IsSorted itself k (sort_by itself (keys m))
        (find_by-sort_by itself k (keys m)
          ∙ absent (find_by itself k (keys m)) (find_by-keys m k ∙ ap is_some h.0))
        (keys-IsSorted m h.1)
    where
      absent : (o : Option Text) → is_some o ≡ false → o ≡ none
      absent none e = refl
      absent (some a) e = cc e

  pub find_by-sorted_keys :
      (m : Map V) (k : Text)
      → is_some (find_by itself k (sort_by itself (keys m))) ≡ is_some (get m k)
  find_by-sorted_keys m k = ap is_some (find_by-sort_by itself k (keys m)) ∙ find_by-keys m k

pub Above-lt :
    (h k : Text) (ids : List Text)
    → Above itself h ids
    → is_some (find_by itself k ids) ≡ true
    → text_lt h k ≡ true
unfolding find_by
Above-lt h k [] a e = absurd (cc e)
Above-lt h k (j ∷ ids) a e = ground (arith, Above-lt h k ids a.1, text_eq_iff j k)

-- A key of a list is its head or a key of the rest.
pub present_cases :
    (h j : Text) (ids : List Text)
    → is_some (find_by itself j (h ∷ ids)) ≡ true
    → (h ≡ j) ⊎ (is_some (find_by itself j ids) ≡ true)
unfolding find_by
present_cases h j ids e = ground (arith, text_eq_iff h j)
