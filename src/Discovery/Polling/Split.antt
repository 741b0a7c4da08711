-- ===== src/Discovery/Polling/Split.antt =====
-- The lists that `convert` of internal/discovery/discovery.go hands to the registry, and what
-- `SetDocker` makes of them.
use corenet.Common.{
  Text, ◌≡◌, refl, sym, subst, true, List, [], ◌∷◌, ◌++◌, Option, none, some, arith, Unicode, All,
  All-append, Map, get, delete, IsMap, Entries, values, is_some, length, ltb, text_eq, text_eq_iff,
  if◌then◌else◌, ◌<|>◌, Bool-cases, inl, inr, find_by, IsSorted, IsKeyed, IsDistinct,
  find_by-append, append-IsDistinct, find_by-Above, ne-nil-is_empty,
}
use corenet.Protocol.{Service, Conflict, source_docker}
use corenet.Protocol.Grammar.{IsCoreName, validate_name_iff, normalize_name-IsCoreName}
use corenet.Registry.{bad_port, is_unusable}
use corenet.Registry.Invariant.{IsTier, IsUsable}
use corenet.Registry.Latest.{latest, names, stored}
use corenet.Registry.Conflicts.{latest_conflict}
use corenet.Registry.Listing.{by_name}
use corenet.Discovery.Polling.{contested, take_conflicts}

abbrev pub conflict_name : Conflict → Text
conflict_name c = c.name

abbrev pub contested_if : Text → Option (List Text) → Option Conflict
contested_if k none = none
contested_if k (some owners) = if ltb (length owners) 2 then none else some (contested k owners)

pub take_conflicts-find :
    (claimed : Map (List Text)) (services : Map Service) (cs : List Conflict) (k : Text)
    → IsMap claimed
    → find_by conflict_name k (take_conflicts claimed services cs).1
      ≡ (find_by conflict_name k cs <|> contested_if k (get claimed k))
unfolding take_conflicts get
take_conflicts-find [] services cs k h = ground arith
take_conflicts-find ((name, owners) ∷ claimed) services cs k h = ground (
  arith,
  take_conflicts-find claimed services cs k h.1,
  take_conflicts-find claimed (delete services name) (cs ++ contested name owners ∷ []) k h.1,
  find_by-append conflict_name k cs (contested name owners),
  text_eq_iff name k,
  h.0,
)

-- No name that is still to come is in the list already.
abbrev pub IsAhead : Map (List Text) → List Conflict → Type 0
IsAhead claimed cs = (k : Text) → is_some (get claimed k) ≡ true → find_by conflict_name k cs ≡ none

pub take_conflicts-IsDistinct :
    (claimed : Map (List Text)) (services : Map Service) (cs : List Conflict)
    → IsMap claimed
    → IsAhead claimed cs
    → IsDistinct conflict_name cs
    → IsDistinct conflict_name (take_conflicts claimed services cs).1
unfolding take_conflicts get
take_conflicts-IsDistinct [] services cs h a d = d
take_conflicts-IsDistinct ((name, owners) ∷ claimed) services cs h a d =
    elim (Bool-cases (ltb (length owners) 2)) [
      | inl lone ↦
          rw (lone, take_conflicts)
            (take_conflicts-IsDistinct claimed services cs h.1
              (λ k there. ground (arith, a k, there, h.0, text_eq_iff name k)) d)
      | inr many ↦
          rw (many, take_conflicts)
            (take_conflicts-IsDistinct claimed (delete services name)
              (cs ++ contested name owners ∷ []) h.1
              (λ k there. ground (
                arith,
                a k,
                there,
                h.0,
                text_eq_iff name k,
                find_by-append conflict_name k cs (contested name owners),
              ))
              (append-IsDistinct conflict_name cs (contested name owners)
                (ground (arith, a name, text_eq_iff name name)) d))
    ]

abbrev pub IsNamed : Conflict → Type 0
IsNamed c = IsCoreName c.name

pub take_conflicts-IsNamed :
    (claimed : Map (List Text)) (services : Map Service) (cs : List Conflict)
    → Entries (λ k _. IsCoreName k) claimed
    → All IsNamed cs
    → All IsNamed (take_conflicts claimed services cs).1
unfolding take_conflicts
take_conflicts-IsNamed [] services cs h n = n
take_conflicts-IsNamed ((name, owners) ∷ claimed) services cs h n =
    elim (Bool-cases (ltb (length owners) 2)) [
      | inl lone ↦ rw (lone, take_conflicts) (take_conflicts-IsNamed claimed services cs h.1 n)
      | inr many ↦
          rw (many, take_conflicts)
            (take_conflicts-IsNamed claimed (delete services name) _ h.1
              (All-append IsNamed cs (contested name owners ∷ []) n (h.0, tt)))
    ]

abbrev pub IsOwnUsable : Service → Type 0
IsOwnUsable s = IsUsable source_docker s.name s

pub values-usable :
    (m : Map Service) → Entries (IsUsable source_docker) m → All IsOwnUsable (values m)
values-usable [] h = tt
values-usable ((k, s) ∷ m) h =
    (subst (λ n. IsUsable source_docker n s) (sym h.0.keyed) h.0, values-usable m h.1)

pub tier-IsKeyed : (m : Map Service) → IsTier (IsUsable source_docker) m → IsKeyed by_name m
tier-IsKeyed m h = go m h.entries
  where
    go : (m : Map Service) → Entries (IsUsable source_docker) m → IsKeyed by_name m
    go [] h = tt
    go ((k, s) ∷ m) h = (h.0.keyed, go m h.1)

module _ (u : Unicode) where
  -- In a sorted list of names of the grammar the last conflict about a name is the only one.
  pub latest_conflict-find :
      (k : Text) (cs : List Conflict)
      → IsSorted conflict_name cs
      → All IsNamed cs
      → latest_conflict u k cs ≡ find_by conflict_name k cs
  unfolding latest_conflict find_by
  latest_conflict-find k [] s n = refl
  latest_conflict-find k (c ∷ cs) s n =
      let fixed = normalize_name-IsCoreName u c.name n.0 in
      let valid = (validate_name_iff u c.name).1 n.0 in
      let ih = latest_conflict-find k cs s.1 n.1 in
      elim (Bool-cases (text_eq c.name k)) [
        | inl same ↦
            ground (arith, fixed, valid, ih, same, find_by-Above conflict_name k c cs same s.0)
        | inr other ↦ ground (arith, fixed, valid, ih, other)
      ]

  usable-names :
      (k : Text) (s : Service)
      → IsOwnUsable s
      → (names u k s ≡ text_eq s.name k) × (stored u source_docker s ≡ s)
  unfolding is_unusable bad_port
  usable-names k s h =
      let fixed = normalize_name-IsCoreName u s.name h.named in
      let valid = (validate_name_iff u s.name).1 h.named in
      let filled = ne-nil-is_empty s.address h.addressed in
      let (n, port, lo, hi) = h.ported in
      (ground (arith, fixed, valid, filled, port, lo, hi), ground (arith, fixed, h.origin))

  pub latest-find :
      (k : Text) (ss : List Service)
      → IsSorted by_name ss
      → All IsOwnUsable ss
      → latest u source_docker k ss ≡ find_by by_name k ss
  unfolding latest find_by
  latest-find k [] s n = refl
  latest-find k (c ∷ cs) s n =
      let (named, same_service) = usable-names k c n.0 in
      let ih = latest-find k cs s.1 n.1 in
      elim (Bool-cases (text_eq c.name k)) [
        | inl same ↦
            ground (arith, named, same_service, ih, same, find_by-Above by_name k c cs same s.0)
        | inr other ↦ ground (arith, named, ih, other)
      ]
