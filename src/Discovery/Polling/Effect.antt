-- ===== src/Discovery/Polling/Effect.antt =====
-- What a poll of internal/discovery/discovery.go leaves in the registry.
use corenet.Common.{
  Text, ◌≡◌, refl, ◌∙◌, true, not, List, [], ◌∷◌, ◌++◌, Option, none, some, arith, Unicode, All,
  Map, get, values, length, ltb, if◌then◌else◌, ◌<|>◌, find_by, find_by-sort_by,
  find_by-sort_by-values, sort_by-values-IsSorted, IsSorted, sort_by-IsSorted, sort_by-All,
}
use corenet.Protocol.{Service, Conflict, source_docker}
use corenet.Protocol.Names.{normalize_name}
use corenet.Registry.{Registry, set_docker, conflict}
use corenet.Registry.Invariant.{IsTier, IsUsable}
use corenet.Registry.Latest.{latest}
use corenet.Registry.Conflicts.{latest_conflict, set_docker_lem}
use corenet.Registry.Listing.{by_name}
use corenet.Discovery.Container.{Container, Refusal}
use corenet.Discovery.Polling.{
  Docker, Found, nothing_found, or_nil, contested, take_conflicts, scan, convert, containers,
  available_again, failure, poll,
}
use corenet.Discovery.Polling.Claims.{
  is_contested, claimants, last_claim, scan-services, scan-claimed, IsFound, scan-IsFound,
  take_conflicts-services, take_conflicts-IsTier,
}
use corenet.Discovery.Polling.Split.{
  conflict_name, contested_if, IsNamed, IsOwnUsable, take_conflicts-find, take_conflicts-IsDistinct,
  take_conflicts-IsNamed, latest_conflict-find, latest-find, values-usable, tier-IsKeyed,
}

module _ (u : Unicode) where
  module _ (wording : Refusal → Text) (cs : List Container) (d : Docker) where
    abbrev found : Found
    found = (scan u wording cs nothing_found d).0

    found-IsFound : IsFound u wording found
    found-IsFound =
        scan-IsFound u wording cs nothing_found d
          (record { services = record { distinct = tt; entries = tt }; claimed = tt; names = tt })

    abbrev split : Map Service × List Conflict
    split = take_conflicts found.claimed found.services []

    split-IsTier : IsTier (IsUsable source_docker) split.0
    split-IsTier =
        take_conflicts-IsTier (IsUsable source_docker) found.claimed found.services []
          found-IsFound.services

    owners-claimants : (k : Text) → or_nil (get found.claimed k) ≡ claimants u d.network k cs
    unfolding get
    owners-claimants k = scan-claimed u wording cs nothing_found d k

    services-last_claim : (k : Text) → get found.services k ≡ last_claim u d.network k cs
    unfolding get
    services-last_claim k =
        scan-services u wording cs nothing_found d k ∙ or-none (last_claim u d.network k cs)
      where
        or-none : (o : Option Service) → (o <|> none) ≡ o
        or-none none = refl
        or-none (some s) = refl

    contested-length : (o : Option (List Text)) → is_contested o ≡ not (ltb (length (or_nil o)) 2)
    contested-length none = refl
    contested-length (some owners) = refl

    contested_if-length :
        (k : Text) (o : Option (List Text))
        → contested_if k o
          ≡ (if ltb (length (or_nil o)) 2 then none else some (contested k (or_nil o)))
    contested_if-length k none = refl
    contested_if-length k (some owners) = refl

    services-find :
        (k : Text)
        → find_by by_name k (convert u wording cs d).0.0 ≡ (
            if ltb (length (claimants u d.network k cs)) 2
            then last_claim u d.network k cs
            else none)
    unfolding convert
    services-find k =
        let at =
          find_by-sort_by-values by_name split.0 k (tier-IsKeyed split.0 split-IsTier)
          ∙ take_conflicts-services found.claimed found.services [] k found-IsFound.claimed in
        ground (
          arith,
          at,
          contested-length (get found.claimed k),
          owners-claimants k,
          services-last_claim k,
        )

    conflicts-find :
        (k : Text)
        → find_by conflict_name k (convert u wording cs d).0.1 ≡ (
            if ltb (length (claimants u d.network k cs)) 2
            then none
            else some (contested k (claimants u d.network k cs)))
    unfolding convert find_by
    conflicts-find k =
        let at =
          find_by-sort_by conflict_name k split.1
          ∙ take_conflicts-find found.claimed found.services [] k found-IsFound.claimed in
        ground (arith, at, contested_if-length k (get found.claimed k), owners-claimants k)

    services-IsSorted : IsSorted by_name (convert u wording cs d).0.0
    unfolding convert
    services-IsSorted =
        sort_by-values-IsSorted by_name split.0 split-IsTier.distinct
          (tier-IsKeyed split.0 split-IsTier)

    conflicts-IsSorted : IsSorted conflict_name (convert u wording cs d).0.1
    unfolding convert find_by
    conflicts-IsSorted = sort_by-IsSorted conflict_name split.1 (
        take_conflicts-IsDistinct found.claimed found.services [] found-IsFound.claimed
          (λ k _. refl) tt)

    services-usable : All IsOwnUsable (convert u wording cs d).0.0
    unfolding convert
    services-usable =
        sort_by-All IsOwnUsable by_name (values split.0)
          (values-usable split.0 split-IsTier.entries)

    conflicts-IsNamed : All IsNamed (convert u wording cs d).0.1
    unfolding convert
    conflicts-IsNamed =
        sort_by-All IsNamed conflict_name split.1
          (take_conflicts-IsNamed found.claimed found.services [] found-IsFound.names tt)

  -- What `SetDocker` makes of the result of `convert`.
  stored_lem :
      (wording : Refusal → Text) (cs : List Container) (d : Docker) (name : Text) (r : Registry)
      → (get (set_docker u (convert u wording cs d).0.0 (convert u wording cs d).0.1 r).docker name
          ≡ (if ltb (length (claimants u d.network name cs)) 2
              then last_claim u d.network name cs
              else none))
        × (conflict u
              (set_docker u (convert u wording cs d).0.0 (convert u wording cs d).0.1 r)
              name
            ≡ (if ltb (length (claimants u d.network (normalize_name u name) cs)) 2
                then none
                else some (
                    contested
                      (normalize_name u name)
                      (claimants u d.network (normalize_name u name) cs))))
  stored_lem wording cs d name r =
      let services = (convert u wording cs d).0.0 in
      let conflicts = (convert u wording cs d).0.1 in
      let n = normalize_name u name in
      let (told, provided) = set_docker_lem u services conflicts r name in
      let sorted = conflicts-IsSorted wording cs d in
      let valid = conflicts-IsNamed wording cs d in
      let at_name =
        latest_conflict-find u name conflicts sorted valid ∙ conflicts-find wording cs d name in
      let at_normal =
        latest_conflict-find u n conflicts sorted valid ∙ conflicts-find wording cs d n in
      let service =
        latest-find u name services (services-IsSorted wording cs d) (services-usable wording cs d)
        ∙ services-find wording cs d name in
      (provided ∙ ground (arith, at_name, service), told ∙ at_normal)

  -- After a poll that lists the containers, whatever their labels: under each name Docker provides the
  -- service of the container that claims it, if exactly one does, and nothing otherwise; a name is in
  -- conflict exactly if two containers or more claim it, and the reason names them.
  pub poll_lem :
      (wording : Refusal → Text) (cs : List Container) (d : Docker) (name : Text)
      → (get (poll u wording (containers cs) d).store.docker name ≡ (
          if ltb (length (claimants u d.network name cs)) 2
          then last_claim u d.network name cs
          else none))
        × (conflict u (poll u wording (containers cs) d).store name ≡ (
            if ltb (length (claimants u d.network (normalize_name u name) cs)) 2
            then none
            else some (
                contested
                  (normalize_name u name)
                  (claimants u d.network (normalize_name u name) cs))))
  unfolding poll
  poll_lem wording cs d name =
      let log = if d.available then d.log else d.log ++ available_again ∷ [] in
      let ready : Docker = record d { available = true; log = log } in
      stored_lem wording cs ready name (convert u wording cs ready).1.store

  -- A poll that fails while Docker was available clears what Docker provided and the conflicts;
  -- after it a further failure changes nothing.
  pub poll_failure :
      (wording : Refusal → Text) (e e' : Text) (d : Docker)
      → d.available ≡ true
      → ((name : Text)
          → (get (poll u wording (failure e) d).store.docker name ≡ none)
            × (conflict u (poll u wording (failure e) d).store name ≡ none))
        × (poll u wording (failure e') (poll u wording (failure e) d)
            ≡ poll u wording (failure e) d)
  unfolding poll latest latest_conflict
  poll_failure wording e e' d up = (
    λ name.
        let (told, provided) = set_docker_lem u [] [] d.store name in (rw up provided, rw up told),
    rw up refl,
  )
