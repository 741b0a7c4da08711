-- ===== src/Discovery/Polling/Stored.antt =====
-- What a poll of internal/discovery/discovery.go does to the registry: one call of `SetDocker` or nothing.
use corenet.Common.{
  Text, ◌≡◌, ◌⊎◌, refl, ap, ◌∙◌, List, [], ◌∷◌, ◌++◌, get, text_eq, Bool-cases, inl, inr, Unicode,
  true, if◌then◌else◌,
}
use corenet.Protocol.{Service, Conflict}
use corenet.Registry.{set_docker}
use corenet.Discovery.Container.{
  Container, container_name, Refusal, skip, Made, made, refused, service, or_empty,
}
use corenet.Discovery.Polling.{
  Docker, available_again, report_skip, Found, nothing_found, report_conflicts, Listing, containers,
  failure, scan_made, scan, convert, poll,
}

report_skip-store :
    (container cause : Text) (d : Docker) → (report_skip container cause d).store ≡ d.store
unfolding report_skip
report_skip-store container cause d =
    elim (Bool-cases (text_eq (or_empty (get d.skipped container)) cause)) [
      | inl same ↦ rw (same, report_skip) refl
      | inr other ↦ rw (other, report_skip) refl
    ]

module _ (u : Unicode) (wording : Refusal → Text) where
  scan_made-store :
      (container : Text) (m : Made Service) (f : Found) (d : Docker)
      → (scan_made u wording container m f d).1.store ≡ d.store
  scan_made-store container (made svc) f d = refl
  scan_made-store container (refused skip) f d = refl
  scan_made-store container (refused e) f d = report_skip-store container (wording e) d

  scan-store :
      (cs : List Container) (f : Found) (d : Docker) → (scan u wording cs f d).1.store ≡ d.store
  unfolding scan
  scan-store [] f d = refl
  scan-store (c ∷ cs) f d =
      scan-store cs _ _ ∙ scan_made-store (container_name c) (service u c d.network) f d

  convert-store : (cs : List Container) (d : Docker) → (convert u wording cs d).1.store ≡ d.store
  unfolding convert report_conflicts
  convert-store cs d = scan-store cs nothing_found d

  pub poll-store :
      (listing : Listing) (d : Docker)
      → ((poll u wording listing d).store ≡ d.store)
        ⊎ ((services : List Service) × (cs : List Conflict) × ((poll u wording listing d).store
              ≡ set_docker u services cs d.store))
  unfolding poll
  poll-store (failure e) d = elim (Bool-cases d.available) [
    | inl up ↦ inr ([], [], rw (up, poll) refl)
    | inr down ↦ inl (rw (down, poll) refl)
  ]
  poll-store (containers cs) d =
      let log = if d.available then d.log else d.log ++ available_again ∷ [] in
      let ready : Docker = record d { available = true; log = log } in
      let converted = convert u wording cs ready in
      inr (
        converted.0.0,
        converted.0.1,
        ap (set_docker u converted.0.0 converted.0.1) (convert-store cs ready),
      )
