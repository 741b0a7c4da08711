-- ===== src/Discovery/Polling/Claims.antt =====
-- `convert` of internal/discovery/discovery.go against the containers that claim each name.
use corenet.Common.{
  Text, ◌≡◌, refl, sym, ap, ◌∙◌, Bool, false, not, List, [], ◌∷◌, ◌++◌, Option, none, some, arith,
  Unicode, Map, get, delete, get-put, get-delete, IsMap, put-IsMap, Entries, put-Entries, length,
  ltb, text_eq, text_eq_iff, if◌then◌else◌, ◌<|>◌, Bool-cases, inl, inr, append_assoc, append-nil,
}
use corenet.Protocol.{Service, Conflict}
use corenet.Registry.Invariant.{IsTier, IsUsable, put-IsTier, delete-IsTier}
use corenet.Protocol.{source_docker}
use corenet.Protocol.Grammar.{IsCoreName}
use corenet.Discovery.Container.{
  Container, container_name, Refusal, skip, Made, made, refused, service,
}
use corenet.Discovery.Container.Usable.{service-IsDescribed}
use corenet.Discovery.Polling.{
  Docker, Found, or_nil, contested, report_skip, take_conflicts, scan_made, scan,
}

-- A name is in conflict when two containers or more claim it.
abbrev pub is_contested : Option (List Text) → Bool
is_contested none = false
is_contested (some owners) = not (ltb (length owners) 2)

abbrev pub claimed_name : Made Service → Text → Bool
claimed_name (made s) k = text_eq s.name k
claimed_name (refused e) k = false

abbrev pub service_if : Made Service → Text → Option Service
service_if (made s) k = if text_eq s.name k then some s else none
service_if (refused e) k = none

module _ (u : Unicode) (network : Text) where
  -- Whether a container makes a service of the name `k`.
  abbrev pub claims : Text → Container → Bool
  claims k c = claimed_name (service u c network) k

  -- The names of the containers that claim the name `k`, in the order of the list.
  unfoldable pub claimants : Text → List Container → List Text
  claimants k [] = []
  claimants k (c ∷ cs) = if claims k c then container_name c ∷ claimants k cs else claimants k cs

  -- The service of the last container that claims the name `k`.
  unfoldable pub last_claim : Text → List Container → Option Service
  last_claim k [] = none
  last_claim k (c ∷ cs) = last_claim k cs <|> service_if (service u c network) k

module _ (u : Unicode) (wording : Refusal → Text) where
  report_skip-network : (c e : Text) (d : Docker) → (report_skip c e d).network ≡ d.network
  unfolding report_skip
  report_skip-network c e d = ground arith

  scan_made-network :
      (c : Text) (m : Made Service) (f : Found) (d : Docker)
      → (scan_made u wording c m f d).1.network ≡ d.network
  scan_made-network c (made s) f d = refl
  scan_made-network c (refused skip) f d = refl
  scan_made-network c (refused _) f d = report_skip-network c _ d

  scan_made-services :
      (c k : Text) (m : Made Service) (f : Found) (d : Docker)
      → get (scan_made u wording c m f d).0.services k ≡ (service_if m k <|> get f.services k)
  scan_made-services c k (made s) f d = ground (arith, get-put f.services s.name k s)
  scan_made-services c k (refused skip) f d = refl
  scan_made-services c k (refused _) f d = refl

  scan_made-claimed :
      (c k : Text) (m : Made Service) (f : Found) (d : Docker)
      → or_nil (get (scan_made u wording c m f d).0.claimed k)
        ≡ or_nil (get f.claimed k) ++ (if claimed_name m k then c ∷ [] else [])
  scan_made-claimed c k (made s) f d = elim (Bool-cases (text_eq s.name k)) [
    | inl same ↦
        let at : s.name ≡ k = (text_eq_iff s.name k).0 same in
        ground
          (arith, at, same, get-put f.claimed s.name k (or_nil (get f.claimed s.name) ++ c ∷ []))
    | inr other ↦ ground (
      arith,
      other,
      get-put f.claimed s.name k (or_nil (get f.claimed s.name) ++ c ∷ []),
      append-nil (or_nil (get f.claimed k)),
    )
  ]
  scan_made-claimed c k (refused skip) f d = sym (append-nil _)
  scan_made-claimed c k (refused _) f d = sym (append-nil _)

  pub scan-services :
      (cs : List Container) (f : Found) (d : Docker) (k : Text)
      → get (scan u wording cs f d).0.services k
        ≡ (last_claim u d.network k cs <|> get f.services k)
  unfolding scan last_claim
  scan-services [] f d k = refl
  scan-services (c ∷ cs) f d k =
      let m = service u c d.network in
      let next = scan_made u wording (container_name c) m f d in
      let net = scan_made-network (container_name c) m f d in
      let ih =
        scan-services cs next.0 next.1 k
        ∙ ap (λ n. last_claim u n k cs <|> get next.0.services k) net in
      ground (arith, ih, scan_made-services (container_name c) k m f d)

  pub scan-claimed :
      (cs : List Container) (f : Found) (d : Docker) (k : Text)
      → or_nil (get (scan u wording cs f d).0.claimed k)
        ≡ or_nil (get f.claimed k) ++ claimants u d.network k cs
  unfolding scan claimants
  scan-claimed [] f d k = sym (append-nil _)
  scan-claimed (c ∷ cs) f d k =
      let m = service u c d.network in
      let next = scan_made u wording (container_name c) m f d in
      let net = scan_made-network (container_name c) m f d in
      let ih =
        scan-claimed cs next.0 next.1 k
        ∙ ap (λ n. or_nil (get next.0.claimed k) ++ claimants u n k cs) net in
      ground (
        arith,
        ih,
        scan_made-claimed (container_name c) k m f d,
        append_assoc (or_nil (get f.claimed k)) (container_name c ∷ [])
            (claimants u d.network k cs),
        append-nil (or_nil (get f.claimed k)),
      )

  -- Each service found is usable and stands under its name, and names are claimed by someone.
  pub record IsFound (f : Found) : Type 0 where
    pub services : IsTier (IsUsable source_docker) f.services
    pub claimed : IsMap f.claimed
    pub names : Entries (λ k _. IsCoreName k) f.claimed

  scan_made-IsFound :
      (c : Container) (f : Found) (d : Docker)
      → IsFound f
      → IsFound (scan_made u wording (container_name c) (service u c d.network) f d).0
  scan_made-IsFound c f d h = go (service u c d.network) refl
    where
      go :
          (m : Made Service)
          → service u c d.network ≡ m
          → IsFound (scan_made u wording (container_name c) m f d).0
      go (refused skip) e = h
      go (refused _) e = h
      go (made s) e = record {
        services = put-IsTier s.name s (service-IsDescribed u c d.network s e).usable h.services;
        claimed = put-IsMap f.claimed s.name _ h.claimed;
        names =
            put-Entries (λ k _. IsCoreName k) f.claimed s.name _
              (service-IsDescribed u c d.network s e).usable.named h.names;
      }

  pub scan-IsFound :
      (cs : List Container) (f : Found) (d : Docker) → IsFound f → IsFound (scan u wording cs f d).0
  unfolding scan
  scan-IsFound [] f d h = h
  scan-IsFound (c ∷ cs) f d h = scan-IsFound cs _ _ (scan_made-IsFound c f d h)

pub take_conflicts-services :
    (claimed : Map (List Text)) (services : Map Service) (cs : List Conflict) (k : Text)
    → IsMap claimed
    → get (take_conflicts claimed services cs).0 k
      ≡ (if is_contested (get claimed k) then none else get services k)
unfolding take_conflicts get
take_conflicts-services [] services cs k h = refl
take_conflicts-services ((name, owners) ∷ claimed) services cs k h = ground (
  arith,
  take_conflicts-services claimed services cs k h.1,
  take_conflicts-services claimed (delete services name) (cs ++ contested name owners ∷ []) k h.1,
  get-delete services name k,
  text_eq_iff name k,
  h.0,
)

pub take_conflicts-IsTier :
    (P : Text → Service → Type 0) (claimed : Map (List Text)) (services : Map Service)
    (cs : List Conflict)
    → IsTier P services
    → IsTier P (take_conflicts claimed services cs).0
unfolding take_conflicts
take_conflicts-IsTier P [] services cs h = h
take_conflicts-IsTier P ((name, owners) ∷ claimed) services cs h =
    elim (Bool-cases (ltb (length owners) 2)) [
      | inl lone ↦ rw (lone, take_conflicts) (take_conflicts-IsTier P claimed services cs h)
      | inr many ↦
          rw (many, take_conflicts)
            (take_conflicts-IsTier P claimed (delete services name) _ (delete-IsTier name h))
    ]
