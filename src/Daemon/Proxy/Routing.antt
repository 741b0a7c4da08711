-- ===== src/Daemon/Proxy/Routing.antt =====
-- Where the proxy of internal/daemon/proxy.go sends the requests for the names of the registry.
use corenet.Common.{
  Text, ℕ, ◌≡◌, ◌↔◌, ◌⊎◌, inl, inr, refl, sym, ap, ◌∙◌, false, ◌++◌, Option, none, some, Unicode,
  arith, split_host_port, join_host_port, contains, IsBare, split-join_host_port, split-host_alone,
  is_some, if◌then◌else◌, Option-cases, bytes,
}
use corenet.Protocol.{Service, addr}
use corenet.Protocol.Names.{normalize_name}
use corenet.Protocol.Grammar.{IsCoreName, normalize_name-IsCoreName}
use corenet.Protocol.Shape.{core_name_bytes, contains-name_bytes}
use corenet.Registry.{Registry, lookup, conflict}
use corenet.Daemon.Proxy.{Routes, host_name, Outcome, forwarded, error_page, route_name, route}

abbrev pub routes_of : Unicode → Registry → Routes
routes_of u r = record { lookup = lookup u r; conflict = conflict u r }

-- The Host header that a client sends for a name: alone, or with a port that holds no colon and no
-- bracket.
pub data IsHostFor (name : Text) : Text → Type 0 where
  alone : IsHostFor name name
  with_port :
      (port : Text)
      → IsBare port
      → contains b':' port ≡ false
      → IsHostFor name (join_host_port name port)

host_name-split :
    (u : Unicode) (host h port : Text)
    → split_host_port host ≡ some (h, port)
    → host_name u host ≡ normalize_name u h
unfolding host_name
host_name-split u host h port e = ap name_of e
  where
    name_of : Option (Text × Text) → Text
    name_of none = normalize_name u host
    name_of (some p) = normalize_name u p.0

module _ (u : Unicode) (name : Text) (n : IsCoreName name) where
  lacks : (d : ℕ) → ((d ≡ b':') ⊎ ((d ≡ b'[') ⊎ (d ≡ b']'))) → contains d name ≡ false
  lacks d k = contains-name_bytes d name k (core_name_bytes name n)

  name-IsBare : IsBare name
  name-IsBare = record {
    opening = lacks b'[' (inr (inl refl));
    closing = lacks b']' (inr (inr refl));
  }

  pub host_name-IsHostFor : (host : Text) → IsHostFor name host → host_name u host ≡ name
  unfolding host_name
  host_name-IsHostFor _ IsHostFor.alone =
      ground
        (arith, split-host_alone name (lacks b':' (inl refl)), normalize_name-IsCoreName u name n)
  host_name-IsHostFor _ (IsHostFor.with_port port p no_colon) =
      host_name-split u (join_host_port name port) name port
        (split-join_host_port name port name-IsBare p no_colon)
      ∙ normalize_name-IsCoreName u name n

module _ (dir : Routes) (name : Text) where
  forwarded_iff :
      (target : Text)
      → (route_name dir name ≡ forwarded target)
        ↔ ((s : Service) × (dir.lookup name ≡ some s) × (addr s ≡ target))
  unfolding route_name
  forwarded_iff target = elim (Option-cases (dir.lookup name)) [
    | inr (s, known) ↦ (
      λ h. (s, known, forwarded-injective (ap route_known (sym known) ∙ h)),
      λ (s', known', at). ap route_known known' ∙ ap forwarded at,
    )
    | inl unknown ↦ (
      λ h. elim (Option-cases (dir.conflict name)) [
        | inr (c, told) ↦ absurd (ground (arith, h, unknown, told))
        | inl untold ↦ absurd (ground (arith, h, unknown, untold))
      ],
      λ (s, known, at). absurd (cc (known, unknown)),
    )
  ]
    where
      forwarded-injective : {a b : Text} → forwarded a ≡ forwarded b → a ≡ b
      forwarded-injective h = cc h

      route_known : Option Service → Outcome
      route_known o = route_name (record { lookup = λ _. o; conflict = dir.conflict }) name

  refused_lem :
      dir.lookup name ≡ none
      → (title : Text) × (message : Text) × (route_name dir name
          ≡ error_page (if is_some (dir.conflict name) then 409 else 404) title message)
  unfolding route_name
  refused_lem unknown = elim (Option-cases (dir.conflict name)) [
    | inr (c, told) ↦ (
      bytes "Conflicting service",
      name ++ (bytes " is not routed: " ++ (c.reason ++ bytes ".")),
      ground (arith, unknown, told),
    )
    | inl untold ↦ (
      bytes "Unknown service",
      name ++ bytes " is not registered on this CoreNet node.",
      ground (arith, unknown, untold),
    )
  ]

-- For a name of the grammar and a Host header that asks for it, with a port or without, the proxy forwards
-- to the address of the service that the registry looks up, and to nothing else; a name that is not
-- routed is refused with 409 if it is in conflict and with 404 otherwise.
pub route-lookup :
    (u : Unicode) (r : Registry) (name host : Text)
    → IsCoreName name
    → IsHostFor name host
    → ((target : Text)
        → (route u (routes_of u r) host ≡ forwarded target)
          ↔ ((s : Service) × (lookup u r name ≡ some s) × (addr s ≡ target)))
      × (((s : Service) × (lookup u r name ≡ some s))
          ⊎ ((title : Text) × (message : Text) × (route u (routes_of u r) host
                ≡ error_page (if is_some (conflict u r name) then 409 else 404) title message)))
unfolding route
route-lookup u r name host n asks = rw (host_name-IsHostFor u name n host asks) (
  forwarded_iff (routes_of u r) name,
  elim (Option-cases (lookup u r name)) [
    | inl unknown ↦ inr (refused_lem (routes_of u r) name unknown)
    | inr known ↦ inl known
  ],
)
