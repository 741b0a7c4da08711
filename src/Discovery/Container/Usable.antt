-- ===== src/Discovery/Container/Usable.antt =====
-- Container metadata is untrusted: what `service` of internal/discovery/docker.go lets through.
use corenet.Common.{
  Text, ℤ, ◌≡◌, ◌≢◌, refl, sym, ap, ◌∙◌, false, List, [], ◌∷◌, Option, none, some, arith, Unicode,
  Map, get, keys, sort_by, is_empty, text_eq_iff, Bool-cases, Option-cases, inl, inr, atoi,
  is_empty-ne-nil, subst,
}
use corenet.Protocol.{Service, source_docker}
use corenet.Protocol.Names.{normalize_name, validate_name}
use corenet.Protocol.Grammar.{validate_name_iff}
use corenet.Registry.{bad_port}
use corenet.Registry.Invariant.{IsPort, IsUsable, bad_port-IsPort}
use corenet.Discovery.Container.{
  Container, Made, made, refused, ◌>>=◌, label_name, label_service, label_port, service_http,
  or_empty, first_address, address, check_name, check_kind, check_port, service,
}

-- A chain of checks that goes through has gone through each of them.
bind-eq-made {ℓ κ} :
    {A : Type ℓ} {B : Type κ} (m : Made A) (f : A → Made B) {b : B}
    → (m >>= f) ≡ made b
    → (a : A) × (m ≡ made a) × (f a ≡ made b)
bind-eq-made (made a) f h = (a, refl, h)
bind-eq-made (refused e) f h = absurd (cc h)

made-injective : {A : Type 0} {a b : A} → made a ≡ made b → a ≡ b
made-injective h = cc h

check_name-made :
    (u : Unicode) (name n : Text)
    → check_name u name ≡ made n
    → (name ≡ n) × (validate_name u n ≡ none)
check_name-made u name n h = elim (Option-cases (validate_name u name)) [
  | inl valid ↦
      let same : name ≡ n = ground (arith, h, valid) in
      (same, subst (λ t. validate_name u t ≡ none) same valid)
  | inr (e, bad) ↦ absurd (ground (arith, h, bad))
]

check_kind-made : (kind : Text) (t : Unit {0}) → check_kind kind ≡ made t → kind ≡ service_http
unfolding check_kind
check_kind-made kind t h = ground (arith, h, text_eq_iff kind service_http)

or_empty-http : (o : Option Text) → or_empty o ≡ service_http → o ≡ some service_http
or_empty-http none h = absurd (cc h)
or_empty-http (some kind) h = ap some h

check_port-made :
    (label : Option Text) (p : ℤ)
    → check_port label ≡ made p
    → (raw : Text) × (label ≡ some raw) × (atoi raw ≡ some p) × IsPort p
unfolding check_port
check_port-made none p h = absurd (cc h)
check_port-made (some raw) p h = elim (Option-cases (atoi raw)) [
  | inl bad ↦ absurd (ground (arith, h, bad))
  | inr (q, read) ↦
      let same : q ≡ p = ground (arith, h, read) in
      let fits : bad_port p ≡ false = rw (← same) (ground (arith, h, read)) in
      (raw, refl, read ∙ ap some same, bad_port-IsPort p fits)
]

first_address-filled :
    (networks : Map Text) (names : List Text) (ip : Text)
    → first_address networks names ≡ made ip
    → ip ≢ []
unfolding first_address
first_address-filled networks [] ip h = absurd (cc h)
first_address-filled networks (name ∷ names) ip h =
    elim (Bool-cases (is_empty (or_empty (get networks name)))) [
      | inl empty ↦ first_address-filled networks names ip (ground (arith, h, empty))
      | inr filled ↦
          let same : or_empty (get networks name) ≡ ip = ground (arith, h, filled) in
          subst (λ t. t ≢ []) same (is_empty-ne-nil (or_empty (get networks name)) filled)
    ]

address-filled : (c : Container) (preferred ip : Text) → address c preferred ≡ made ip → ip ≢ []
unfolding address
address-filled c preferred ip h = elim (Bool-cases (is_empty preferred)) [
  | inl any ↦
      first_address-filled c.networks (sort_by (λ n. n) (keys c.networks)) ip
        (ground (arith, h, any))
  | inr one ↦ elim (Bool-cases (is_empty (or_empty (get c.networks preferred)))) [
    | inl empty ↦ absurd (ground (arith, h, one, empty))
    | inr filled ↦
        let same : or_empty (get c.networks preferred) ≡ ip = ground (arith, h, one, filled) in
        subst (λ t. t ≢ []) same (is_empty-ne-nil (or_empty (get c.networks preferred)) filled)
  ]
]

-- What a container must say to become a service.
pub record IsDescribed (u : Unicode) (c : Container) (preferred : Text) (s : Service) : Type 0 where
  pub named : s.name ≡ normalize_name u (or_empty (get c.labels label_name))
  pub http : get c.labels label_service ≡ some service_http
  pub port : (raw : Text) × (get c.labels label_port ≡ some raw) × (atoi raw ≡ some s.port)
  pub address : address c preferred ≡ made s.address
  pub usable : IsUsable source_docker s.name s

-- A container becomes a service only with a name label of the .core grammar once it is normalized, the
-- service label "http", a port label that reads as a number from 1 to 65535, and an address on the
-- network that is to be used; and the service is what these say.
pub service-IsDescribed :
    (u : Unicode) (c : Container) (preferred : Text) (s : Service)
    → service u c preferred ≡ made s
    → IsDescribed u c preferred s
unfolding service
service-IsDescribed u c preferred s h =
    let (name, named, h1) =
      bind-eq-made (check_name u (normalize_name u (or_empty (get c.labels label_name)))) _ h in
    let (kind, http, h2) = bind-eq-made (check_kind (or_empty (get c.labels label_service))) _ h1 in
    let (port, ported, h3) = bind-eq-made (check_port (get c.labels label_port)) _ h2 in
    let (ip, addressed, h4) = bind-eq-made (address c preferred) _ h3 in
    let (same, valid) = check_name-made u _ name named in
    let (raw, labelled, read, fits) = check_port-made _ port ported in
    subst (IsDescribed u c preferred) (made-injective h4) (record {
      named = sym same;
      http = or_empty-http _ (check_kind-made _ kind http);
      port = (raw, labelled, read);
      address = addressed;
      usable = record {
        keyed = refl;
        named = (validate_name_iff u name).0 valid;
        addressed = address-filled c preferred ip addressed;
        ported = fits;
        origin = refl;
      };
    })
