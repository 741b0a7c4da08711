-- ===== src/Daemon/Agreement.antt =====
-- The three ways in which a node answers for a name, internal/dns/dns.go, internal/daemon/proxy.go and
-- the resolution of internal/daemon/api.go, over one registry.
mod Tests
use corenet.Common.{
  ℕ, Text, bytes, ◌≡◌, ◌≢◌, ◌↔◌, refl, sym, ap, ◌∙◌, Bool, true, false, List, [], ◌∷◌, ◌++◌, Option,
  none, some, arith, Unicode, is_some, if◌then◌else◌, Option-cases, inl, inr,
}
use corenet.Protocol.{Service, addr}
use corenet.Protocol.Names.{normalize_name}
use corenet.Protocol.Grammar.{IsCoreName, normalize_name-IsCoreName}
use corenet.Registry.{Registry, lookup}
use corenet.Dns.{Question, Message, Library, serve_dns}
use corenet.Dns.Answers.{serve_dns-lookup, record_for}
use corenet.Daemon.Proxy.{route, forwarded}
use corenet.Daemon.Proxy.Routing.{routes_of, IsHostFor, route-lookup}
use corenet.Daemon.Api.{handle_resolve, service_body}
use corenet.Daemon.Api.Resolving.{handle_resolve_lem}

-- A DNS query for the address of a name, written with or without the dot at its end.
pub record IsQueryFor (lib : Library) (name : Text) (req : Message lib.Rest) : Type 0 where
  pub asked : Question
  pub dotted : Bool
  pub written : asked.name ≡ (if dotted then name ++ bytes "." else name)
  pub internet : asked.qclass ≡ lib.class_inet
  pub address : asked.qtype ≡ lib.type_a
  pub alone : req.question ≡ asked ∷ []
  pub query : req.opcode ≡ lib.opcode_query

-- For a name of the grammar, the DNS server sends a record exactly if the registry serves the name; and
-- exactly then the proxy forwards a request for it, to the address of the very service that the API
-- resolves it to.
pub answers_agree :
    (u : Unicode) (lib : Library) (this_node : Text) (r : Registry) (name host : Text)
    (req : Message lib.Rest)
    → IsCoreName name
    → IsQueryFor lib name req
    → IsHostFor name host
    → (((serve_dns u lib this_node (lookup u r) req).answer ≢ [])
        ↔ ((target : Text) × (route u (routes_of u r) host ≡ forwarded target)))
      × ((target : Text)
          → (route u (routes_of u r) host ≡ forwarded target)
            ↔ ((s : Service) × (handle_resolve u name r ≡ service_body s) × (addr s ≡ target)))
answers_agree u lib this_node r name host req n q asks =
    let (code, records) =
      serve_dns-lookup u lib this_node r req q.asked name q.dotted n q.written q.internet q.address
        q.alone q.query in
    let (routed, refused) = route-lookup u r name host n asks in
    let resolved = (handle_resolve_lem u name r).0 in
    let normal = normalize_name-IsCoreName u name n in
    (
      (
        λ some_there. elim (Option-cases (lookup u r name)) [
          | inl unknown ↦ absurd (some_there (ground (arith, records, unknown)))
          | inr (s, known) ↦ (addr s, (routed (addr s)).1 (s, known, refl))
        ],
        λ (target, goes) empty.
            let (s, known, at) = (routed target).0 goes in
            absurd (ground (arith, records, known, empty)),
      ),
      λ target. (
        λ goes.
            let (s, known, at) = (routed target).0 goes in
            (s, (resolved s).1 (rw normal n, known), at),
        λ (s, answers, at). (routed target).1 (s, ((resolved s).0 answers).1, at),
      ),
    )
