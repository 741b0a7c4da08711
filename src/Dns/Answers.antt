-- ===== src/Dns/Answers.antt =====
-- What `ServeDNS` of internal/dns/dns.go answers about the names of the registry.
use corenet.Common.{
  ◌<◌, Text, bytes, ◌≡◌, ◌≢◌, ◌↔◌, refl, sym, ap, ◌∙◌, Bool, true, false, ◌&&◌, ◌==◌, List, [], ◌∷◌,
  ◌++◌, arith, if◌then◌else◌, length, length-append, is_some, has_suffix-append, Unicode, text_eq,
  Bool-cases, inl, inr,
}
use corenet.Protocol.Names.{normalize_name}
use corenet.Protocol.Grammar.{IsCoreName, normalize_name-IsCoreName}
use corenet.Protocol.Shape.{core_name_shape, normalize_name_of_dotted}
use corenet.Registry.{Registry, lookup}
use corenet.Dns.{Question, A, Message, Library, Directory, is_core_name, answer_question, serve_dns}

-- A name of the grammar passes the handler's own test.
pub is_core_name-IsCoreName : (name : Text) → IsCoreName name → is_core_name name ≡ true
unfolding is_core_name text_eq
is_core_name-IsCoreName name n =
    let (p, filled, e) = core_name_shape name n in
    rw e (
      ground (
        arith,
        has_suffix-append p (bytes ".core") (bytes ".core") refl,
        length-append {0} p (bytes ".core"),
        length-filled p filled,
      ))
  where
    length-filled : (p : Text) → p ≢ [] → 0 < length p
    length-filled [] h = absurd (h refl)
    length-filled (c ∷ p) h = omega arith

module _ (u : Unicode) (lib : Library) (answer : Text) where
  -- A query that gets a record: of type A in the Internet class, with one question, about a name under
  -- .core that the directory knows.
  pub record IsAnswered (dir : Directory) (req : Message lib.Rest) : Type 0 where
    pub asked : Question
    pub alone : req.question ≡ asked ∷ []
    pub query : req.opcode ≡ lib.opcode_query
    pub internet : asked.qclass ≡ lib.class_inet
    pub address : asked.qtype ≡ lib.type_a
    pub core : is_core_name (normalize_name u asked.name) ≡ true
    pub known : is_some (dir (normalize_name u asked.name)) ≡ true

  -- The record that a question gets.
  abbrev pub record_for : Question → A
  record_for q = record {
    name = q.name;
    rrtype = lib.type_a;
    class = lib.class_inet;
    ttl = 0;
    address = answer;
  }

  abbrev wanted : Directory → Question → Bool
  wanted dir q =
      (q.qclass == lib.class_inet)
      && (is_core_name (normalize_name u q.name)
          && (is_some (dir (normalize_name u q.name)) && (q.qtype == lib.type_a)))

  answer_question-answer :
      (dir : Directory) (q : Question) (reply : Message lib.Rest)
      → reply.answer ≡ []
      → (answer_question u lib answer dir q reply).answer ≡ (
          if (q.qclass == lib.class_inet)
            && (is_core_name (normalize_name u q.name)
                && (is_some (dir (normalize_name u q.name)) && (q.qtype == lib.type_a)))
          then record_for q ∷ []
          else [])
  unfolding answer_question
  answer_question-answer dir q reply h = ground (arith, h)

  question_iff :
      (dir : Directory) (q : Question)
      → ((q.qclass == lib.class_inet)
            && (is_core_name (normalize_name u q.name)
                && (is_some (dir (normalize_name u q.name)) && (q.qtype == lib.type_a)))
          ≡ true)
        ↔ ((q.qclass ≡ lib.class_inet)
            × (q.qtype ≡ lib.type_a)
            × (is_core_name (normalize_name u q.name) ≡ true)
            × (is_some (dir (normalize_name u q.name)) ≡ true))
  question_iff dir q = ground arith

  abbrev ready : Message lib.Rest → Message lib.Rest
  ready req = record (lib.set_reply req) { authoritative = true; recursion_available = false }

  alone-answer :
      (dir : Directory) (req : Message lib.Rest) (q : Question)
      → req.question ≡ q ∷ []
      → req.opcode ≡ lib.opcode_query
      → (serve_dns u lib answer dir req).answer
        ≡ (answer_question u lib answer dir q (ready req)).answer
  unfolding serve_dns
  alone-answer dir req q alone query = rw alone (ground (arith, query))

  -- Without exactly one question, or under another opcode, there is no record.
  alone_of_answer :
      (dir : Directory) (req : Message lib.Rest)
      → (serve_dns u lib answer dir req).answer ≢ []
      → (q : Question) × (req.question ≡ q ∷ []) × (req.opcode ≡ lib.opcode_query)
  unfolding serve_dns
  alone_of_answer dir req h = elim (Bool-cases (req.opcode == lib.opcode_query)) [
    | inr other ↦ absurd (h (ground (arith, other, lib.set_reply-answer req)))
    | inl query ↦ go req.question refl (ground (arith, query))
  ]
    where
      go :
          (qs : List Question)
          → req.question ≡ qs
          → req.opcode ≡ lib.opcode_query
          → (q : Question) × (req.question ≡ q ∷ []) × (req.opcode ≡ lib.opcode_query)
      go [] e query = absurd (h (rw e (ground (arith, query, lib.set_reply-answer req))))
      go (q ∷ []) e query = (q, e, query)
      go (q ∷ q' ∷ qs) e query = absurd (h (rw e (ground (arith, query, lib.set_reply-answer req))))

  IsAnswered-of_wanted :
      (dir : Directory) (req : Message lib.Rest) (records : List A) (q : Question)
      → req.question ≡ q ∷ []
      → req.opcode ≡ lib.opcode_query
      → records ≢ []
      → records ≡ (if wanted dir q then record_for q ∷ [] else [])
      → (asked : IsAnswered dir req) × (records ≡ record_for asked.asked ∷ [])
  IsAnswered-of_wanted dir req records q alone query filled h = elim (Bool-cases (wanted dir q)) [
    | inl asks ↦
        let (internet, address, core, known) = (question_iff dir q).0 asks in
        (
          record {
            asked = q;
            alone = alone;
            query = query;
            internet = internet;
            address = address;
            core = core;
            known = known;
          },
          ground (arith, h, asks),
        )
    | inr lacks ↦ absurd (filled (ground (arith, h, lacks)))
  ]

  -- Whatever the directory, the server sends a record exactly for a query with one question, of
  -- type A in the Internet class, about a name under .core that the directory knows once it is
  -- normalized; it is then the only record, under the name as it was asked, with this node's
  -- address and no time to live.
  pub serve_dns-answer_iff :
      (dir : Directory) (req : Message lib.Rest) (records : List A)
      → records ≢ []
      → ((serve_dns u lib answer dir req).answer ≡ records)
        ↔ ((q : IsAnswered dir req) × (records ≡ record_for q.asked ∷ []))
  serve_dns-answer_iff dir req records filled = (
    λ h.
        let (q, alone, query) =
          alone_of_answer dir req (λ none_there. filled (sym h ∙ none_there)) in
        IsAnswered-of_wanted dir req records q alone query filled (
          sym h
          ∙ alone-answer dir req q alone query
          ∙ answer_question-answer dir q (ready req) (lib.set_reply-answer req)),
    λ (q, same).
        alone-answer dir req q.asked q.alone q.query
        ∙ answer_question-answer dir q.asked (ready req) (lib.set_reply-answer req)
        ∙ ground
            (arith, (question_iff dir q.asked).1 (q.internet, q.address, q.core, q.known), same),
  )

  asked_name :
      (name : Text) (dotted : Bool)
      → IsCoreName name
      → normalize_name u (if dotted then name ++ bytes "." else name) ≡ name
  asked_name name true n = normalize_name_of_dotted u name n
  asked_name name false n = normalize_name-IsCoreName u name n

  -- A query for the address of a name of the grammar, written with or without the dot at its end, gets
  -- a success with this node's address if the registry serves the name, and a name error without
  -- records if it does not; it is never refused.
  pub serve_dns-lookup :
      (r : Registry) (req : Message lib.Rest) (q : Question) (name : Text) (dotted : Bool)
      → IsCoreName name
      → q.name ≡ (if dotted then name ++ bytes "." else name)
      → q.qclass ≡ lib.class_inet
      → q.qtype ≡ lib.type_a
      → req.question ≡ q ∷ []
      → req.opcode ≡ lib.opcode_query
      → ((serve_dns u lib answer (lookup u r) req).rcode
          ≡ (if is_some (lookup u r name) then lib.rcode_success else lib.rcode_name_error))
        × ((serve_dns u lib answer (lookup u r) req).answer
            ≡ (if is_some (lookup u r name) then record_for q ∷ [] else []))
  unfolding serve_dns answer_question
  serve_dns-lookup r req q name dotted n written internet address alone query =
      let normal : normalize_name u q.name ≡ name =
        ap (normalize_name u) written ∙ asked_name name dotted n in
      let core = is_core_name-IsCoreName name n in
      let fresh = lib.set_reply-answer req in
      let success = lib.set_reply-rcode req in
      rw alone (ground (arith, query, internet, address, normal, core, fresh, success))
