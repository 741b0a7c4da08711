-- ===== src/Dns.antt =====
-- internal/dns/dns.go: the handler of DNS queries; Dns/Server has the server around it. What the package
-- github.com/miekg/dns provides is a parameter, `Library`.
pub mod Answers
pub mod Server
pub mod Tests
use corenet.Common.{
  ℕ, ◌+◌, Text, bytes, Bool, true, false, not, ◌&&◌, ◌||◌, ◌==◌, ltb, List, [], ◌∷◌, ◌++◌, Option,
  none, some, if◌then◌else◌, length, is_some, has_suffix, Unicode, ◌≡◌, ◌≢◌,
}
use corenet.Protocol.{Service, tld}
use corenet.Protocol.Names.{normalize_name}

pub record Question : Type 0 where
  pub name : Text
  pub qtype : ℕ
  pub qclass : ℕ

-- An A record with its header.
pub record A : Type 0 where
  pub name : Text
  pub rrtype : ℕ
  pub class : ℕ
  pub ttl : ℕ
  pub address : Text

-- The fields of a message that the handler reads or writes; `rest` is what only the library looks at.
pub record Message (Rest : Type 0) : Type 0 where
  pub opcode : ℕ
  pub authoritative : Bool
  pub recursion_available : Bool
  pub rcode : ℕ
  pub question : List Question
  pub answer : List A
  pub rest : Rest

-- The part of the library that the handler uses: its constants and `SetReply`, which makes a message of
-- success without records of what it replies to.
pub record Library : Type 1 where
  pub Rest : Type 0
  pub opcode_query : ℕ
  pub class_inet : ℕ
  pub type_a : ℕ
  pub rcode_success : ℕ
  pub rcode_format_error : ℕ
  pub rcode_name_error : ℕ
  pub rcode_refused : ℕ
  pub set_reply : Message Rest → Message Rest
  pub set_reply-rcode : (m : Message Rest) → (set_reply m).rcode ≡ rcode_success
  pub set_reply-answer : (m : Message Rest) → (set_reply m).answer ≡ []

-- `Directory`, the part of the registry that the server needs.
abbrev pub Directory : Type 0
Directory = Text → Option Service

-- `isCoreName`
unfoldable pub is_core_name : Text → Bool
unfolding has_suffix
is_core_name name = has_suffix name (b'.' ∷ tld) && ltb (length tld + 1) (length name)

module _ (u : Unicode) (lib : Library) (answer : Text) (dir : Directory) where
  -- The reply to one question.
  unfoldable pub answer_question : Question → Message lib.Rest → Message lib.Rest
  unfolding is_core_name
  answer_question q reply =
      let name = normalize_name u q.name in
      if not (q.qclass == lib.class_inet) || not (is_core_name name)
      then record reply { rcode = lib.rcode_refused }
      else if not (is_some (dir name))
      then record reply { rcode = lib.rcode_name_error }
      else if q.qtype == lib.type_a
      then record reply {
        answer =
            reply.answer
            ++ record {
              name = q.name;
              rrtype = lib.type_a;
              class = lib.class_inet;
              ttl = 0;
              address = answer;
            }
              ∷ [];
      }
      else reply

  -- `ServeDNS`; a query has exactly one question.
  unfoldable pub serve_dns : Message lib.Rest → Message lib.Rest
  unfolding answer_question
  serve_dns req =
      let reply = record (lib.set_reply req) {
        authoritative = true;
        recursion_available = false;
      } in
      let refused = record reply { rcode = lib.rcode_format_error } in
      if not (req.opcode == lib.opcode_query) then refused else elim req.question [
        | [] ↦ refused
        | q ∷ qs ↦ elim qs [ [] ↦ answer_question q reply | _ ∷ _ ↦ refused ]
      ]
