-- ===== src/Dns/Tests.antt =====
-- Witnesses for the DNS handler, at a library that keeps the message's other fields.
use corenet.Common.{
  text_eq, some, arith, quad_text, ℕ, Text, bytes, ◌≡◌, refl, true, false, [], ◌∷◌, none,
  plain_unicode, is_some, if◌then◌else◌,
}
use corenet.Protocol.Names.{validate_name}
use corenet.Protocol.Grammar.{IsCoreName, validate_name_iff}
use corenet.Registry.{lookup}
use corenet.Registry.Tests.{demo}
use corenet.Dns.{Question, Message, Library, serve_dns}
use corenet.Dns.Server.{new_server, new_server-text}
use corenet.Dns.Answers.{record_for, serve_dns-lookup}

abbrev pub library : Library
library = record {
  Rest = ℕ;
  opcode_query = 0;
  class_inet = 1;
  type_a = 1;
  rcode_success = 0;
  rcode_format_error = 1;
  rcode_name_error = 3;
  rcode_refused = 5;
  set_reply = λ (m : Message ℕ). record m { rcode = 0; answer = [] };
  set_reply-rcode = λ m. refl;
  set_reply-answer = λ m. refl;
}

abbrev question : Question
question = record { name = bytes "Wiki.core."; qtype = 1; qclass = 1 }

abbrev pub dotted_question : Question
dotted_question = record { name = bytes "wiki.core."; qtype = 1; qclass = 1 }

abbrev pub query : Question → Message ℕ
query q = record {
  opcode = 0;
  authoritative = false;
  recursion_available = true;
  rcode = 0;
  question = q ∷ [];
  answer = [];
  rest = 7;
}

abbrev pub this_node : Text
this_node = bytes "127.0.0.1"

wiki_valid : validate_name plain_unicode (bytes "wiki.core") ≡ none
unfolding validate_name
wiki_valid = refl

pub wiki-IsCoreName : IsCoreName (bytes "wiki.core")
wiki-IsCoreName = (validate_name_iff plain_unicode (bytes "wiki.core")).0 wiki_valid

serve_dns-lookup_example :
    ((serve_dns plain_unicode library this_node
        (lookup plain_unicode demo)
        (query dotted_question)).rcode
      ≡ (if is_some (lookup plain_unicode demo (bytes "wiki.core")) then 0 else 3))
    × ((serve_dns plain_unicode library this_node
          (lookup plain_unicode demo)
          (query dotted_question)).answer
        ≡ (if is_some (lookup plain_unicode demo (bytes "wiki.core"))
            then record_for plain_unicode library this_node dotted_question ∷ []
            else []))
serve_dns-lookup_example =
    serve_dns-lookup plain_unicode library this_node demo (query dotted_question) dotted_question
      (bytes "wiki.core") true wiki-IsCoreName refl refl refl refl refl

new_server-text_example :
    new_server (bytes "127.0.0.1:53") (quad_text 10 0 0 255)
    ≡ some (record { addr = bytes "127.0.0.1:53"; answer = 10 ∷ 0 ∷ 0 ∷ 255 ∷ [] })
new_server-text_example = new_server-text (bytes "127.0.0.1:53") 10 0 0 255 (record {
  first = omega arith;
  second = omega arith;
  third = omega arith;
  fourth = omega arith;
})

-- An IPv4 address inside an IPv6 address, and what is no IPv4 address.
mapped_address :
    new_server [] (bytes "::ffff:7f00:1")
    ≡ some (record { addr = []; answer = 127 ∷ 0 ∷ 0 ∷ 1 ∷ [] })
unfolding new_server text_eq
mapped_address = refl

mapped_quad :
    new_server [] (bytes "0:0:0:0:0:FFFF:10.0.0.1")
    ≡ some (record { addr = []; answer = 10 ∷ 0 ∷ 0 ∷ 1 ∷ [] })
unfolding new_server text_eq
mapped_quad = refl

ipv6_loopback : new_server [] (bytes "::1") ≡ none
unfolding new_server text_eq
ipv6_loopback = refl

host_name_refused : new_server [] (bytes "localhost") ≡ none
unfolding new_server text_eq
host_name_refused = refl

leading_zero : new_server [] (bytes "127.0.0.01") ≡ none
unfolding new_server text_eq
leading_zero = refl
