-- ===== src/Daemon/Agreement/Tests.antt =====
-- The agreement of the three answers at a concrete registry.
use corenet.Common.{Text, bytes, ◌≡◌, ◌≢◌, ◌↔◌, refl, [], true, plain_unicode}
use corenet.Protocol.{Service, addr}
use corenet.Registry.{lookup}
use corenet.Registry.Tests.{demo}
use corenet.Dns.{serve_dns}
use corenet.Dns.Tests.{library, dotted_question, query, this_node, wiki-IsCoreName}
use corenet.Daemon.Proxy.{route, forwarded}
use corenet.Daemon.Proxy.Routing.{routes_of, IsHostFor}
use corenet.Daemon.Api.{handle_resolve, service_body}
use corenet.Daemon.Agreement.{IsQueryFor, answers_agree}

query-IsQueryFor : IsQueryFor library (bytes "wiki.core") (query dotted_question)
query-IsQueryFor = record {
  asked = dotted_question;
  dotted = true;
  written = refl;
  internet = refl;
  address = refl;
  alone = refl;
  query = refl;
}

answers_agree_example :
    (((serve_dns plain_unicode library this_node
          (lookup plain_unicode demo)
          (query dotted_question)).answer
        ≢ [])
      ↔ ((target : Text) × (route plain_unicode (routes_of plain_unicode demo) (bytes "wiki.core")
            ≡ forwarded target)))
    × ((target : Text)
        → (route plain_unicode (routes_of plain_unicode demo) (bytes "wiki.core")
            ≡ forwarded target)
          ↔ ((s : Service) × (handle_resolve plain_unicode (bytes "wiki.core") demo
                ≡ service_body s)
              × (addr s ≡ target)))
answers_agree_example =
    answers_agree plain_unicode library this_node demo (bytes "wiki.core") (bytes "wiki.core")
      (query dotted_question) wiki-IsCoreName query-IsQueryFor IsHostFor.alone
