-- ===== src/Discovery/Polling/Tests.antt =====
-- Witnesses and tests for internal/discovery: two containers that claim one name, and one of its own.
use corenet.Common.{
  HttpAnswer, no_answer, replied, true, ℕ, Text, pos, bytes, ◌≡◌, refl, List, [], ◌∷◌, none, some,
  get, plain_unicode, if◌then◌else◌, length, ltb, atoi, sort_by, insert_by, text_lt,
}
use corenet.Registry.{new, conflict}
use corenet.Protocol.{source_docker}
use corenet.Protocol.Names.{normalize_name, validate_name}
use corenet.Discovery.Container.{
  Container, Refusal, label_name, label_port, label_service, service_http, made, service,
  container_name,
}
use corenet.Discovery.Container.Usable.{service-IsDescribed, IsDescribed}
use corenet.Discovery.Polling.{
  Listing, failure, list_containers, Docker, new_docker, containers, poll, contested,
}
use corenet.Discovery.Polling.Claims.{claimants, last_claim}
use corenet.Discovery.Polling.Effect.{poll_lem}
use corenet.Discovery.Polling.Listed.{is_refused, poll-list_containers}

abbrev container : List ℕ → List ℕ → List ℕ → Container
container id name ip = record {
  id = id;
  names = [];
  state = bytes "running";
  labels = (label_name, name) ∷ (label_service, service_http) ∷ (label_port, bytes "8080") ∷ [];
  networks = (bytes "web", ip) ∷ (bytes "app", []) ∷ [];
}

abbrev wiki_1 : Container
wiki_1 = container (bytes "c1") (bytes "Wiki.core") (bytes "10.0.0.2")

abbrev wiki_2 : Container
wiki_2 = container (bytes "c2") (bytes "wiki.core.") (bytes "10.0.0.3")

abbrev mail : Container
mail = container (bytes "c3") (bytes "mail.core") (bytes "10.0.0.4")

abbrev running : List Container
running = wiki_1 ∷ mail ∷ wiki_2 ∷ []

abbrev wording : Refusal → Text
wording e = bytes "refused"

abbrev docker : Docker
docker = new_docker new []

-- Both containers that say "wiki.core", in some spelling, claim it.
wiki_claimed : claimants plain_unicode [] (bytes "wiki.core") running ≡ bytes "c1" ∷ bytes "c2" ∷ []
unfolding claimants service normalize_name get validate_name atoi sort_by insert_by text_lt
    container_name
wiki_claimed = refl

mail_made :
    service plain_unicode mail []
    ≡ made (record {
      name = bytes "mail.core";
      address = bytes "10.0.0.4";
      port = pos 8080;
      source = source_docker;
    })
unfolding service normalize_name get validate_name atoi sort_by insert_by text_lt
mail_made = refl

poll_lem_example :
    (get (poll plain_unicode wording (containers running) docker).store.docker (bytes "wiki.core")
      ≡ (if ltb (length (claimants plain_unicode [] (bytes "wiki.core") running)) 2
          then last_claim plain_unicode [] (bytes "wiki.core") running
          else none))
    × (conflict plain_unicode
          (poll plain_unicode wording (containers running) docker).store
          (bytes "wiki.core")
        ≡ (if ltb
              (length (
                claimants plain_unicode []
                  (normalize_name plain_unicode (bytes "wiki.core"))
                  running))
              2
            then none
            else some (
                contested (normalize_name plain_unicode (bytes "wiki.core")) (
                  claimants plain_unicode []
                    (normalize_name plain_unicode (bytes "wiki.core"))
                    running))))
poll_lem_example = poll_lem plain_unicode wording running docker (bytes "wiki.core")

abbrev polled : Docker
polled = poll plain_unicode wording (containers running) docker

service-IsDescribed_example : IsDescribed plain_unicode mail [] (record {
  name = bytes "mail.core";
  address = bytes "10.0.0.4";
  port = pos 8080;
  source = source_docker;
})
service-IsDescribed_example = service-IsDescribed plain_unicode mail [] _ mail_made

-- Docker has stopped, and is then starting again.
abbrev starting : HttpAnswer
starting =
    replied (record { code = 503; status = bytes "503 Service Unavailable"; body = bytes "" })

starting-is_refused : is_refused starting ≡ true
unfolding is_refused
starting-is_refused = refl

gone-is_refused : is_refused (no_answer (bytes "connection refused")) ≡ true
unfolding is_refused
gone-is_refused = refl

abbrev decode_nothing : Text → Listing
decode_nothing body = failure (bytes "unexpected end")

was_available : polled.available ≡ true
unfolding poll normalize_name get validate_name atoi sort_by insert_by text_lt
was_available = refl

poll-list_containers_example :
    ((name : Text)
      → (get
            (poll plain_unicode wording
              (list_containers decode_nothing (no_answer (bytes "connection refused")))
              polled).store.docker
            name
          ≡ none)
        × (conflict plain_unicode
              (poll plain_unicode wording
                (list_containers decode_nothing (no_answer (bytes "connection refused")))
                polled).store
              name
            ≡ none))
    × (poll plain_unicode wording (list_containers decode_nothing starting) (
          poll plain_unicode wording
            (list_containers decode_nothing (no_answer (bytes "connection refused")))
            polled)
        ≡ poll plain_unicode wording
            (list_containers decode_nothing (no_answer (bytes "connection refused")))
            polled)
poll-list_containers_example =
    poll-list_containers plain_unicode wording decode_nothing
      (no_answer (bytes "connection refused")) starting polled was_available gone-is_refused
      starting-is_refused
