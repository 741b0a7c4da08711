-- ===== src/Discovery/Polling/Listed.antt =====
-- What a poll of internal/discovery/discovery.go does where internal/discovery/docker.go gets no list.
use corenet.Common.{
  Text, bytes, ◌≡◌, refl, Bool, true, false, not, ◌==◌, none, ◌++◌, get, Unicode, HttpAnswer,
  no_answer, replied, Bool-cases, inl, inr,
}
use corenet.Registry.{conflict}
use corenet.Discovery.Container.{Refusal}
use corenet.Discovery.Polling.{Docker, Listing, failure, list_containers, poll}
use corenet.Discovery.Polling.Effect.{poll_failure}

-- Docker did not answer, or with another code than 200.
unfoldable pub is_refused : HttpAnswer → Bool
is_refused (no_answer e) = true
is_refused (replied r) = not (r.code == 200)

list_containers-failure :
    (decode : Text → Listing) (a : HttpAnswer)
    → is_refused a ≡ true
    → (e : Text) × (list_containers decode a ≡ failure e)
unfolding is_refused list_containers
list_containers-failure decode (no_answer e) h = (e, refl)
list_containers-failure decode (replied r) h = elim (Bool-cases (r.code == 200)) [
  | inl ok ↦ let clash : is_refused (replied r) ≡ false = rw ok refl in absurd (cc (h, clash))
  | inr other ↦ (bytes "docker returned " ++ r.status, rw other refl)
]

-- Where Docker was available and now does not answer, or answers with another code than 200, a poll clears
-- the services that Docker provided and the conflicts; after it a further such poll changes nothing.
pub poll-list_containers :
    (u : Unicode) (wording : Refusal → Text) (decode : Text → Listing) (a b : HttpAnswer)
    (d : Docker)
    → d.available ≡ true
    → is_refused a ≡ true
    → is_refused b ≡ true
    → ((name : Text)
        → (get (poll u wording (list_containers decode a) d).store.docker name ≡ none)
          × (conflict u (poll u wording (list_containers decode a) d).store name ≡ none))
      × (poll u wording (list_containers decode b) (poll u wording (list_containers decode a) d)
          ≡ poll u wording (list_containers decode a) d)
poll-list_containers u wording decode a b d up h k =
    let (e, first) = list_containers-failure decode a h in
    let (e', second) = list_containers-failure decode b k in
    rw (first, second) (poll_failure u wording e e' d up)
