-- ===== src/Discovery/Container/Address.antt =====
-- `address` of internal/discovery/docker.go: the choice among several networks is deterministic.
use corenet.Common.{
  Text, ◌≡◌, ◌≢◌, ◌↔◌, refl, sym, ap, ◌∙◌, true, List, [], ◌∷◌, arith, Map, get, IsMap, is_some,
  is_empty, text_eq, text_lt, text_eq_iff, find_by, IsSorted, find_by_smaller, if◌then◌else◌,
  Bool-cases, Option-cases, inl, inr, itself, keys-IsSorted, find_by-sorted_keys, Above-lt,
  present_cases, is_empty-ne-nil, ne-nil-is_empty,
}
use corenet.Discovery.Container.{Container, made, or_empty, first_address, address}

-- The container's address on a network, empty where it has none.
abbrev pub ip_on : Map Text → Text → Text
ip_on networks name = or_empty (get networks name)

-- The address on the first network, by name, that has one.
pub record IsFirst (networks : Map Text) (ip : Text) : Type 0 where
  pub network : Text
  pub there : ip_on networks network ≡ ip
  pub filled : ip ≢ []
  pub before : (j : Text) → text_lt j network ≡ true → ip_on networks j ≡ []

empty-nil : (s : Text) → is_empty s ≡ true → s ≡ []
empty-nil [] h = refl
empty-nil (c ∷ s) h = absurd (cc h)

module _ (networks : Map Text) where
  first_address-lowest :
      (names : List Text) (ip : Text)
      → IsSorted itself names
      → first_address networks names ≡ made ip
      → (n : Text) × (ip_on networks n ≡ ip)
        × (ip ≢ [])
        × ((j : Text)
            → text_lt j n ≡ true
            → is_some (find_by itself j names) ≡ true
            → ip_on networks j ≡ [])
  unfolding first_address
  first_address-lowest [] ip o h = absurd (cc h)
  first_address-lowest (name ∷ names) ip o h = elim (Bool-cases (is_empty (ip_on networks name))) [
    | inr filled ↦
        let same : ip_on networks name ≡ ip = ground (arith, h, filled) in
        (
          name,
          same,
          (λ e. is_empty-ne-nil (ip_on networks name) filled (same ∙ e)),
          λ j lt found.
              absurd (cc (found, ap is_some (find_by_smaller itself j name names lt o.0))),
        )
    | inl empty ↦
        let (n, there, filled, below) =
          first_address-lowest names ip o.1 (ground (arith, h, empty)) in
        (
          n,
          there,
          filled,
          λ j lt found. elim (present_cases name j names found) [
            | inl same ↦ ap (ip_on networks) (sym same) ∙ empty-nil (ip_on networks name) empty
            | inr later ↦ below j lt later
          ],
        )
  ]

  lowest-first_address :
      (names : List Text) (n ip : Text)
      → IsSorted itself names
      → is_some (find_by itself n names) ≡ true
      → ip_on networks n ≡ ip
      → ip ≢ []
      → ((j : Text) → text_lt j n ≡ true → ip_on networks j ≡ [])
      → first_address networks names ≡ made ip
  unfolding first_address find_by
  lowest-first_address [] n ip o found there filled below = absurd (cc found)
  lowest-first_address (name ∷ names) n ip o found there filled below =
      elim (Bool-cases (text_eq name n)) [
        | inl same ↦
            let at : name ≡ n = (text_eq_iff name n).0 same in
            let has : ip_on networks name ≡ ip = ap (ip_on networks) at ∙ there in
            rw has (ground (arith, ne-nil-is_empty ip filled))
        | inr other ↦
            let later : is_some (find_by itself n names) ≡ true = ground (arith, found, other) in
            let none_here = below name (Above-lt name n names o.0 later) in
            rw none_here (lowest-first_address names n ip o.1 later there filled below)
      ]

  known_of_ip : (n : Text) → ip_on networks n ≢ [] → is_some (get networks n) ≡ true
  unfolding get
  known_of_ip n h = elim (Option-cases (get networks n)) [
    | inl gone ↦ absurd (h (ap or_empty gone))
    | inr (ip, there) ↦ ap is_some there
  ]

  ip_unknown :
      (j : Text) → (is_some (get networks j) ≡ true → ip_on networks j ≡ []) → ip_on networks j ≡ []
  ip_unknown j f = elim (Option-cases (get networks j)) [
    | inl gone ↦ ap or_empty gone
    | inr (ip, there) ↦ f (ap is_some there)
  ]

-- For a container whose networks have distinct names, in whatever order they are listed: without a
-- preferred network the address is the one on the first network, by name, on which the container
-- has an address; with one it is the address on that network, which must not be empty.
pub address_iff :
    (c : Container) (preferred ip : Text)
    → IsMap c.networks
    → (address c preferred ≡ made ip) ↔ (
        if is_empty preferred
        then IsFirst c.networks ip
        else ((ip_on c.networks preferred ≡ ip) × (ip ≢ [])))
unfolding address
address_iff c [] ip m =
    let sorted = keys-IsSorted c.networks m in
    (
      λ h.
          let (n, there, filled, below) = first_address-lowest c.networks _ ip sorted h in
          record {
            network = n;
            there = there;
            filled = filled;
            before = λ j lt.
                ip_unknown c.networks j
                  (λ known. below j lt (find_by-sorted_keys c.networks j ∙ known));
          },
      λ f.
          lowest-first_address c.networks _ f.network ip sorted
            (find_by-sorted_keys c.networks f.network
              ∙ known_of_ip c.networks f.network (λ e. f.filled (sym f.there ∙ e)))
            f.there f.filled f.before,
    )
address_iff c (b ∷ preferred) ip m =
    elim (Bool-cases (is_empty (ip_on c.networks (b ∷ preferred)))) [
      | inl empty ↦ (
        λ h. absurd (ground (arith, h, empty)),
        λ (there, filled). absurd (filled (sym there ∙ empty-nil _ empty)),
      )
      | inr filled ↦ (
        λ h.
            let same : ip_on c.networks (b ∷ preferred) ≡ ip = ground (arith, h, filled) in
            (same, λ e. is_empty-ne-nil _ filled (same ∙ e)),
        λ (there, _). ground (arith, there, filled),
      )
    ]
