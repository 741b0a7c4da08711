-- ===== src/Config/Checks.antt =====
-- What a usable configuration is, and the single checks of `Validate` of internal/config/config.go.
use corenet.Common.{
  Text, ℤ, pos, leb_ℤ, ◌≡◌, ◌≢◌, ◌↔◌, refl, ap, ◌∙◌, Bool, true, false, not, ◌&&◌, List, [], ◌∷◌,
  some, arith, All, is_some, is_empty, Bool-cases, Option-cases, inl, inr, IsDistinct,
  split_host_port, atoi, is_empty-ne-nil, ne-nil-is_empty,
}
use corenet.Protocol.{Service, source_config}
use corenet.Registry.Invariant.{IsUsable}
use corenet.Registry.Listing.{by_name}
use corenet.Config.{
  Config, ConfigError, bad_listener, Checked, passed, failed, ◌>>=◌, refuse_if, check_listener,
  check_node, check_nodes,
}

-- A service as the configuration should leave it.
abbrev pub IsOwn : Service → Type 0
IsOwn s = IsUsable source_config s.name s

-- An address to listen on, or nothing.
abbrev pub IsListener : Text → Type 0
IsListener value = (not (is_empty value) && not (is_some (split_host_port value))) ≡ false

-- The endpoint of a node: a host and a number.
pub record IsEndpoint (endpoint : Text) : Type 0 where
  pub host : Text
  pub port : Text
  pub number : ℤ
  pub splits : split_host_port endpoint ≡ some (host, port)
  pub hosted : host ≢ []
  pub numbered : atoi port ≡ some number

pub record IsValid (c : Config) : Type 0 where
  pub identified : c.node.id ≢ []
  pub controlled : c.listen.control ≢ []
  pub dns : IsListener c.listen.dns
  pub http : IsListener c.listen.http
  pub peer : IsListener c.listen.peer
  pub services : All IsOwn c.services
  pub distinct : IsDistinct by_name c.services
  pub pull : leb_ℤ (pos 0) c.pull_interval_seconds ≡ true
  pub poll : leb_ℤ (pos 0) c.docker.poll_interval_seconds ≡ true
  pub nodes : All IsEndpoint c.nodes

pub bind-eq-passed {ℓ κ} :
    {A : Type ℓ} {B : Type κ} (m : Checked A) (f : A → Checked B) {b : B}
    → (m >>= f) ≡ passed b
    → (a : A) × (m ≡ passed a) × (f a ≡ passed b)
bind-eq-passed (passed a) f h = (a, refl, h)
bind-eq-passed (failed e) f h = absurd (cc h)

pub passed-injective {ℓ} : {A : Type ℓ} {a b : A} → passed a ≡ passed b → a ≡ b
passed-injective h = cc h

pub not-false : (b : Bool) → not b ≡ false → b ≡ true
not-false true h = refl
not-false false h = cc h

pub refuse_if-passed :
    (b : Bool) (e : ConfigError) {t : Unit {0}} → refuse_if b e ≡ passed t → b ≡ false
refuse_if-passed true e h = absurd (cc h)
refuse_if-passed false e h = refl

pub check_listener-passed :
    (field value : Text) {t : Unit {0}} → check_listener field value ≡ passed t → IsListener value
unfolding check_listener
check_listener-passed field value h = refuse_if-passed _ _ h

pub listener-check_listener :
    (field value : Text) → IsListener value → check_listener field value ≡ passed tt
unfolding check_listener
listener-check_listener field value h = ap (λ b. refuse_if b (bad_listener field value)) h

check_node_iff : (endpoint : Text) → (check_node endpoint ≡ passed tt) ↔ IsEndpoint endpoint
unfolding check_node
check_node_iff endpoint = (
  λ h. elim (Option-cases (split_host_port endpoint)) [
    | inl bad ↦ absurd (ground (arith, h, bad))
    | inr (p, splits) ↦ elim (Bool-cases (is_empty p.0)) [
      | inl bare ↦ absurd (ground (arith, h, splits, bare))
      | inr hosted ↦ elim (Option-cases (atoi p.1)) [
        | inl bad ↦ absurd (ground (arith, h, splits, hosted, bad))
        | inr (number, numbered) ↦ record {
          host = p.0;
          port = p.1;
          number = number;
          splits = splits;
          hosted = is_empty-ne-nil p.0 hosted;
          numbered = numbered;
        }
      ]
    ]
  ],
  λ e. ground (arith, e.splits, e.numbered, ne-nil-is_empty e.host e.hosted),
)

pub check_nodes_iff : (nodes : List Text) → (check_nodes nodes ≡ passed tt) ↔ All IsEndpoint nodes
unfolding check_nodes
check_nodes_iff [] = (λ _. tt, λ _. refl)
check_nodes_iff (n ∷ ns) = (
  λ h.
      let (_, first, rest) = bind-eq-passed (check_node n) (λ _. check_nodes ns) h in
      ((check_node_iff n).0 first, (check_nodes_iff ns).0 rest),
  λ (first, rest).
      ap (λ m. m >>= (λ _. check_nodes ns)) ((check_node_iff n).1 first)
      ∙ (check_nodes_iff ns).1 rest,
)
