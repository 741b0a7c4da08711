-- ===== src/Protocol/Targets.antt =====
-- `Addr` of pkg/protocol/protocol.go, which the proxy dials.
use corenet.Common.{
  ℕ, ℤ, pos, negsuc, ◌≡◌, ◌↔◌, refl, sym, ◌∙◌, false, [], ◌∷◌, some, arith, zero, suc, contains,
  contains-append, IsBare, split_host_port, split-host_port_plain, split-colon, decimal,
  decimal_rounds, decimal_ℤ, ltb, cut_last-append, Bool-cases, inl, inr, ◌⊎◌,
}
use Prim.Native.Nat.{◌/◌, ◌%◌, ◌+◌}
use corenet.Protocol.{Service, addr}

-- Whether a byte is none of those that a number is written with.
abbrev IsSeparator : ℕ → Type 0
IsSeparator d = (d ≡ b':') ⊎ ((d ≡ b'[') ⊎ (d ≡ b']'))

contains-decimal_rounds : (d f n : ℕ) → IsSeparator d → contains d (decimal_rounds f n) ≡ false
unfolding contains decimal_rounds
contains-decimal_rounds d zero n k = refl
contains-decimal_rounds d (suc f) n k = elim (Bool-cases (ltb n 10)) [
  | inl last ↦ ground (arith, last, k)
  | inr more ↦ ground (
    arith,
    more,
    k,
    contains-decimal_rounds d f (n / 10) k,
    contains-append d (decimal_rounds f (n / 10)) ((48 + n % 10) ∷ []),
  )
]

contains-decimal_ℤ : (d : ℕ) (p : ℤ) → IsSeparator d → contains d (decimal_ℤ p) ≡ false
unfolding contains decimal_ℤ decimal
contains-decimal_ℤ d (pos n) k = contains-decimal_rounds d (suc n) n k
contains-decimal_ℤ d (negsuc n) k =
    ground (arith, contains-decimal_rounds d (suc (suc n)) (suc n) k, k)

-- The address that the proxy dials for a service, whose own address holds no bracket, splits into the
-- service's address and port exactly if the service's address holds no colon, and so never for an IPv6
-- address.
pub split-addr_iff :
    (s : Service)
    → IsBare s.address
    → (split_host_port (addr s) ≡ some (s.address, decimal_ℤ s.port))
      ↔ (contains b':' s.address ≡ false)
unfolding addr
split-addr_iff s h =
    let p = contains-decimal_ℤ b':' s.port (inl refl) in
    let cut = cut_last-append b':' s.address (decimal_ℤ s.port) p in
    let bare_port : IsBare (decimal_ℤ s.port) = record {
      opening = contains-decimal_ℤ b'[' s.port (inr (inl refl));
      closing = contains-decimal_ℤ b']' s.port (inr (inr refl));
    } in
    (
      λ splits. elim (Bool-cases (contains b':' s.address)) [
        | inr no_colon ↦ no_colon
        | inl colon ↦
            absurd (cc (sym (split-colon s.address (decimal_ℤ s.port) h colon p) ∙ splits))
      ],
      λ no_colon. split-host_port_plain s.address (decimal_ℤ s.port) h bare_port no_colon p,
    )
