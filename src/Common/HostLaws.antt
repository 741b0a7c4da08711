-- ===== src/Common/HostLaws.antt =====
-- `net.SplitHostPort` takes apart what `net.JoinHostPort` has put together.
use Prim.Native.Nat.{ℕ}
use mathlib.Core.Path.{◌≡◌, refl, ap}
use mathlib.Core.Bool.{true, false, ◌||◌}
use mathlib.Core.Option.{none, some}
use mathlib.Core.List.{[], ◌∷◌, ◌++◌}
use native.Mathlib.Omega.{arith}
use mathlib.Core.Logic.{inl, inr}
use corenet.Common.Tests.{Bool-cases}
use corenet.Common.Lists.{length-append}
use corenet.Common.Bytes.{Text}
use corenet.Common.Hosts.{
  contains, cut, cut_last, split_bracketed, split_plain, split_host_port, join_host_port,
  starts_with,
}

-- None of the bytes that separate the parts of an address.
pub record IsBare (s : Text) : Type 0 where
  pub opening : contains b'[' s ≡ false
  pub closing : contains b']' s ≡ false

pub contains-append : (d : ℕ) (s t : Text) → contains d (s ++ t) ≡ (contains d s || contains d t)
unfolding contains
contains-append d [] t = refl
contains-append d (c ∷ s) t = ground (arith, contains-append d s t)

pub cut_last-eq-none : (d : ℕ) (s : Text) → contains d s ≡ false → cut_last d s ≡ none
unfolding contains cut_last
cut_last-eq-none d [] h = refl
cut_last-eq-none d (c ∷ s) h = ground (arith, cut_last-eq-none d s, h)

pub cut_last-append :
    (d : ℕ) (s t : Text) → contains d t ≡ false → cut_last d (s ++ d ∷ t) ≡ some (s, t)
unfolding cut_last
cut_last-append d [] t h = ground (arith, cut_last-eq-none d t h)
cut_last-append d (c ∷ s) t h = rw (cut_last-append d s t h) refl

cut-append : (d : ℕ) (s t : Text) → contains d s ≡ false → cut d (s ++ d ∷ t) ≡ some (s, t)
unfolding contains cut
cut-append d [] t h = ground arith
cut-append d (c ∷ s) t h = ground (arith, cut-append d s t, h)

starts_with-contains : (d : ℕ) (s : Text) → contains d s ≡ false → starts_with d s ≡ false
unfolding contains
starts_with-contains d [] h = refl
starts_with-contains d (c ∷ s) h = ground (arith, h)

pub split-host_port_plain :
    (host port : Text)
    → IsBare host
    → IsBare port
    → contains b':' host ≡ false
    → contains b':' port ≡ false
    → split_host_port (host ++ b':' ∷ port) ≡ some (host, port)
unfolding split_host_port split_plain contains
split-host_port_plain host port h p no_colon p_colon = ground (
  arith,
  h.opening,
  h.closing,
  p.opening,
  p.closing,
  no_colon,
  cut_last-append b':' host port p_colon,
  contains-append b'[' host (b':' ∷ port),
  contains-append b']' host (b':' ∷ port),
  starts_with-contains b'[' (host ++ b':' ∷ port),
)

split-bracketed :
    (host port : Text)
    → IsBare host
    → IsBare port
    → contains b':' port ≡ false
    → split_host_port (b'[' ∷ (host ++ b']' ∷ b':' ∷ port)) ≡ some (host, port)
unfolding split_host_port split_bracketed contains
split-bracketed host port h p p_colon = ground (
  arith,
  h.opening,
  h.closing,
  p.opening,
  p.closing,
  cut_last-append b':' (b'[' ∷ (host ++ b']' ∷ [])) port p_colon,
  append_right host (b':' ∷ port),
  cut-append b']' (b'[' ∷ host) (b':' ∷ port),
  contains-append b'[' host (b']' ∷ b':' ∷ port),
  length-append {0} host (b']' ∷ []),
)
  where
    append_right : (s t : Text) → (s ++ b']' ∷ []) ++ t ≡ s ++ b']' ∷ t
    append_right [] t = refl
    append_right (c ∷ s) t = ap (λ (u : Text). c ∷ u) (append_right s t)

-- A host without brackets, and a port without brackets and colons, come back from their address.
pub split-join_host_port :
    (host port : Text)
    → IsBare host
    → IsBare port
    → contains b':' port ≡ false
    → split_host_port (join_host_port host port) ≡ some (host, port)
unfolding join_host_port
split-join_host_port host port h p p_colon = elim (Bool-cases (contains b':' host)) [
  | inl colon ↦ rw colon (split-bracketed host port h p p_colon)
  | inr no_colon ↦ rw no_colon (split-host_port_plain host port h p no_colon p_colon)
]

-- A host alone, without a colon, does not split.
pub split-host_alone : (host : Text) → contains b':' host ≡ false → split_host_port host ≡ none
unfolding split_host_port
split-host_alone host h = ground (arith, cut_last-eq-none b':' host h)

-- A host with a colon, but no bracket, does not come back.
pub split-colon :
    (host port : Text)
    → IsBare host
    → contains b':' host ≡ true
    → contains b':' port ≡ false
    → split_host_port (host ++ b':' ∷ port) ≡ none
unfolding split_host_port split_plain
split-colon host port h colon p_colon = ground (
  arith,
  colon,
  cut_last-append b':' host port p_colon,
  starts_with-append host (b':' ∷ port) h.opening refl,
)
  where
    starts_with-append :
        (s t : Text)
        → contains b'[' s ≡ false
        → starts_with b'[' t ≡ false
        → starts_with b'[' (s ++ t) ≡ false
    starts_with-append [] t h k = k
    starts_with-append (c ∷ s) t h k = starts_with-contains b'[' (c ∷ s) h
