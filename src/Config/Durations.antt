-- ===== src/Config/Durations.antt =====
-- The intervals of internal/config/config.go as the 64-bit durations that Go computes.
use corenet.Common.{ℕ, pos, ◌≡◌, ◌≤◌, ◌<◌, ◌*◌, ◌↔◌, ap, ◌∙◌, arith, zero, suc}
use Prim.Native.Nat.{◌%◌}
use corenet.Config.{interval, signed}

signed-eq-pos : (m k : ℕ) → signed m ≡ pos k → (m ≡ k) × (m < 9223372036854775808)
signed-eq-pos m k h = ground (arith, h)

signed-small : (m : ℕ) → m < 9223372036854775808 → signed m ≡ pos m
signed-small m h = ground (arith, h)

small_product : (n : ℕ) → n ≤ 9223372036 → (n * 1000000000) % 18446744073709551616 ≡ n * 1000000000
small_product n h = omega (arith, h)

-- A configured interval of one second or more comes out as exactly its nanoseconds if and only if
-- it is at most 9223372036 seconds.
pub interval_iff :
    (default n : ℕ) → 1 ≤ n → (interval default (pos n) ≡ pos (n * 1000000000)) ↔ (n ≤ 9223372036)
unfolding interval
interval_iff default zero lo = absurd (omega (arith, lo))
interval_iff default (suc n) lo = (
  λ h.
      let (same, small) =
        signed-eq-pos ((suc n * 1000000000) % 18446744073709551616) (suc n * 1000000000) h in
      omega (arith, same, small),
  λ h. ap signed (small_product (suc n) h) ∙ signed-small (suc n * 1000000000) (omega (arith, h)),
)
