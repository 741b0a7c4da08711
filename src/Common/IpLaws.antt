-- ===== src/Common/IpLaws.antt =====
-- Go's net.ParseIP reads back a dotted quad.
use Prim.Native.Nat.{ℕ, zero, suc, ◌<◌}
use mathlib.Core.Path.{◌≡◌, refl}
use mathlib.Core.Logic.{◌≢◌, inl, inr}
use mathlib.Core.Bool.{Bool, true, false, ◌&&◌}
use mathlib.Core.Option.{none, some}
use mathlib.Core.List.{List, [], ◌∷◌, ◌++◌}
use native.Mathlib.Omega.{arith}
use corenet.Common.Tests.{leb, ◌==◌, Bool-cases}
use corenet.Common.Lists.{all, All, All-append}
use corenet.Common.Bytes.{Text}
use corenet.Common.Strings.{join}
use corenet.Common.Splitting.{Lacks, split-join}
use corenet.Common.Decimal.{decimal}
use corenet.Common.Hosts.{contains}
use corenet.Common.Ips.{octet, octets, parse_quad, parse_ip, dot_first, mapped}

-- Whether a test holds below a number.
abbrev all_below : (ℕ → Bool) → ℕ → Bool
all_below p zero = true
all_below p (suc n) = p n && all_below p n

all_below-at : (p : ℕ → Bool) (n k : ℕ) → all_below p n ≡ true → k < n → p k ≡ true
all_below-at p zero k h lt = absurd (omega (arith, lt))
all_below-at p (suc n) k h lt = elim (Bool-cases (k == n)) [
  | inl same ↦ ground (arith, h, same)
  | inr less ↦ all_below-at p n k (ground (arith, h)) (ground (arith, lt, less))
]

abbrev is_digit : ℕ → Bool
is_digit c = leb b'0' c && leb c b'9'

abbrev reads_back : ℕ → Bool
reads_back n =
    all is_digit (decimal n) && elim (octet (decimal n)) [ none ↦ false | some m ↦ m == n ]

all_read_back : all_below reads_back 256 ≡ true
unfolding octet decimal
all_read_back = refl

-- The decimal text of a number below 256: digits, which read back as the number.
below-digits : (n : ℕ) → n < 256 → all is_digit (decimal n) ≡ true
below-digits n lt = ground (arith, all_below-at reads_back 256 n all_read_back lt)

octet-decimal : (n : ℕ) → n < 256 → octet (decimal n) ≡ some n
octet-decimal n lt = ground (arith, all_below-at reads_back 256 n all_read_back lt)

digits-lack : (d : ℕ) (s : Text) → is_digit d ≡ false → all is_digit s ≡ true → Lacks d s
digits-lack d [] e h = tt
digits-lack d (c ∷ s) e h = (ground (arith, e, h), digits-lack d s e (ground (arith, h)))

contains-lack : (d : ℕ) (s : Text) → Lacks d s → contains d s ≡ false
unfolding contains
contains-lack d [] h = refl
contains-lack d (c ∷ s) h = ground (arith, h.0, contains-lack d s h.1)

dot_first-digits : (s t : Text) → all is_digit s ≡ true → dot_first (s ++ (b'.' ∷ t)) ≡ true
unfolding dot_first
dot_first-digits [] t h = refl
dot_first-digits (c ∷ s) t h = ground (arith, h, dot_first-digits s t)

join-lack : (d : ℕ) (ps : List Text) → b'.' ≢ d → All (Lacks d) ps → Lacks d (join b'.' ps)
unfolding join
join-lack d [] n h = tt
join-lack d (p ∷ []) n h = h.0
join-lack d (p ∷ q ∷ ps) n h =
    All-append (λ c. c ≢ d) p (b'.' ∷ join b'.' (q ∷ ps)) h.0 (n, join-lack d (q ∷ ps) n h.1)

-- The four numbers of a dotted quad.
pub record IsQuad (a b c d : ℕ) : Type 0 where
  pub first : a < 256
  pub second : b < 256
  pub third : c < 256
  pub fourth : d < 256

-- `%d.%d.%d.%d`
abbrev pub quad_text : ℕ → ℕ → ℕ → ℕ → Text
quad_text a b c d = join b'.' (decimal a ∷ decimal b ∷ decimal c ∷ decimal d ∷ [])

module _ (a b c d : ℕ) (q : IsQuad a b c d) where
  quad-Lacks :
      (x : ℕ)
      → is_digit x ≡ false
      → All (Lacks x) (decimal a ∷ decimal b ∷ decimal c ∷ decimal d ∷ [])
  quad-Lacks x e = (
    digits-lack x (decimal a) e (below-digits a q.first),
    (
      digits-lack x (decimal b) e (below-digits b q.second),
      (
        digits-lack x (decimal c) e (below-digits c q.third),
        (digits-lack x (decimal d) e (below-digits d q.fourth), tt),
      ),
    ),
  )

  parse_quad-text : parse_quad (quad_text a b c d) ≡ some (a ∷ b ∷ c ∷ d ∷ [])
  unfolding parse_quad octets
  parse_quad-text =
      rw
        (
          split-join b'.' (decimal a) (decimal b ∷ decimal c ∷ decimal d ∷ [])
              (quad-Lacks b'.' refl),
          octets,
          octet-decimal a q.first,
          octet-decimal b q.second,
          octet-decimal c q.third,
          octet-decimal d q.fourth,
        )
        refl

  text-no_zone : contains b'%' (quad_text a b c d) ≡ false
  text-no_zone = contains-lack b'%' (quad_text a b c d) (
      join-lack b'%' (decimal a ∷ decimal b ∷ decimal c ∷ decimal d ∷ []) (omega arith)
        (quad-Lacks b'%' refl))

  -- `net.ParseIP` and `To4` give the four numbers of a dotted quad back.
  pub parse_ip-text : parse_ip (quad_text a b c d) ≡ some (mapped ++ (a ∷ b ∷ c ∷ d ∷ []))
  unfolding parse_ip join
  parse_ip-text =
      rw
        (
          text-no_zone,
          dot_first-digits (decimal a) (join b'.' (decimal b ∷ decimal c ∷ decimal d ∷ []))
              (below-digits a q.first),
          parse_quad-text,
        )
        refl
