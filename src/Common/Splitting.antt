-- ===== src/Common/Splitting.antt =====
-- `strings.Split` and `strings.Join` at one byte are inverse to each other, and what a suffix test
-- and a trim do at a text that is written as a prefix and an end.
use Prim.Native.Nat.{ℕ, ◌-◌, ◌≤◌, ◌<◌}
use mathlib.Core.Path.{◌≡◌, refl, ap, ◌∙◌}
use mathlib.Core.Logic.{◌≢◌}
use mathlib.Core.Bool.{true, false}
use mathlib.Core.List.{List, [], ◌∷◌, ◌++◌, map}
use native.Mathlib.Omega.{arith}
use corenet.Common.Tests.{if◌then◌else◌}
use corenet.Common.Lists.{length, take, drop, length-append, All}
use corenet.Common.Bytes.{Text, text_eq}
use corenet.Common.Strings.{
  Unicode, split, push, join, has_suffix, trim_suffix, is_ascii, lower_byte, to_lower, is_space,
  is_empty, trim_left, trim_right, trim_space,
}

-- The text does not hold the byte.
abbrev pub Lacks : ℕ → Text → Type 0
Lacks d = All (λ c. c ≢ d)

push-ne-nil : (c : ℕ) (ps : List Text) → push c ps ≢ []
push-ne-nil c [] = cc
push-ne-nil c (p ∷ ps) = cc

pub split-ne-nil : (d : ℕ) (s : Text) → split d s ≢ []
unfolding split
split-ne-nil d [] = cc
split-ne-nil d (c ∷ s) = ground (arith, push-ne-nil c (split d s))

join-push : (d c : ℕ) (ps : List Text) → join d (push c ps) ≡ c ∷ join d ps
unfolding join
join-push d c [] = refl
join-push d c (p ∷ []) = refl
join-push d c (p ∷ q ∷ ps) = refl

join-nil-cons : (d : ℕ) (ps : List Text) → ps ≢ [] → join d ([] ∷ ps) ≡ d ∷ join d ps
unfolding join
join-nil-cons d [] h = absurd (h refl)
join-nil-cons d (p ∷ ps) h = refl

-- Joining what was split gives the text back.
pub join-split : (d : ℕ) (s : Text) → join d (split d s) ≡ s
unfolding split
join-split d [] = unfold join in refl
join-split d (c ∷ s) = ground (
  arith,
  join-nil-cons d (split d s) (split-ne-nil d s),
  join-push d c (split d s),
  join-split d s,
)

split-append : (d : ℕ) (p s : Text) → Lacks d p → split d (p ++ (d ∷ s)) ≡ p ∷ split d s
unfolding split
split-append d [] s h = ground arith
split-append d (c ∷ p) s h = ground (arith, split-append d p s h.1)

split-Lacks : (d : ℕ) (p : Text) → Lacks d p → split d p ≡ p ∷ []
unfolding split
split-Lacks d [] h = refl
split-Lacks d (c ∷ p) h = ground (arith, split-Lacks d p h.1)

-- Splitting what was joined gives the parts back, where no part holds the separator.
pub split-join :
    (d : ℕ) (p : Text) (ps : List Text)
    → All (Lacks d) (p ∷ ps)
    → split d (join d (p ∷ ps)) ≡ p ∷ ps
unfolding join
split-join d p [] h = split-Lacks d p h.0
split-join d p (q ∷ ps) h =
    split-append d p (join d (q ∷ ps)) h.0 ∙ ap (λ (l : List Text). p ∷ l) (split-join d q ps h.1)

drop-append : (s t : Text) → drop (length s) (s ++ t) ≡ t
drop-append [] t = refl
drop-append (c ∷ s) t = drop-append s t

take-append : (s t : Text) → take (length s) (s ++ t) ≡ s
take-append [] t = refl
take-append (c ∷ s) t = ap (λ (l : Text). c ∷ l) (take-append s t)

-- A text with an end of the suffix's length has the suffix when that end is the suffix.
pub has_suffix-append :
    (s t suffix : Text) → length t ≡ length suffix → has_suffix (s ++ t) suffix ≡ text_eq t suffix
unfolding has_suffix
has_suffix-append s t suffix e =
    let at : length (s ++ t) - length suffix ≡ length s = omega (arith, length-append {0} s t) in
    let fits : length suffix ≤ length (s ++ t) = omega (arith, length-append {0} s t) in
    rw (at, drop-append s t) (ground (arith, fits))

pub trim_suffix-append :
    (s t suffix : Text)
    → length t ≡ length suffix
    → trim_suffix (s ++ t) suffix ≡ (if text_eq t suffix then s else s ++ t)
unfolding trim_suffix
trim_suffix-append s t suffix e =
    let at : length (s ++ t) - length suffix ≡ length s = omega (arith, length-append {0} s t) in
    rw (has_suffix-append s t suffix e, at, take-append s t) refl

-- A byte that trimming and lowering leave alone.
abbrev pub IsPlainByte : ℕ → Type 0
IsPlainByte c = (c < 128) × (is_space c ≡ false) × (lower_byte c ≡ c)

plain-is_ascii : (s : Text) → All IsPlainByte s → is_ascii s ≡ true
unfolding is_ascii
plain-is_ascii [] h = refl
plain-is_ascii (c ∷ s) h = ground (arith, plain-is_ascii s h.1)

map-lower_byte : (s : Text) → All IsPlainByte s → map lower_byte s ≡ s
map-lower_byte [] h = refl
map-lower_byte (c ∷ s) h = cc (h.0.2, map-lower_byte s h.1)

pub to_lower_of_plain : (u : Unicode) (s : Text) → All IsPlainByte s → to_lower u s ≡ s
unfolding to_lower
to_lower_of_plain u s h = rw (plain-is_ascii s h) (map-lower_byte s h)

trim_left_of_plain : (s : Text) → All IsPlainByte s → trim_left s ≡ s
unfolding trim_left
trim_left_of_plain [] h = refl
trim_left_of_plain (c ∷ s) h = rw h.0.1

trim_right_of_plain : (s : Text) → All IsPlainByte s → trim_right s ≡ s
unfolding trim_right
trim_right_of_plain [] h = refl
trim_right_of_plain (c ∷ s) h = rw (h.0.1, trim_right_of_plain s h.1)

pub trim_space_of_plain : (u : Unicode) (s : Text) → All IsPlainByte s → trim_space u s ≡ s
unfolding trim_space
trim_space_of_plain u s h =
    rw (plain-is_ascii s h, trim_left_of_plain s h, trim_right_of_plain s h) refl

pub ne-nil-is_empty : (s : Text) → s ≢ [] → is_empty s ≡ false
ne-nil-is_empty [] h = absurd (h refl)
ne-nil-is_empty (c ∷ s) h = refl

pub is_empty-ne-nil : (s : Text) → is_empty s ≡ false → s ≢ []
is_empty-ne-nil [] h = cc h
is_empty-ne-nil (c ∷ s) h = cc
