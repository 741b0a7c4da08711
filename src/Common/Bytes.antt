-- ===== src/Common/Bytes.antt =====
-- Go's strings: sequences of bytes, compared byte by byte.
use Prim.Native.Nat.{ℕ}
use Prim.Native.Char.{code}
use Prim.Native.String.{String}
use mathlib.Core.Path.{◌≡◌, refl}
use mathlib.Core.Logic.{◌↔◌, ◌≢◌, inl, inr}
use mathlib.Core.Bool.{Bool, true, false, ◌&&◌}
use mathlib.Core.List.{List, [], ◌∷◌}
use native.Mathlib.Omega.{arith}
use corenet.Common.Tests.{ltb, ◌==◌, if◌then◌else◌, Bool-cases}

abbrev pub Text : Type 0
Text = List ℕ

-- The bytes of an ASCII literal.
abbrev pub bytes : String → Text
bytes String.[] = []
bytes (String.◌∷◌ c s) = code c ∷ bytes s

unfoldable pub text_eq : Text → Text → Bool
text_eq [] [] = true
text_eq (a ∷ s) (b ∷ t) = a == b && text_eq s t
text_eq _ _ = false

-- `s < t` of Go.
unfoldable pub text_lt : Text → Text → Bool
text_lt [] [] = false
text_lt [] (b ∷ t) = true
text_lt (a ∷ s) [] = false
text_lt (a ∷ s) (b ∷ t) = if ltb a b then true else if a == b then text_lt s t else false

pub text_eq_iff : (s t : Text) → (text_eq s t ≡ true) ↔ (s ≡ t)
unfolding text_eq
text_eq_iff [] [] = ground arith
text_eq_iff [] (b ∷ t) = ground arith
text_eq_iff (a ∷ s) [] = ground arith
text_eq_iff (a ∷ s) (b ∷ t) = ground (arith, text_eq_iff s t)

pub text_eq_refl : (s : Text) → text_eq s s ≡ true
text_eq_refl s = (text_eq_iff s s).1 refl

pub text_eq_ne : (s t : Text) → s ≢ t → text_eq s t ≡ false
text_eq_ne s t h = ground (arith, text_eq_iff s t)

pub text_lt_irrefl : (s : Text) → text_lt s s ≡ false
unfolding text_lt
text_lt_irrefl [] = refl
text_lt_irrefl (a ∷ s) = ground (arith, text_lt_irrefl s)

pub text_lt_trans : (s t v : Text) → text_lt s t ≡ true → text_lt t v ≡ true → text_lt s v ≡ true
unfolding text_lt
text_lt_trans [] (b ∷ t) (c ∷ v) h k = refl
text_lt_trans (a ∷ s) (b ∷ t) (c ∷ v) h k = ground (arith, text_lt_trans s t v)
text_lt_trans [] t [] h k = ground arith
text_lt_trans [] [] v h k = ground arith
text_lt_trans (a ∷ s) [] v h k = ground arith
text_lt_trans (a ∷ s) (b ∷ t) [] h k = ground arith

-- The order is total.
pub text_lt_total : (s t : Text) → text_lt s t ≡ false → s ≢ t → text_lt t s ≡ true
unfolding text_lt
text_lt_total [] [] h n = absurd (n refl)
text_lt_total [] (b ∷ t) h n = ground arith
text_lt_total (a ∷ s) [] h n = refl
text_lt_total (a ∷ s) (b ∷ t) h n = ground (arith, text_lt_total s t)

pub text_lt-ne : (s t : Text) → text_lt s t ≡ true → s ≢ t
text_lt-ne s t h e = ground (arith, text_lt_irrefl s)

pub text_lt_asymm : (s t : Text) → text_lt s t ≡ true → text_lt t s ≡ false
text_lt_asymm s t h = ground (arith, text_lt_trans s t s, text_lt_irrefl s)

pub eq_of_not_lt : (s t : Text) → text_lt s t ≡ false → text_lt t s ≡ false → s ≡ t
eq_of_not_lt s t h k = elim (Bool-cases (text_eq s t)) [
  | inl e ↦ (text_eq_iff s t).0 e
  | inr n ↦ ground (arith, text_lt_total s t h, text_eq_iff s t)
]
