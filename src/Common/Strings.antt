-- ===== src/Common/Strings.antt =====
-- The functions of Go's package `strings` that the program calls, over bytes. What they do on text
-- that is not ASCII goes by Unicode's tables, which are a parameter.
use corenet.Common.Tests.{ltb, leb, ◌==◌, if◌then◌else◌}
use corenet.Common.Lists.{length, take, drop, all}
use corenet.Common.Bytes.{Text, text_eq}
use Prim.Native.Nat.{ℕ, ◌+◌, ◌-◌}
use mathlib.Core.Bool.{Bool, true, false, ◌&&◌, ◌||◌}
use mathlib.Core.List.{List, [], ◌∷◌, ◌++◌, map}

-- `strings.ToLower` and `strings.TrimSpace` where a byte above 127 makes them decode runes.
pub record Unicode : Type 0 where
  pub lower : Text → Text
  pub trim : Text → Text

-- A choice of tables under which both leave such text alone.
abbrev pub plain_unicode : Unicode
plain_unicode = record { lower = λ s. s; trim = λ s. s }

unfoldable pub is_ascii : Text → Bool
is_ascii = all (λ c. ltb c 128)

unfoldable pub lower_byte : ℕ → ℕ
lower_byte c = if leb b'A' c && leb c b'Z' then c + 32 else c

-- `strings.ToLower`
unfoldable pub to_lower : Unicode → Text → Text
unfolding is_ascii lower_byte
to_lower u s = if is_ascii s then map lower_byte s else u.lower s

unfoldable pub is_space : ℕ → Bool
is_space c = (leb 9 c && leb c 13) || c == 32

abbrev pub is_empty {ℓ} : {A : Type ℓ} → List A → Bool
is_empty [] = true
is_empty (c ∷ s) = false

unfoldable pub trim_left : Text → Text
unfolding is_space
trim_left [] = []
trim_left (c ∷ s) = let rest = trim_left s in if is_space c then rest else c ∷ s

unfoldable pub trim_right : Text → Text
unfolding is_space
trim_right [] = []
trim_right (c ∷ s) = let rest = trim_right s in if is_space c && is_empty rest then [] else c ∷ rest

-- `strings.TrimSpace`
unfoldable pub trim_space : Unicode → Text → Text
unfolding is_ascii trim_left trim_right
trim_space u s = if is_ascii s then trim_right (trim_left s) else u.trim s

-- `strings.HasSuffix`
unfoldable pub has_suffix : Text → Text → Bool
unfolding text_eq
has_suffix s suffix =
    leb (length suffix) (length s) && text_eq (drop (length s - length suffix) s) suffix

-- `strings.TrimSuffix`
unfoldable pub trim_suffix : Text → Text → Text
unfolding has_suffix
trim_suffix s suffix = if has_suffix s suffix then take (length s - length suffix) s else s

abbrev pub push : ℕ → List Text → List Text
push c [] = (c ∷ []) ∷ []
push c (p ∷ ps) = (c ∷ p) ∷ ps

-- `strings.Split` at a separator of one byte
unfoldable pub split : ℕ → Text → List Text
split d [] = [] ∷ []
split d (c ∷ s) = let parts = split d s in if c == d then [] ∷ parts else push c parts

-- `strings.Join` with a separator of one byte
unfoldable pub join : ℕ → List Text → Text
join d [] = []
join d (p ∷ []) = p
join d (p ∷ q ∷ ps) = p ++ (d ∷ join d (q ∷ ps))
