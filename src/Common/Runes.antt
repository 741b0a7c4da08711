-- ===== src/Common/Runes.antt =====
-- How Go ranges over a string: UTF-8, where a byte that begins no encoded rune counts as the rune U+FFFD.
use Prim.Native.Nat.{ℕ, zero, suc, ◌+◌, ◌-◌, ◌*◌}
use mathlib.Core.Bool.{Bool, ◌&&◌}
use mathlib.Core.List.{List, [], ◌∷◌}
use corenet.Common.Tests.{if◌then◌else◌, ltb, leb, ◌==◌}
use corenet.Common.Bytes.{Text}

abbrev within : ℕ → ℕ → ℕ → Bool
within lo hi c = leb lo c && leb c hi

-- The byte at an index, 0 past the end, which continues no rune.
abbrev pub byte_at : ℕ → Text → ℕ
byte_at i [] = 0
byte_at zero (c ∷ s) = c
byte_at (suc i) (c ∷ s) = byte_at i s

-- Whether a second byte may follow a first: no overlong form, no surrogate, nothing above U+10FFFF.
abbrev second_fits : ℕ → ℕ → Bool
second_fits a b =
    if a == 224
    then within 160 191 b
    else if a == 237
    then within 128 159 b
    else if a == 240
    then within 144 191 b
    else if a == 244
    then within 128 143 b
    else within 128 191 b

-- How many bytes the rune at the head of `a ∷ s` takes besides the first.
unfoldable pub extra : ℕ → Text → ℕ
extra a s =
    if within 194 223 a && second_fits a (byte_at 0 s)
    then 1
    else if within 224 239 a && (second_fits a (byte_at 0 s) && within 128 191 (byte_at 1 s))
    then 2
    else if within 240 244 a
        && (second_fits a (byte_at 0 s)
            && (within 128 191 (byte_at 1 s) && within 128 191 (byte_at 2 s)))
    then 3
    else 0

-- The rune at the head of `a ∷ s`, which takes `n` bytes besides the first.
abbrev rune_of : ℕ → ℕ → Text → ℕ
rune_of zero a s = if ltb a 128 then a else 65533
rune_of (suc zero) a s = (a - 192) * 64 + (byte_at 0 s - 128)
rune_of (suc (suc zero)) a s = ((a - 224) * 64 + (byte_at 0 s - 128)) * 64 + (byte_at 1 s - 128)
rune_of (suc (suc (suc n))) a s =
    (((a - 240) * 64 + (byte_at 0 s - 128)) * 64 + (byte_at 1 s - 128)) * 64 + (byte_at 2 s - 128)

-- The runes after `skip` bytes of a rune that was counted already.
unfoldable pub runes_from : ℕ → Text → List ℕ
unfolding extra
runes_from skip [] = []
runes_from zero (a ∷ s) = rune_of (extra a s) a s ∷ runes_from (extra a s) s
runes_from (suc skip) (a ∷ s) = runes_from skip s

-- `range` over a string
unfoldable pub runes : Text → List ℕ
unfolding runes_from
runes s = runes_from 0 s
