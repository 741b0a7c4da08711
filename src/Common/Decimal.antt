-- ===== src/Common/Decimal.antt =====
-- Decimal numbers: `%d` of Go's `fmt`, and `strconv.Atoi` on a machine of 64 bits.
use Prim.Native.Nat.{ℕ, zero, suc, ◌+◌, ◌-◌, ◌*◌, ◌/◌, ◌%◌, ◌^◌}
use mathlib.Core.Bool.{◌&&◌}
use mathlib.Core.Option.{Option, none, some}
use mathlib.Core.List.{[], ◌∷◌, ◌++◌}
use corenet.Common.Tests.{ltb, leb, ◌==◌, if◌then◌else◌}
use corenet.Common.Bytes.{Text}
use corenet.Common.Int.{ℤ, pos, negsuc}

-- The digits of a number; as many rounds as the number has digits are enough.
unfoldable pub decimal_rounds : ℕ → ℕ → Text
decimal_rounds zero n = []
decimal_rounds (suc f) n =
    let more = decimal_rounds f (n / 10) ++ (48 + n % 10) ∷ [] in
    if ltb n 10 then (48 + n) ∷ [] else more

unfoldable pub decimal : ℕ → Text
unfolding decimal_rounds
decimal n = decimal_rounds (suc n) n

-- `%d` of an integer.
unfoldable pub decimal_ℤ : ℤ → Text
unfolding decimal
decimal_ℤ (pos n) = decimal n
decimal_ℤ (negsuc n) = b'-' ∷ decimal (suc n)

-- The digits of `strconv.Atoi`, after those that make up `n`.
unfoldable pub digits_from : ℕ → Text → Option ℕ
digits_from n [] = some n
digits_from n (c ∷ s) =
    let rest = digits_from (n * 10 + (c - 48)) s in if leb b'0' c && leb c b'9' then rest else none

-- An unsigned number with at least one digit.
unfoldable pub unsigned : Text → Option ℕ
unfolding digits_from
unsigned [] = none
unsigned (c ∷ s) = digits_from 0 (c ∷ s)

abbrev pub positive : Option ℕ → Option ℤ
positive none = none
positive (some n) = if ltb n (2 ^ 63) then some (pos n) else none

abbrev pub negative : Option ℕ → Option ℤ
negative none = none
negative (some zero) = some (pos 0)
negative (some (suc n)) = if ltb n (2 ^ 63) then some (negsuc n) else none

-- `strconv.Atoi`; none is an error, for the syntax or for the range.
unfoldable pub atoi : Text → Option ℤ
unfolding unsigned
atoi [] = none
atoi (c ∷ s) =
    if c == b'-'
    then negative (unsigned s)
    else if c == b'+'
    then positive (unsigned s)
    else positive (unsigned (c ∷ s))
