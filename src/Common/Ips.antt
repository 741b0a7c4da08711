-- ===== src/Common/Ips.antt =====
-- Go's net.ParseIP and the To4 method of its result.
use Prim.Native.Nat.{ℕ, zero, suc, ◌+◌, ◌-◌, ◌*◌, ◌/◌, ◌%◌}
use mathlib.Core.Bool.{Bool, true, false, not, ◌&&◌, ◌||◌}
use mathlib.Core.Option.{Option, none, some}
use mathlib.Core.List.{List, [], ◌∷◌, ◌++◌}
use corenet.Common.Tests.{if◌then◌else◌, ltb, leb, ◌==◌, is_some}
use corenet.Common.Lists.{length, drop}
use corenet.Common.Bytes.{Text, text_eq}
use corenet.Common.Strings.{is_empty, split}
use corenet.Common.Decimal.{unsigned}
use corenet.Common.Hosts.{contains, starts_with}

-- One of the four numbers of an IPv4 address: up to 255, and no zero before another digit.
unfoldable pub octet : Text → Option ℕ
unfolding unsigned
octet s = elim (unsigned s) [
  | none ↦ none
  | some n ↦ if (starts_with b'0' s && ltb 1 (length s)) || ltb 255 n then none else some (n % 256)
]

unfoldable pub octets : List Text → Option (List ℕ)
unfolding octet
octets [] = some []
octets (p ∷ ps) =
    let rest = octets ps in
    elim (octet p) [ none ↦ none | some n ↦ elim rest [ none ↦ none | some ns ↦ some (n ∷ ns) ] ]

-- The four bytes of a dotted quad.
unfoldable pub parse_quad : Text → Option (List ℕ)
unfolding octets split
parse_quad s = let parts = split b'.' s in if length parts == 4 then octets parts else none

-- The value of a hexadecimal digit.
abbrev hex_digit : ℕ → Option ℕ
hex_digit c =
    if leb b'0' c && leb c b'9'
    then some (c - 48)
    else if leb b'a' c && leb c b'f'
    then some (c - 87)
    else if leb b'A' c && leb c b'F'
    then some (c - 55)
    else none

-- The hexadecimal digits at the head of a text, after those that make up `n`, and what follows.
unfoldable hex_field : ℕ → ℕ → Text → ℕ × ℕ × Text
hex_field count n [] = (count, n, [])
hex_field count n (c ∷ s) =
    let stop : ℕ × ℕ × Text = (count, n, c ∷ s) in
    let go : ℕ → ℕ × ℕ × Text = λ v. hex_field (suc count) (n * 16 + v) s in
    elim (hex_digit c) [ none ↦ stop | some v ↦ go v ]

-- The bytes read so far, and those after the "::" where it has occurred.
record Fields : Type 0 where
  before : List ℕ
  after : Option (List ℕ)

abbrev read : List ℕ → Fields → Fields
read bs f = elim f.after [
  | none ↦ record f { before = f.before ++ bs }
  | some more ↦ record f { after = some (more ++ bs) }
]

abbrev zeros : ℕ → List ℕ
zeros zero = []
zeros (suc n) = 0 ∷ zeros n

-- The sixteen bytes of the fields; "::" stands for at least one field.
abbrev expand : Fields → Option (List ℕ)
expand f = elim f.after [
  | none ↦ if length f.before == 16 then some f.before else none
  | some more ↦
      if ltb (length f.before + length more) 16
      then some (f.before ++ (zeros (16 - (length f.before + length more)) ++ more))
      else none
]

-- The loop over the fields; `left` is how many may still come.
unfoldable fields_from : ℕ → Fields → Text → Option (List ℕ)
unfolding hex_field parse_quad
fields_from zero f s = none
fields_from (suc left) f s =
    let (count, n, rest) = hex_field 0 0 s in
    let next = read (((n / 256) % 256) ∷ (n % 256) ∷ []) f in
    let more : Text → Option (List ℕ) = λ t. fields_from left next t in
    let most : Text → Option (List ℕ) = λ t. fields_from left (record next { after = some [] }) t in
    if count == 0 || ltb 4 count
    then none
    else if starts_with b'.' rest
    then (if (not (is_some f.after) && not (left == 1)) || left == 0
        then none
        else elim (parse_quad s) [ none ↦ none | some quad ↦ expand (read quad f) ])
    else if is_empty rest
    then expand next
    else if not (starts_with b':' rest) || length rest == 1
    then none
    else if starts_with b':' (drop 1 rest)
    then (if is_some f.after
        then none
        else if length rest == 2
        then expand (record next { after = some [] })
        else most (drop 2 rest))
    else more (drop 1 rest)

-- netip's parse of an IPv6 address
unfoldable pub parse_ipv6 : Text → Option (List ℕ)
unfolding fields_from
parse_ipv6 s =
    if starts_with b':' s && starts_with b':' (drop 1 s)
    then (if length s == 2
        then some (zeros 16)
        else fields_from 8 (record { before = []; after = some [] }) (drop 2 s))
    else fields_from 8 (record { before = []; after = none }) s

abbrev pub mapped : List ℕ
mapped = zeros 10 ++ 255 ∷ 255 ∷ []

-- Whether the first "." of a text stands before its first ":".
unfoldable pub dot_first : Text → Bool
dot_first [] = false
dot_first (c ∷ s) =
    let rest = dot_first s in if c == b'.' then true else if c == b':' then false else rest

-- `net.ParseIP`; an address with a zone is refused.
unfoldable pub parse_ip : Text → Option (List ℕ)
unfolding parse_quad parse_ipv6 contains dot_first
parse_ip s =
    if contains b'%' s
    then none
    else if dot_first s
    then elim (parse_quad s) [ none ↦ none | some quad ↦ some (mapped ++ quad) ]
    else if contains b':' s
    then parse_ipv6 s
    else none

-- `To4` of a 16-byte address
unfoldable pub to4 : List ℕ → Option (List ℕ)
to4 (a ∷ b ∷ c ∷ d ∷ e ∷ f ∷ g ∷ h ∷ i ∷ j ∷ k ∷ l ∷ quad) =
    if text_eq (a ∷ b ∷ c ∷ d ∷ e ∷ f ∷ g ∷ h ∷ i ∷ j ∷ k ∷ l ∷ []) mapped then some quad else none
to4 _ = none
