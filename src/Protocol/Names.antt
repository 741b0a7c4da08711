-- ===== src/Protocol/Names.antt =====
-- `NormalizeName`, `ValidateName` and `validateLabel` of pkg/protocol/protocol.go.
use corenet.Common.{
  ℕ, Text, bytes, Bool, ◌&&◌, ◌||◌, List, [], ◌∷◌, Option, none, some, ltb, leb, ◌==◌,
  if◌then◌else◌, length, all, text_eq, Unicode, to_lower, trim_space, trim_suffix, split, not,
}
use corenet.Protocol.{tld}

-- `NormalizeName`
unfoldable pub normalize_name : Unicode → Text → Text
unfolding to_lower trim_space trim_suffix
normalize_name u name = to_lower u (trim_suffix (trim_space u name) (bytes "."))

pub data LabelError : Type 0 where
  empty_label : LabelError
  too_long : Text → LabelError
  hyphen_at_end : Text → LabelError
  invalid_character : Text → LabelError

pub data NameError : Type 0 where
  empty_name : NameError
  not_normalized : Text → NameError
  not_in_namespace : Text → NameError
  bad_label : Text → LabelError → NameError

-- `s[len(s)-1]`, for a byte that a label never holds where there is none.
abbrev pub last_byte : Text → ℕ
last_byte [] = 0
last_byte (c ∷ []) = c
last_byte (c ∷ d ∷ s) = last_byte (d ∷ s)

-- The characters that the switch of `validateLabel` lets pass.
unfoldable pub is_label_byte : ℕ → Bool
is_label_byte r = leb b'a' r && leb r b'z' || leb b'0' r && leb r b'9' || r == b'-'

-- `validateLabel`; `none` is a nil error.
unfoldable pub validate_label : Text → Option LabelError
unfolding is_label_byte
validate_label [] = some empty_label
validate_label (c ∷ s) =
    let label = c ∷ s in
    if ltb 63 (length label)
    then some (too_long label)
    else if c == b'-' || last_byte label == b'-'
    then some (hyphen_at_end label)
    else if all is_label_byte label
    then none
    else some (invalid_character label)

-- The last label, `labels[len(labels)-1]`.
abbrev pub last_label : List Text → Text
last_label [] = []
last_label (l ∷ []) = l
last_label (l ∷ m ∷ ls) = last_label (m ∷ ls)

-- The loop of `ValidateName` over the labels.
unfoldable pub first_bad_label : List Text → Option LabelError
unfolding validate_label
first_bad_label [] = none
first_bad_label (l ∷ ls) =
    let rest = first_bad_label ls in elim (validate_label l) [ some e ↦ some e | none ↦ rest ]

abbrev pub label_result : Text → Option LabelError → Option NameError
label_result name none = none
label_result name (some e) = some (bad_label name e)

-- `ValidateName`; `none` is a nil error.
unfoldable pub validate_name : Unicode → Text → Option NameError
unfolding normalize_name first_bad_label split text_eq
validate_name u [] = some empty_name
validate_name u (c ∷ s) =
    let name = c ∷ s in
    let labels = split b'.' name in
    if not (text_eq name (normalize_name u name))
    then some (not_normalized name)
    else if ltb (length labels) 2 || not (text_eq (last_label labels) tld)
    then some (not_in_namespace name)
    else label_result name (first_bad_label labels)
