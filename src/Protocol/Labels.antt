-- ===== src/Protocol/Labels.antt =====
-- What a DNS label is, and that `validateLabel` of pkg/protocol/protocol.go decides it.
use corenet.Common.{
  ℕ, Text, ◌≡◌, ◌≢◌, ◌≤◌, ◌⊎◌, ◌↔◌, refl, true, [], ◌∷◌, ◌++◌, none, arith, length, All, all, ap,
  ◌∙◌,
}
use corenet.Protocol.Names.{last_byte, is_label_byte, validate_label}

-- A lower-case letter, a digit or a hyphen.
abbrev pub IsLabelByte : ℕ → Type 0
IsLabelByte c = ((b'a' ≤ c) × (c ≤ b'z')) ⊎ (((b'0' ≤ c) × (c ≤ b'9')) ⊎ (c ≡ b'-'))

-- An ordinary DNS label.
pub record IsLabel (l : Text) : Type 0 where
  pub filled : 1 ≤ length l
  pub short : length l ≤ 63
  pub starts : (t : Text) → l ≢ b'-' ∷ t
  pub ends : (t : Text) → l ≢ t ++ b'-' ∷ []
  pub letters : All IsLabelByte l

all-is_label_byte_iff : (l : Text) → (all is_label_byte l ≡ true) ↔ All IsLabelByte l
unfolding is_label_byte
all-is_label_byte_iff [] = (λ h. tt, λ h. refl)
all-is_label_byte_iff (c ∷ s) = ground (arith, all-is_label_byte_iff s)

last_byte-append : (t : Text) (d : ℕ) → last_byte (t ++ d ∷ []) ≡ d
last_byte-append [] d = refl
last_byte-append (a ∷ []) d = refl
last_byte-append (a ∷ b ∷ t) d = last_byte-append (b ∷ t) d

-- A text that is not empty ends in its last byte.
append-last_byte : (c : ℕ) (s : Text) → (t : Text) × (c ∷ s ≡ t ++ last_byte (c ∷ s) ∷ [])
append-last_byte c [] = ([], refl)
append-last_byte c (d ∷ s) =
    let (t, e) = append-last_byte d s in (c ∷ t, ap (λ (l : Text). c ∷ l) e)

last_byte-ne_iff :
    (c : ℕ) (s : Text) → (last_byte (c ∷ s) ≢ b'-') ↔ ((t : Text) → c ∷ s ≢ t ++ b'-' ∷ [])
last_byte-ne_iff c s = (
  λ h t e. h (ap last_byte e ∙ last_byte-append t b'-'),
  λ h e. let (t, same) = append-last_byte c s in h t (same ∙ ap (λ d. t ++ d ∷ []) e),
)

validate_label-eq-none_iff :
    (c : ℕ) (s : Text)
    → (validate_label (c ∷ s) ≡ none) ↔ (
        (length (c ∷ s) ≤ 63)
        × (c ≢ b'-')
        × (last_byte (c ∷ s) ≢ b'-')
        × (all is_label_byte (c ∷ s) ≡ true))
unfolding validate_label
validate_label-eq-none_iff c s = ground arith

-- `validateLabel` accepts exactly the DNS labels.
pub validate_label_iff : (l : Text) → (validate_label l ≡ none) ↔ IsLabel l
validate_label_iff [] =
    (λ h. absurd (unfold validate_label in cc h), λ h. absurd (omega (arith, h.filled)))
validate_label_iff (c ∷ s) = (
  λ h.
      let (short, first, last, letters) = (validate_label-eq-none_iff c s).0 h in
      record {
        filled = omega arith;
        short = short;
        starts = λ t e. first (ground (arith, e));
        ends = (last_byte-ne_iff c s).0 last;
        letters = (all-is_label_byte_iff (c ∷ s)).0 letters;
      },
  λ h. (validate_label-eq-none_iff c s).1 (
    h.short,
    λ e. h.starts s (ap (λ d. d ∷ s) e),
    (last_byte-ne_iff c s).1 h.ends,
    (all-is_label_byte_iff (c ∷ s)).1 h.letters,
  ),
)
