-- ===== src/Config/Identity.antt =====
-- `defaultNodeID` of internal/config/config.go: the node ID that a host name gives.
use corenet.Common.{
  ℕ, Text, bytes, ◌≡◌, ◌≢◌, ◌≤◌, refl, sym, ap, ◌∙◌, subst, false, List, [], ◌∷◌, ◌++◌, arith, map,
  reverse, length, length-append, All, All-append, is_empty, if◌then◌else◌, Bool-cases, inl, inr,
  ◌==◌,
}
use mathlib.Core.List.{reverse-cons, reverse-append, reverse-reverse}
use corenet.Protocol.Labels.{IsLabel, IsLabelByte, validate_label_iff}
use corenet.Protocol.Names.{validate_label}
use corenet.Config.{id_rune, trim_hyphens, default_node_id}

All-reverse {ℓ κ} : {A : Type ℓ} (P : A → Type κ) (xs : List A) → All P xs → All P (reverse xs)
All-reverse P [] h = tt
All-reverse P (x ∷ xs) h =
    subst (All P) (sym (reverse-cons x xs))
      (All-append P (reverse xs) (x ∷ []) (All-reverse P xs h.1) (h.0, tt))

length-reverse {ℓ} : {A : Type ℓ} (xs : List A) → length (reverse xs) ≡ length xs
length-reverse [] = refl
length-reverse (x ∷ xs) =
    ap length (reverse-cons x xs)
    ∙ omega (arith, length-append (reverse xs) (x ∷ []), length-reverse xs)

length-map : (f : ℕ → ℕ) (s : Text) → length (map f s) ≡ length s
length-map f [] = refl
length-map f (c ∷ s) = omega (arith, length-map f s)

id_rune-IsLabelByte : (r : ℕ) → IsLabelByte (id_rune r)
unfolding id_rune
id_rune-IsLabelByte r = ground arith

id_rune_of_label : (r : ℕ) → IsLabelByte r → id_rune r ≡ r
unfolding id_rune
id_rune_of_label r h = ground (arith, h)

map-id_rune : (s : Text) → All IsLabelByte (map id_rune s)
map-id_rune [] = tt
map-id_rune (c ∷ s) = (id_rune-IsLabelByte c, map-id_rune s)

map-id_rune_of_label : (s : Text) → All IsLabelByte s → map id_rune s ≡ s
map-id_rune_of_label [] h = refl
map-id_rune_of_label (c ∷ s) h = ground (arith, id_rune_of_label c h.0, map-id_rune_of_label s h.1)

abbrev NoHyphen : Text → Type 0
NoHyphen s = (t : Text) → s ≢ b'-' ∷ t

trim_hyphens-NoHyphen : (s : Text) → NoHyphen (trim_hyphens s)
unfolding trim_hyphens
trim_hyphens-NoHyphen [] t e = cc e
trim_hyphens-NoHyphen (c ∷ s) t e = ground (arith, trim_hyphens-NoHyphen s t, e)

trim_hyphens-rest : (s : Text) → (p : Text) × (s ≡ p ++ trim_hyphens s)
unfolding trim_hyphens
trim_hyphens-rest [] = ([], refl)
trim_hyphens-rest (c ∷ s) = elim (Bool-cases (c == b'-')) [
  | inl hyphen ↦
      let (p, e) = trim_hyphens-rest s in
      (c ∷ p, rw (hyphen, trim_hyphens) (ap (λ (t : Text). c ∷ t) e))
  | inr other ↦ ([], rw (other, trim_hyphens) refl)
]

trim_hyphens-All : (s : Text) → All IsLabelByte s → All IsLabelByte (trim_hyphens s)
unfolding trim_hyphens
trim_hyphens-All [] h = tt
trim_hyphens-All (c ∷ s) h = elim (Bool-cases (c == b'-')) [
  | inl hyphen ↦ rw (hyphen, trim_hyphens) (trim_hyphens-All s h.1)
  | inr other ↦ rw (other, trim_hyphens) h
]

length-trim_hyphens : (s : Text) → length (trim_hyphens s) ≤ length s
unfolding trim_hyphens
length-trim_hyphens [] = omega arith
length-trim_hyphens (c ∷ s) = ground (arith, length-trim_hyphens s)

trim_hyphens_of_none : (s : Text) → NoHyphen s → trim_hyphens s ≡ s
unfolding trim_hyphens
trim_hyphens_of_none [] h = refl
trim_hyphens_of_none (c ∷ s) h = elim (Bool-cases (c == b'-')) [
  | inl hyphen ↦ absurd (h s (ap (λ d. d ∷ s) (ground (arith, hyphen))))
  | inr other ↦ ground (arith, other)
]

-- Trimmed at the end as well.
abbrev trim_end : Text → Text
trim_end s = reverse (trim_hyphens (reverse s))

trim_end-NoHyphen : (s : Text) → NoHyphen s → NoHyphen (trim_end s)
trim_end-NoHyphen s h t e =
    let (p, whole) = trim_hyphens-rest (reverse s) in
    h (t ++ reverse p) (
      sym (reverse-reverse s)
      ∙ ap reverse whole
      ∙ reverse-append p (trim_hyphens (reverse s))
      ∙ ap (λ (q : Text). q ++ reverse p) e)

trim_end-ends : (s t : Text) → trim_end s ≢ t ++ b'-' ∷ []
trim_end-ends s t e =
    trim_hyphens-NoHyphen (reverse s) (reverse t) (
      sym (reverse-reverse (trim_hyphens (reverse s)))
      ∙ ap reverse e
      ∙ reverse-append t (b'-' ∷ []))

filled_length : (s : Text) → is_empty s ≡ false → 1 ≤ length s
filled_length [] h = absurd (cc h)
filled_length (c ∷ s) h = omega arith

trimmed-IsLabel :
    (s : Text)
    → length s ≤ 63
    → All IsLabelByte s
    → is_empty (trim_end (trim_hyphens s)) ≡ false
    → IsLabel (trim_end (trim_hyphens s))
trimmed-IsLabel s short letters filled =
    let x = trim_hyphens s in
    record {
      filled = filled_length (trim_end x) filled;
      short = omega (
        arith,
        short,
        length-trim_hyphens s,
        length-reverse x,
        length-trim_hyphens (reverse x),
        length-reverse (trim_hyphens (reverse x)),
      );
      starts = trim_end-NoHyphen x (trim_hyphens-NoHyphen s);
      ends = trim_end-ends x;
      letters =
          All-reverse IsLabelByte (trim_hyphens (reverse x))
            (trim_hyphens-All (reverse x) (All-reverse IsLabelByte x (trim_hyphens-All s letters)));
    }

corenet-IsLabel : IsLabel (bytes "corenet")
unfolding validate_label
corenet-IsLabel = (validate_label_iff (bytes "corenet")).0 refl

trimmed_of_label : (host : Text) → IsLabel host → trim_end (trim_hyphens (map id_rune host)) ≡ host
trimmed_of_label host l =
    ap (λ s. trim_end (trim_hyphens s)) (map-id_rune_of_label host l.letters)
    ∙ ap trim_end (trim_hyphens_of_none host l.starts)
    ∙ ap reverse (trim_hyphens_of_none (reverse host) backwards)
    ∙ reverse-reverse host
  where
    backwards : NoHyphen (reverse host)
    backwards t e =
        l.ends (reverse t) (sym (reverse-reverse host) ∙ ap reverse e ∙ reverse-cons b'-' t)

-- The node ID that a host name of up to 63 characters gives is an ordinary DNS label, whatever the
-- characters are, and a host name that is such a label is its own node ID.
pub default_node_id-IsLabel :
    (host : List ℕ)
    → (length host ≤ 63 → IsLabel (default_node_id host))
      × (IsLabel host → default_node_id host ≡ host)
unfolding default_node_id
default_node_id-IsLabel host =
    let id = trim_end (trim_hyphens (map id_rune host)) in
    (
      λ short. elim (Bool-cases (is_empty id)) [
        | inl nothing ↦ rw (nothing, default_node_id) corenet-IsLabel
        | inr filled ↦
            rw (filled, default_node_id)
              (trimmed-IsLabel (map id_rune host) (omega (arith, short, length-map id_rune host))
                (map-id_rune host) filled)
      ],
      λ l. trimmed_default host l,
    )
  where
    trimmed_default : (host : Text) → IsLabel host → default_node_id host ≡ host
    trimmed_default host l =
        ap (λ (s : Text). if is_empty s then bytes "corenet" else s) (trimmed_of_label host l)
        ∙ label_stays host l
      where
        label_stays :
            (host : Text) → IsLabel host → (if is_empty host then bytes "corenet" else host) ≡ host
        label_stays [] l = absurd (omega (arith, l.filled))
        label_stays (c ∷ s) l = refl
