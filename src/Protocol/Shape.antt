-- ===== src/Protocol/Shape.antt =====
-- What a name of the grammar looks like to the code that meets it in a DNS question or a Host header.
use corenet.Common.{
  ℕ, Text, bytes, ◌≡◌, ◌≢◌, ◌⊎◌, inl, inr, refl, sym, ap, ◌∙◌, false, List, [], ◌∷◌, ◌++◌, arith,
  All, All-mono, All-append, Unicode, join, contains, IsPlainByte, to_lower_of_plain,
  trim_space_of_plain, is_space, lower_byte, append_assoc, trim_suffix-append, text_eq,
}
use corenet.Protocol.{tld}
use corenet.Protocol.Names.{normalize_name}
use corenet.Protocol.Labels.{IsLabelByte, IsLabel}
use corenet.Protocol.Grammar.{IsCoreName, tld-IsLabel}

abbrev pub IsNameByte : ℕ → Type 0
IsNameByte c = IsLabelByte c ⊎ (c ≡ b'.')

join-IsNameByte : (ls : List Text) → All IsLabel ls → All IsNameByte (join b'.' ls)
unfolding join
join-IsNameByte [] h = tt
join-IsNameByte (l ∷ []) h = All-mono IsLabelByte IsNameByte l (λ c. inl) h.0.letters
join-IsNameByte (l ∷ m ∷ ls) h =
    All-append IsNameByte l (b'.' ∷ join b'.' (m ∷ ls))
      (All-mono IsLabelByte IsNameByte l (λ c. inl) h.0.letters)
      (inr refl, join-IsNameByte (m ∷ ls) h.1)

pub core_name_bytes : (name : Text) → IsCoreName name → All IsNameByte name
core_name_bytes name n = rw n.written (
    join-IsNameByte (n.labels ++ tld ∷ [])
      (All-append IsLabel n.labels (tld ∷ []) n.ordinary (tld-IsLabel, tt)))

-- No byte of a name separates the parts of a network address.
pub contains-name_bytes :
    (d : ℕ) (s : Text)
    → ((d ≡ b':') ⊎ ((d ≡ b'[') ⊎ (d ≡ b']')))
    → All IsNameByte s
    → contains d s ≡ false
unfolding contains
contains-name_bytes d [] k h = refl
contains-name_bytes d (c ∷ s) k h = ground (arith, contains-name_bytes d s k h.1, h.0, k)

join_shape :
    (l : Text) (ls : List Text)
    → All IsLabel (l ∷ ls)
    → (p : Text) × (p ≢ []) × (join b'.' ((l ∷ ls) ++ tld ∷ []) ≡ p ++ bytes ".core")
unfolding join
join_shape l [] h = (l, label-ne-nil l h.0, refl)
  where
    label-ne-nil : (l : Text) → IsLabel l → l ≢ []
    label-ne-nil [] h = absurd (omega (arith, h.filled))
    label-ne-nil (c ∷ l) h = cc
join_shape l (m ∷ ls) h =
    let (p, filled, e) = join_shape m ls h.1 in
    (
      l ++ (b'.' ∷ p),
      append-ne-nil l p,
      ap (λ (t : Text). l ++ (b'.' ∷ t)) e ∙ sym (append_assoc l (b'.' ∷ p) (bytes ".core")),
    )
  where
    append-ne-nil : (l p : Text) → l ++ (b'.' ∷ p) ≢ []
    append-ne-nil [] p = cc
    append-ne-nil (c ∷ l) p = cc

pub core_name_shape :
    (name : Text) → IsCoreName name → (p : Text) × (p ≢ []) × (name ≡ p ++ bytes ".core")
core_name_shape name n = go n.labels n.some_label n.ordinary n.written
  where
    go :
        (ls : List Text)
        → ls ≢ []
        → All IsLabel ls
        → name ≡ join b'.' (ls ++ tld ∷ [])
        → (p : Text) × (p ≢ []) × (name ≡ p ++ bytes ".core")
    go [] some_label h w = absurd (some_label refl)
    go (l ∷ ls) some_label h w = let (p, filled, e) = join_shape l ls h in (p, filled, w ∙ e)

name_byte-IsPlainByte : (c : ℕ) → IsNameByte c → IsPlainByte c
unfolding is_space lower_byte
name_byte-IsPlainByte c h = ground (arith, h)

-- The fully qualified form of a name, with the dot at its end, is normalized to the name.
pub normalize_name_of_dotted :
    (u : Unicode) (name : Text) → IsCoreName name → normalize_name u (name ++ bytes ".") ≡ name
unfolding normalize_name text_eq
normalize_name_of_dotted u name n =
    let plain =
      All-mono IsNameByte IsPlainByte name name_byte-IsPlainByte (core_name_bytes name n) in
    let dotted =
      All-append IsPlainByte name (bytes ".") plain (name_byte-IsPlainByte b'.' (inr refl), tt) in
    rw (trim_space_of_plain u (name ++ bytes ".") dotted)
      (rw (trim_suffix-append name (bytes ".") (bytes ".") refl) (to_lower_of_plain u name plain))
