-- ===== src/Protocol/Grammar.antt =====
-- The names of the .core namespace as a grammar, and `ValidateName` of pkg/protocol/protocol.go
-- against it.
use corenet.Common.{
  ℕ, Text, bytes, ◌≡◌, ◌≢◌, ◌≤◌, ◌↔◌, refl, sym, ap, ◌∙◌, List, [], ◌∷◌, ◌++◌, none, arith, length,
  All, All-mono, All-append, text_eq, text_eq_iff, Unicode, split, join, join-split, split-join,
  Lacks, trim_suffix-append, IsPlainByte, to_lower_of_plain, trim_space_of_plain, is_space,
  lower_byte, append_assoc,
}
use corenet.Protocol.{tld}
use corenet.Protocol.Names.{
  normalize_name, validate_label, validate_name, first_bad_label, last_label,
}
use corenet.Protocol.Labels.{IsLabelByte, IsLabel, validate_label_iff}

-- One label or more, and then "core", with dots between them.
pub record IsCoreName (name : Text) : Type 0 where
  pub labels : List Text
  pub some_label : labels ≢ []
  pub ordinary : All IsLabel labels
  pub written : name ≡ join b'.' (labels ++ tld ∷ [])

pub tld-IsLabel : IsLabel tld
unfolding validate_label
tld-IsLabel = (validate_label_iff tld).0 refl

first_bad_label_iff : (ls : List Text) → (first_bad_label ls ≡ none) ↔ All IsLabel ls
unfolding first_bad_label
first_bad_label_iff [] = (λ h. tt, λ h. refl)
first_bad_label_iff (l ∷ ls) = (
  λ h. ((validate_label_iff l).0 (ground arith), (first_bad_label_iff ls).0 (ground arith)),
  λ h. rw ((validate_label_iff l).1 h.0, first_bad_label) ((first_bad_label_iff ls).1 h.1),
)

validate_name-cons_iff :
    (u : Unicode) (c : ℕ) (s : Text)
    → (validate_name u (c ∷ s) ≡ none) ↔ (
        (c ∷ s ≡ normalize_name u (c ∷ s))
        × (2 ≤ length (split b'.' (c ∷ s)))
        × (last_label (split b'.' (c ∷ s)) ≡ tld)
        × (first_bad_label (split b'.' (c ∷ s)) ≡ none))
unfolding validate_name
validate_name-cons_iff u c s = ground (
  arith,
  text_eq_iff (c ∷ s) (normalize_name u (c ∷ s)),
  text_eq_iff (last_label (split b'.' (c ∷ s))) tld,
)

-- The labels before the last.
init : List Text → List Text
init [] = []
init (l ∷ []) = []
init (l ∷ m ∷ ls) = l ∷ init (m ∷ ls)

init-last_label : (l : Text) (ls : List Text) → l ∷ ls ≡ init (l ∷ ls) ++ last_label (l ∷ ls) ∷ []
unfolding init
init-last_label l [] = refl
init-last_label l (m ∷ ls) = ap (λ (t : List Text). l ∷ t) (init-last_label m ls)

last_label-append : (ls : List Text) (m : Text) → last_label (ls ++ m ∷ []) ≡ m
last_label-append [] m = refl
last_label-append (l ∷ []) m = refl
last_label-append (l ∷ k ∷ ls) m = last_label-append (k ∷ ls) m

All-init : (l : Text) (ls : List Text) → All IsLabel (l ∷ ls) → All IsLabel (init (l ∷ ls))
unfolding init
All-init l [] h = tt
All-init l (m ∷ ls) h = (h.0, All-init m ls h.1)

-- A list of two labels or more that ends in "core" is a name.
parts-IsCoreName :
    (name : Text) (ls : List Text)
    → name ≡ join b'.' ls
    → 2 ≤ length ls
    → last_label ls ≡ tld
    → All IsLabel ls
    → IsCoreName name
parts-IsCoreName name [] e two last h = absurd (omega arith)
parts-IsCoreName name (l ∷ []) e two last h = absurd (omega arith)
parts-IsCoreName name (l ∷ m ∷ ls) e two last h = record {
  labels = init (l ∷ m ∷ ls);
  some_label = unfold init in cc;
  ordinary = All-init l (m ∷ ls) h;
  written =
      e
      ∙ ap (join b'.')
          (init-last_label l (m ∷ ls) ∙ ap (λ (t : Text). init (l ∷ m ∷ ls) ++ t ∷ []) last);
}

-- What `ValidateName` accepts is a name of the grammar.
validate_name-IsCoreName :
    (u : Unicode) (name : Text) → validate_name u name ≡ none → IsCoreName name
validate_name-IsCoreName u [] h = absurd (unfold validate_name in cc h)
validate_name-IsCoreName u (c ∷ s) h =
    let (fixed, two, last, labels) = (validate_name-cons_iff u c s).0 h in
    parts-IsCoreName (c ∷ s) (split b'.' (c ∷ s)) (sym (join-split b'.' (c ∷ s))) two last
      ((first_bad_label_iff (split b'.' (c ∷ s))).0 labels)

label-Lacks : (c : ℕ) → IsLabelByte c → c ≢ b'.'
label-Lacks c h = omega arith

label-IsPlainByte : (c : ℕ) → IsLabelByte c → IsPlainByte c
unfolding is_space lower_byte
label-IsPlainByte c h = ground arith

labels-Lacks : (ls : List Text) → All IsLabel ls → All (Lacks b'.') ls
labels-Lacks [] h = tt
labels-Lacks (l ∷ ls) h =
    (All-mono IsLabelByte (λ c. c ≢ b'.') l label-Lacks h.0.letters, labels-Lacks ls h.1)

-- A label's bytes stay plain after a dot.
join-plain : (ls : List Text) → All IsLabel ls → All IsPlainByte (join b'.' ls)
unfolding join is_space lower_byte
join-plain [] h = tt
join-plain (l ∷ []) h = All-mono IsLabelByte IsPlainByte l label-IsPlainByte h.0.letters
join-plain (l ∷ m ∷ ls) h =
    All-append IsPlainByte l (b'.' ∷ join b'.' (m ∷ ls))
      (All-mono IsLabelByte IsPlainByte l label-IsPlainByte h.0.letters)
      ((omega arith, refl, refl), join-plain (m ∷ ls) h.1)

join_ends : (ls : List Text) (m : Text) → (p : Text) × (join b'.' (ls ++ m ∷ []) ≡ p ++ m)
unfolding join
join_ends [] m = ([], refl)
join_ends (l ∷ []) m = (l ++ b'.' ∷ [], sym (append_assoc l (b'.' ∷ []) m))
join_ends (l ∷ k ∷ ls) m =
    let (p, e) = join_ends (k ∷ ls) m in
    (l ++ (b'.' ∷ p), ap (λ (t : Text). l ++ (b'.' ∷ t)) e ∙ sym (append_assoc l (b'.' ∷ p) m))

-- Plain text that ends in "core" is normalized.
normalize_name_of_plain :
    (u : Unicode) (p : Text) → All IsPlainByte (p ++ tld) → normalize_name u (p ++ tld) ≡ p ++ tld
unfolding normalize_name text_eq
normalize_name_of_plain u p h =
    let cut : p ++ tld ≡ (p ++ bytes "cor") ++ bytes "e" = sym (append_assoc p (bytes "cor") _) in
    rw (trim_space_of_plain u (p ++ tld) h) (
      rw (cut, trim_suffix-append (p ++ bytes "cor") (bytes "e") (bytes ".") refl)
        (rw (← cut) (to_lower_of_plain u (p ++ tld) h)))

All-labels : {name : Text} (n : IsCoreName name) → All IsLabel (n.labels ++ tld ∷ [])
All-labels n = All-append IsLabel n.labels (tld ∷ []) n.ordinary (tld-IsLabel, tt)

-- A name of the grammar is its own normal form, whatever Unicode's tables are.
pub normalize_name-IsCoreName :
    (u : Unicode) (name : Text) → IsCoreName name → normalize_name u name ≡ name
normalize_name-IsCoreName u name n =
    let (p, e) = join_ends n.labels tld in
    let plain = join-plain (n.labels ++ tld ∷ []) (All-labels n) in
    let same : name ≡ p ++ tld = n.written ∙ e in
    rw same (normalize_name_of_plain u p (rw e at plain))

split-join-labels : (ls : List Text) → ls ≢ [] → All IsLabel ls → split b'.' (join b'.' ls) ≡ ls
split-join-labels [] h a = absurd (h refl)
split-join-labels (l ∷ ls) h a = split-join b'.' l ls (labels-Lacks (l ∷ ls) a)

append-ne-nil : (ls : List Text) (m : Text) → ls ++ m ∷ [] ≢ []
append-ne-nil [] m = cc
append-ne-nil (l ∷ ls) m = cc

-- The labels that `strings.Split` finds in a name of the grammar.
pub split-IsCoreName : (name : Text) (n : IsCoreName name) → split b'.' name ≡ n.labels ++ tld ∷ []
split-IsCoreName name n =
    rw n.written
      (split-join-labels (n.labels ++ tld ∷ []) (append-ne-nil n.labels tld) (All-labels n))

IsCoreName-ne-nil : (p : Text) → p ++ tld ≢ []
IsCoreName-ne-nil [] = cc
IsCoreName-ne-nil (c ∷ p) = cc

two_labels : (ls : List Text) (m : Text) → ls ≢ [] → 2 ≤ length (ls ++ m ∷ [])
two_labels [] m h = absurd (h refl)
two_labels (l ∷ []) m h = omega arith
two_labels (l ∷ k ∷ ls) m h = omega (arith, two_labels (k ∷ ls) m (cc))

IsCoreName-validate_name :
    (u : Unicode) (name : Text) → IsCoreName name → validate_name u name ≡ none
IsCoreName-validate_name u [] n =
    let (p, e) = join_ends n.labels tld in absurd (IsCoreName-ne-nil p (sym (n.written ∙ e)))
IsCoreName-validate_name u (c ∷ s) n =
    let found = split-IsCoreName (c ∷ s) n in
    (validate_name-cons_iff u c s).1 (
      sym (normalize_name-IsCoreName u (c ∷ s) n),
      rw found (two_labels n.labels tld n.some_label),
      rw found (last_label-append n.labels tld),
      rw found ((first_bad_label_iff (n.labels ++ tld ∷ [])).1 (All-labels n)),
    )

-- `ValidateName` accepts a text exactly when it is one DNS label or more followed by "core", with
-- dots between them; the answer does not depend on Unicode's tables.
pub validate_name_iff :
    (u : Unicode) (name : Text) → (validate_name u name ≡ none) ↔ IsCoreName name
validate_name_iff u name = (validate_name-IsCoreName u name, IsCoreName-validate_name u name)

-- A name that `ValidateName` accepts is its own normal form.
pub normalize_name_of_valid :
    (u : Unicode) (name : Text) → validate_name u name ≡ none → normalize_name u name ≡ name
normalize_name_of_valid u name h =
    normalize_name-IsCoreName u name (validate_name-IsCoreName u name h)
