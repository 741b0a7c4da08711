-- ===== src/Config/Loading/Search.antt =====
-- What `Load` of internal/config/config.go returns: which file decides, and that it is always valid.
use mathlib.Core.List.{reverse}
use corenet.Common.{
  ℕ, map, subst, sym, Text, ◌≡◌, ◌≢◌, refl, ap, ◌∙◌, Bool, true, false, List, [], ◌∷◌, Option, none,
  some, is_empty, is_empty-ne-nil, if◌then◌else◌, Unicode, Bool-cases, Option-cases, inl, inr,
  split_host_port, runes, ◌⊎◌,
}
use corenet.Config.{
  Config, Checked, passed, failed, default_node_id, trim_hyphens, id_rune, validate,
}
use corenet.Config.Checks.{IsValid}
use corenet.Config.Validated.{validate-IsValid, valid-validate}
use corenet.Config.Loading.{
  File, missing, unreadable, contents, Decoded, decoded, malformed, Machine, Loaded, loaded,
  default_config, search_paths, host_or_corenet, accept, prepared, load_decoded, load_contents,
  load_default, load_file, load_candidates, unless_missing, load,
}

abbrev is_missing : File → Bool
is_missing missing = true
is_missing (unreadable e) = false
is_missing (contents file) = false

-- The first of some paths that leads to a file.
pub first_file : (Text → File) → List Text → Option Text
first_file read_file [] = none
first_file read_file (path ∷ paths) =
    let rest = first_file read_file paths in if is_missing (read_file path) then rest else some path

default_node_id-ne-nil : (host : List ℕ) → default_node_id host ≢ []
unfolding default_node_id
default_node_id-ne-nil host =
    let id = reverse (trim_hyphens (reverse (trim_hyphens (map id_rune host)))) in
    elim (Bool-cases (is_empty id)) [
      | inl nothing ↦ rw (nothing, default_node_id) cc
      | inr filled ↦ rw (filled, default_node_id) (is_empty-ne-nil id filled)
    ]

pub default_config-IsValid : (m : Machine) → IsValid (default_config m)
unfolding default_config split_host_port
default_config-IsValid m = record {
  identified = default_node_id-ne-nil (runes (host_or_corenet m.host_name));
  controlled = cc;
  dns = refl;
  http = refl;
  peer = refl;
  services = tt;
  distinct = tt;
  pull = refl;
  poll = refl;
  nodes = tt;
}

loaded-injective : {c d : Config} → loaded c ≡ loaded d → c ≡ d
loaded-injective h = cc h

module _ (u : Unicode) (m : Machine) where
  load_default_lem : load_default u m (validate u (default_config m)) ≡ loaded (default_config m)
  load_default_lem = rw (valid-validate u (default_config m) (default_config-IsValid m)) refl

  -- What a file leaves, once it is decoded and checked.
  load_file-IsValid :
      (path : Text) (cfg : Config)
      → load_file u m path ≡ loaded cfg
      → IsValid cfg × (cfg.path ≡ path)
  unfolding load_file
  load_file-IsValid path cfg h = from_file (m.read_file path) h
    where
      checked :
          (c : Config) (r : Checked Config)
          → validate u c ≡ r
          → accept u m path r ≡ loaded cfg
          → IsValid cfg × (cfg.path ≡ c.path)
      checked c (failed e) v q = absurd (cc q)
      checked c (passed c') v q =
          let (valid, same, _) = validate-IsValid u c c' v in
          let whole : c' ≡ cfg = cc q in
          (subst IsValid whole valid, ap (λ c. c.path) (sym whole ∙ same))

      from_text :
          (d : Decoded) → load_decoded u m path d ≡ loaded cfg → IsValid cfg × (cfg.path ≡ path)
      from_text (malformed e) q = absurd (cc q)
      from_text (decoded c) q =
          checked (record c { path = path }) (validate u (record c { path = path })) refl q

      from_file :
          (f : File) → load_contents u m path f ≡ loaded cfg → IsValid cfg × (cfg.path ≡ path)
      from_file missing q = absurd (cc q)
      from_file (unreadable e) q = absurd (cc q)
      from_file (contents file) q = from_text (m.unmarshal file (prepared u m)) q

  -- Whether the loop goes on is told by the file alone.
  unless_missing-load_file :
      (path : Text) (next : Loaded)
      → unless_missing u m (load_file u m path) next
        ≡ (if is_missing (m.read_file path) then next else load_file u m path)
  unfolding load_file
  unless_missing-load_file path next = from_file (m.read_file path)
    where
      checked :
          (r : Checked Config) → unless_missing u m (accept u m path r) next ≡ accept u m path r
      checked (passed c) = refl
      checked (failed e) = refl

      from_text :
          (d : Decoded)
          → unless_missing u m (load_decoded u m path d) next ≡ load_decoded u m path d
      from_text (malformed e) = refl
      from_text (decoded c) = checked (validate u (record c { path = path }))

      from_file :
          (f : File)
          → unless_missing u m (load_contents u m path f) next
            ≡ (if is_missing f then next else load_contents u m path f)
      from_file missing = refl
      from_file (unreadable e) = refl
      from_file (contents file) = from_text (m.unmarshal file (prepared u m))

  load_candidates_lem :
      (paths : List Text)
      → load_candidates u m paths ≡ elim (first_file m.read_file paths) [
        | none ↦ loaded (default_config m)
        | some path ↦ load_file u m path
      ]
  unfolding load_candidates first_file
  load_candidates_lem [] = load_default_lem
  load_candidates_lem (path ∷ paths) =
      unless_missing-load_file path (load_candidates u m paths)
      ∙ elim (Bool-cases (is_missing (m.read_file path))) [
        | inl gone ↦ rw gone (load_candidates_lem paths)
        | inr there ↦ rw there refl
      ]

  load_candidates-IsValid :
      (paths : List Text) (cfg : Config) → load_candidates u m paths ≡ loaded cfg → IsValid cfg
  load_candidates-IsValid paths cfg h = elim (Option-cases (first_file m.read_file paths)) [
    | inl nowhere ↦
        subst IsValid
          (loaded-injective (sym (ap from nowhere) ∙ sym (load_candidates_lem paths) ∙ h))
          (default_config-IsValid m)
    | inr (path, there) ↦
        (load_file-IsValid path cfg (sym (ap from there) ∙ sym (load_candidates_lem paths) ∙ h)).0
  ]
    where
      from : Option Text → Loaded
      from o = elim o [ none ↦ loaded (default_config m) | some path ↦ load_file u m path ]

  pub load_lem :
      (path : Text) (cfg : Config)
      → load u m path ≡ loaded cfg
      → IsValid cfg
        × ((path ≡ []) ⊎ (cfg.path ≡ path))
        × (load u m [] ≡ elim (first_file m.read_file (search_paths m)) [
          | none ↦ loaded (default_config m)
          | some path ↦ load_file u m path
        ])
  unfolding load
  load_lem [] cfg h = (
    load_candidates-IsValid (search_paths m) cfg h,
    inl refl,
    load_candidates_lem (search_paths m),
  )
  load_lem (c ∷ path) cfg h =
      let file = load_file-IsValid (c ∷ path) cfg h in
      (file.0, inr file.1, load_candidates_lem (search_paths m))
