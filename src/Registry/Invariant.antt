-- ===== src/Registry/Invariant.antt =====
-- What holds of every registry that the methods of internal/registry/registry.go can produce.
use corenet.Common.{
  is_empty-ne-nil, ℕ, Text, ℤ, pos, negsuc, ◌≡◌, ◌≢◌, ◌≤◌, refl, true, false, [], none, arith,
  Unicode, Map, get, put, delete, IsMap, Entries, put-IsMap, delete-IsMap, put-Entries,
  delete-Entries, is_some,
}
use corenet.Protocol.{Service, Conflict, source_config, source_runtime, source_docker}
use corenet.Protocol.Grammar.{IsCoreName, validate_name_iff}
use corenet.Registry.{Registry, new, bad_port, is_unusable}

-- A port that can be dialled.
abbrev pub IsPort : ℤ → Type 0
IsPort p = (n : ℕ) × (p ≡ pos n) × (1 ≤ n) × (n ≤ 65535)

-- A service that may stand under `k` in a tier whose services were checked.
pub record IsUsable (source k : Text) (s : Service) : Type 0 where
  pub keyed : s.name ≡ k
  pub named : IsCoreName k
  pub addressed : s.address ≢ []
  pub ported : IsPort s.port
  pub origin : s.source ≡ source

-- A configured service stands under its own name.
pub record IsConfigured (k : Text) (s : Service) : Type 0 where
  pub keyed : s.name ≡ k
  pub origin : s.source ≡ source_config

-- A Go map, with one entry for each key, all of whose entries have a property.
pub record IsTier {V : Type 0} (P : Text → V → Type 0) (m : Map V) : Type 0 where
  pub distinct : IsMap m
  pub entries : Entries P m

-- What was learned from one node.
pub record IsDirectory (id : Text) (m : Map Service) : Type 0 where
  pub filled : m ≢ []
  pub usable : IsTier (IsUsable id) m

pub record IsConflict (k : Text) (c : Conflict) : Type 0 where
  pub keyed : c.name ≡ k
  pub named : IsCoreName k

-- A conflicted name is not in the Docker tier.
abbrev pub IsUnrouted : Map Service → Map Conflict → Type 0
IsUnrouted docker conflicts = (k : Text) → is_some (get conflicts k) ≡ true → get docker k ≡ none

pub record IsWellFormed (r : Registry) : Type 0 where
  pub config : IsTier IsConfigured r.config
  pub runtime : IsTier (IsUsable source_runtime) r.runtime
  pub docker : IsTier (IsUsable source_docker) r.docker
  pub remote : IsTier IsDirectory r.remote
  pub conflicts : IsTier IsConflict r.conflicts
  pub unrouted : IsUnrouted r.docker r.conflicts

module _ {V : Type 0} {P : Text → V → Type 0} where
  pub nil-IsTier : IsTier P []
  nil-IsTier = record { distinct = tt; entries = tt }

  pub put-IsTier : {m : Map V} (k : Text) (v : V) → P k v → IsTier P m → IsTier P (put m k v)
  put-IsTier {m} k v p h = record {
    distinct = put-IsMap m k v h.distinct;
    entries = put-Entries P m k v p h.entries;
  }

  pub delete-IsTier : {m : Map V} (k : Text) → IsTier P m → IsTier P (delete m k)
  delete-IsTier {m} k h = record {
    distinct = delete-IsMap m k h.distinct;
    entries = delete-Entries P m k h.entries;
  }

-- An empty registry.
pub new-IsWellFormed : IsWellFormed new
unfolding get
new-IsWellFormed = record {
  config = nil-IsTier;
  runtime = nil-IsTier;
  docker = nil-IsTier;
  remote = nil-IsTier;
  conflicts = nil-IsTier;
  unrouted = λ k h. refl;
}

-- Without what other nodes offer.
pub forget-IsWellFormed : {r : Registry} → IsWellFormed r → IsWellFormed (record r { remote = [] })
forget-IsWellFormed h = record {
  config = h.config;
  runtime = h.runtime;
  docker = h.docker;
  remote = nil-IsTier;
  conflicts = h.conflicts;
  unrouted = h.unrouted;
}

pub bad_port-IsPort : (p : ℤ) → bad_port p ≡ false → IsPort p
unfolding bad_port
bad_port-IsPort (pos n) h = (n, refl, ground arith, ground arith)
bad_port-IsPort (negsuc n) h = absurd (cc h)

pub IsPort-bad_port : (p : ℤ) → IsPort p → bad_port p ≡ false
unfolding bad_port
IsPort-bad_port p (n, e, lo, hi) = rw e (ground (arith, lo, hi))

module _ (u : Unicode) where
  -- What passes the guard may be stored under its name.
  pub is_unusable-IsUsable :
      (source : Text) (s : Service)
      → is_unusable u s ≡ false
      → IsUsable source s.name (record s { source = source })
  unfolding is_unusable
  is_unusable-IsUsable source s h = record {
    keyed = refl;
    named = (validate_name_iff u s.name).0 (ground arith);
    addressed = is_empty-ne-nil s.address (ground arith);
    ported = bad_port-IsPort s.port (ground arith);
    origin = refl;
  }
