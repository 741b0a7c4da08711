-- ===== src/Registry/Listing.antt =====
-- `List` and `ListLocal` of internal/registry/registry.go against `Lookup`.
use mathlib.Core.List.{reverse-cons}
use corenet.Common.{
  Text, ◌≡◌, refl, ap, ◌∙◌, List, [], ◌∷◌, ◌++◌, reverse, Unicode, Map, get, put_all, IsMap,
  Entries, put_all-IsMap, put_all-Entries, get-Entries, get-put_all, sort_by, find_by, IsSorted,
  IsKeyed, find_by-sort_by-values, sort_by-values-IsSorted, Option-cases, inl, inr, ◌<|>◌,
}
use corenet.Protocol.{Service}
use corenet.Protocol.Names.{normalize_name}
use corenet.Registry.{
  Registry, directory_of, sorted_node_ids, lookup_remote, lookup_name, lookup, merge_remote,
  merge_local, list, list_local,
}
use corenet.Registry.Invariant.{IsUsable, IsConfigured, IsDirectory, IsTier, IsWellFormed}

-- The key by which services are sorted.
abbrev pub by_name : Service → Text
by_name s = s.name

Entries-IsKeyed :
    (P : Text → Service → Type 0) (m : Map Service)
    → ((k : Text) (s : Service) → P k s → s.name ≡ k)
    → Entries P m
    → IsKeyed by_name m
Entries-IsKeyed P [] f h = tt
Entries-IsKeyed P ((k, s) ∷ m) f h = (f k s h.0, Entries-IsKeyed P m f h.1)

usable-IsKeyed : (source : Text) (m : Map Service) → Entries (IsUsable source) m → IsKeyed by_name m
usable-IsKeyed source m = Entries-IsKeyed (IsUsable source) m (λ k s h. h.keyed)

directory-IsTier :
    (remote : Map (Map Service)) (id : Text)
    → IsTier IsDirectory remote
    → IsTier (IsUsable id) (directory_of (get remote id))
directory-IsTier remote id h = elim (Option-cases (get remote id)) [
  | inl gone ↦ rw gone (record { distinct = tt; entries = tt })
  | inr (m, there) ↦ rw there (get-Entries IsDirectory remote id m h.entries there).usable
]

module _ (remote : Map (Map Service)) (h : IsTier IsDirectory remote) where
  merge_remote-IsMap :
      (ids : List Text) (merged : Map Service)
      → IsMap merged
      → IsMap (merge_remote merged remote ids)
  unfolding merge_remote
  merge_remote-IsMap [] merged m = m
  merge_remote-IsMap (id ∷ ids) merged m =
      merge_remote-IsMap ids _ (put_all-IsMap merged (directory_of (get remote id)) m)

  merge_remote-IsKeyed :
      (ids : List Text) (merged : Map Service)
      → IsKeyed by_name merged
      → IsKeyed by_name (merge_remote merged remote ids)
  unfolding merge_remote
  merge_remote-IsKeyed [] merged k = k
  merge_remote-IsKeyed (id ∷ ids) merged k = merge_remote-IsKeyed ids _ (
      put_all-Entries _ merged (directory_of (get remote id)) k
        (usable-IsKeyed id _ (directory-IsTier remote id h).entries))

  merge_remote-append :
      (ids : List Text) (id : Text) (merged : Map Service)
      → merge_remote merged remote (ids ++ id ∷ [])
        ≡ put_all (merge_remote merged remote ids) (directory_of (get remote id))
  unfolding merge_remote
  merge_remote-append [] id merged = refl
  merge_remote-append (j ∷ ids) id merged = merge_remote-append ids id _

  -- Writing the directories from the highest node ID down leaves what the lowest one offers.
  get-merge_remote :
      (ids : List Text) (k : Text)
      → get (merge_remote [] remote (reverse ids)) k ≡ lookup_remote remote ids k
  unfolding lookup_remote merge_remote get
  get-merge_remote [] k = refl
  get-merge_remote (id ∷ ids) k =
      rw (reverse-cons, merge_remote-append (reverse ids) id [])
        (get-put_all (merge_remote [] remote (reverse ids)) _ k
            (directory-IsTier remote id h).distinct
          ∙ ap (λ o. get (directory_of (get remote id)) k <|> o) (get-merge_remote ids k))

module _ (r : Registry) (h : IsWellFormed r) where
  merge_local-IsMap : (m : Map Service) → IsMap m → IsMap (merge_local m r)
  unfolding merge_local
  merge_local-IsMap m d =
      put_all-IsMap _ r.runtime (put_all-IsMap _ r.config (put_all-IsMap m r.docker d))

  merge_local-IsKeyed : (m : Map Service) → IsKeyed by_name m → IsKeyed by_name (merge_local m r)
  unfolding merge_local
  merge_local-IsKeyed m k =
      put_all-Entries _ _ r.runtime
        (put_all-Entries _ _ r.config
          (put_all-Entries _ m r.docker k (usable-IsKeyed _ r.docker h.docker.entries))
          (Entries-IsKeyed IsConfigured r.config (λ k s c. c.keyed) h.config.entries))
        (usable-IsKeyed _ r.runtime h.runtime.entries)

  get-merge_local :
      (m : Map Service) (k : Text)
      → get (merge_local m r) k
        ≡ (get r.runtime k <|> get r.config k <|> get r.docker k <|> get m k)
  unfolding merge_local
  get-merge_local m k = cc (
    get-put_all (put_all (put_all m r.docker) r.config) r.runtime k h.runtime.distinct,
    get-put_all (put_all m r.docker) r.config k h.config.distinct,
    get-put_all m r.docker k h.docker.distinct,
  )

  abbrev merged : Map Service
  merged = merge_local (merge_remote [] r.remote (reverse (sorted_node_ids r))) r

  merged-IsMap : IsMap merged
  merged-IsMap = merge_local-IsMap _ (merge_remote-IsMap r.remote h.remote _ [] tt)

  merged-IsKeyed : IsKeyed by_name merged
  merged-IsKeyed = merge_local-IsKeyed _ (merge_remote-IsKeyed r.remote h.remote _ [] tt)

  pub find_by-list : (k : Text) → find_by by_name k (list r) ≡ lookup_name r k
  unfolding list lookup_name
  find_by-list k =
      find_by-sort_by-values by_name merged k merged-IsKeyed
      ∙ get-merge_local _ k
      ∙ ap (λ o. get r.runtime k <|> get r.config k <|> get r.docker k <|> o)
          (get-merge_remote r.remote h.remote (sorted_node_ids r) k)

  pub list-IsSorted : IsSorted by_name (list r)
  unfolding list
  list-IsSorted = sort_by-values-IsSorted by_name merged merged-IsMap merged-IsKeyed

  pub find_by-list_local :
      (k : Text) → find_by by_name k (list_local r) ≡ lookup_name (record r { remote = [] }) k
  unfolding list_local lookup_name sort_by get
  find_by-list_local k =
      find_by-sort_by-values by_name (merge_local [] r) k (merge_local-IsKeyed [] tt)
      ∙ get-merge_local [] k

  pub list_local-IsSorted : IsSorted by_name (list_local r)
  unfolding list_local
  list_local-IsSorted =
      sort_by-values-IsSorted by_name (merge_local [] r) (merge_local-IsMap [] tt)
        (merge_local-IsKeyed [] tt)

-- In a well-formed registry `List` and `Lookup` agree: the list is sorted by name with no name
-- twice, and under any name it holds what `Lookup` returns for it, if anything.
pub list_agrees :
    (u : Unicode) (r : Registry)
    → IsWellFormed r
    → IsSorted by_name (list r)
      × ((name : Text) → find_by by_name (normalize_name u name) (list r) ≡ lookup u r name)
unfolding lookup
list_agrees u r h = (list-IsSorted r h, λ name. find_by-list r h (normalize_name u name))

-- In a well-formed registry `ListLocal` is what `List` becomes when every directory learned from
-- another node is forgotten: it is sorted, and holds under any name what `Lookup` would then return.
pub list_local_agrees :
    (u : Unicode) (r : Registry)
    → IsWellFormed r
    → IsSorted by_name (list_local r)
      × ((name : Text)
          → find_by by_name (normalize_name u name) (list_local r)
            ≡ lookup u (record r { remote = [] }) name)
unfolding lookup
list_local_agrees u r h =
    (list_local-IsSorted r h, λ name. find_by-list_local r h (normalize_name u name))
