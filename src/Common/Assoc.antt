-- ===== src/Common/Assoc.antt =====
-- Go's maps with string keys, as association lists. A `range` loop goes through the list, so the
-- order of the entries stands for the order that Go's runtime happens to choose.
use mathlib.Core.Path.{◌≡◌, refl}
use mathlib.Core.Option.{Option, none, some}
use mathlib.Core.List.{List, [], ◌∷◌, map}
use native.Mathlib.Omega.{arith}
use corenet.Common.Tests.{if◌then◌else◌, ◌<|>◌}
use corenet.Common.Bytes.{Text, text_eq, text_eq_iff, text_eq_refl}

abbrev pub Map {ℓ} : Type ℓ → Type ℓ
Map V = List (Text × V)

module _ {ℓ} {V : Type ℓ} where
  -- `v, ok := m[k]`
  unfoldable pub get : Map V → Text → Option V
  get [] k = none
  get ((j, v) ∷ m) k = if text_eq j k then some v else get m k

  -- `m[k] = v`
  unfoldable pub put : Map V → Text → V → Map V
  put [] k v = (k, v) ∷ []
  put ((j, w) ∷ m) k v = if text_eq j k then (k, v) ∷ m else (j, w) ∷ put m k v

  -- `delete(m, k)`
  unfoldable pub delete : Map V → Text → Map V
  delete [] k = []
  delete ((j, w) ∷ m) k = let rest = delete m k in if text_eq j k then rest else (j, w) ∷ rest

  -- `for k, v := range n { m[k] = v }`
  unfoldable pub put_all : Map V → Map V → Map V
  put_all m [] = m
  put_all m ((k, v) ∷ n) = put_all (put m k v) n

  abbrev pub values : Map V → List V
  values = map (λ e. e.1)

  abbrev pub keys : Map V → List Text
  keys = map (λ e. e.0)

  -- A Go map has one entry for each key.
  abbrev pub IsMap : Map V → Type ℓ
  IsMap [] = Unit
  IsMap ((k, v) ∷ m) = (get m k ≡ none) × IsMap m

  pub get-put :
      (m : Map V) (k j : Text) (v : V)
      → get (put m k v) j ≡ (if text_eq k j then some v else get m j)
  unfolding get put
  get-put [] k j v = refl
  get-put ((i, w) ∷ m) k j v =
      ground (arith, get-put m k j v, text_eq_iff k j, text_eq_iff i k, text_eq_iff i j)

  pub get-delete :
      (m : Map V) (k j : Text) → get (delete m k) j ≡ (if text_eq k j then none else get m j)
  unfolding get delete
  get-delete [] k j = ground arith
  get-delete ((i, w) ∷ m) k j =
      ground (arith, get-delete m k j, text_eq_iff k j, text_eq_iff i k, text_eq_iff i j)

  delete_absent : (m : Map V) (k : Text) → get m k ≡ none → delete m k ≡ m
  unfolding get delete
  delete_absent [] k h = refl
  delete_absent ((i, w) ∷ m) k h = ground (arith, delete_absent m k)

  -- Deleting what was put under a free key gives the map back.
  pub delete-put : (m : Map V) (k : Text) (v : V) → get m k ≡ none → delete (put m k v) k ≡ m
  unfolding get delete put
  delete-put [] k v h = rw (text_eq_refl k)
  delete-put ((i, w) ∷ m) k v h = ground (arith, delete-put m k v)

  pub put-IsMap : (m : Map V) (k : Text) (v : V) → IsMap m → IsMap (put m k v)
  unfolding put get
  put-IsMap [] k v h = (refl, tt)
  put-IsMap ((i, w) ∷ m) k v h =
      ground (arith, put-IsMap m k v, get-put m k i v, text_eq_iff i k, text_eq_iff k i)

  pub delete-IsMap : (m : Map V) (k : Text) → IsMap m → IsMap (delete m k)
  unfolding delete
  delete-IsMap [] k h = tt
  delete-IsMap ((i, w) ∷ m) k h = ground (arith, delete-IsMap m k, get-delete m k i)

  pub put_all-IsMap : (m n : Map V) → IsMap m → IsMap (put_all m n)
  unfolding put_all
  put_all-IsMap m [] h = h
  put_all-IsMap m ((k, v) ∷ n) h = put_all-IsMap (put m k v) n (put-IsMap m k v h)

  -- Later writes win.
  pub get-put_all : (m n : Map V) (j : Text) → IsMap n → get (put_all m n) j ≡ (get n j <|> get m j)
  unfolding put_all get
  get-put_all m [] j h = refl
  get-put_all m ((k, v) ∷ n) j h =
      ground (arith, get-put_all (put m k v) n j h.1, get-put m k j v, text_eq_iff k j)

module _ {ℓ κ} {V : Type ℓ} (P : Text → V → Type κ) where
  -- A property of every entry of a map.
  abbrev pub Entries : Map V → Type κ
  Entries [] = Unit
  Entries ((k, v) ∷ m) = P k v × Entries m

  pub put-Entries : (m : Map V) (k : Text) (v : V) → P k v → Entries m → Entries (put m k v)
  unfolding put
  put-Entries [] k v p h = (p, tt)
  put-Entries ((i, w) ∷ m) k v p h = ground (arith, put-Entries m k v p)

  pub delete-Entries : (m : Map V) (k : Text) → Entries m → Entries (delete m k)
  unfolding delete
  delete-Entries [] k h = tt
  delete-Entries ((i, w) ∷ m) k h = ground (arith, delete-Entries m k h.1)

  pub put_all-Entries : (m n : Map V) → Entries m → Entries n → Entries (put_all m n)
  unfolding put_all
  put_all-Entries m [] h e = h
  put_all-Entries m ((k, v) ∷ n) h e = put_all-Entries (put m k v) n (put-Entries m k v e.0 h) e.1

  pub get-Entries : (m : Map V) (k : Text) (v : V) → Entries m → get m k ≡ some v → P k v
  unfolding get
  get-Entries [] k v h e = ground arith
  get-Entries ((i, w) ∷ m) k v h e = ground (arith, get-Entries m k v h.1, text_eq_iff i k)
