-- ===== src/Common/Sorting.antt =====
-- `sort.Slice` and `sort.Strings` by a text key. The list that they leave is determined by the
-- order where keys are distinct, so the algorithm chosen here does not matter there.
use mathlib.Core.Path.{◌≡◌, refl, sym, ap, ap₂, ◌∙◌}
use mathlib.Core.Logic.{◌≢◌, inl, inr}
use mathlib.Core.Bool.{true}
use mathlib.Core.Option.{Option, none, some}
use mathlib.Core.List.{List, [], ◌∷◌, ◌++◌}
use native.Mathlib.Omega.{arith}
use corenet.Common.Tests.{if◌then◌else◌, Bool-cases, ◌<|>◌}
use corenet.Common.Lists.{All}
use corenet.Common.Bytes.{
  Text, text_eq, text_lt, text_eq_iff, text_eq_refl, text_lt_irrefl, text_lt_trans, text_lt_total,
  eq_of_not_lt,
}
use corenet.Common.Assoc.{Map, get, values, IsMap, Entries}

module _ {ℓ} {A : Type ℓ} (key : A → Text) where
  unfoldable pub insert_by : A → List A → List A
  insert_by x [] = x ∷ []
  insert_by x (y ∷ ys) =
      let rest = insert_by x ys in if text_lt (key y) (key x) then y ∷ rest else x ∷ y ∷ ys

  unfoldable pub sort_by : List A → List A
  sort_by [] = []
  sort_by (x ∷ xs) = insert_by x (sort_by xs)

  -- The first element with a key.
  unfoldable pub find_by : Text → List A → Option A
  find_by k [] = none
  find_by k (x ∷ xs) = if text_eq (key x) k then some x else find_by k xs

  abbrev pub Above : A → List A → Type 0
  Above x = All (λ y. text_lt (key x) (key y) ≡ true)

  -- Strictly increasing keys: sorted, and no key twice.
  abbrev pub IsSorted : List A → Type 0
  IsSorted [] = Unit
  IsSorted (x ∷ xs) = Above x xs × IsSorted xs

  find_by-insert_by :
      (k : Text) (x : A) (xs : List A)
      → find_by k (insert_by x xs) ≡ (if text_eq (key x) k then some x else find_by k xs)
  unfolding find_by insert_by
  find_by-insert_by k x [] = refl
  find_by-insert_by k x (y ∷ ys) = ground (
    arith,
    find_by-insert_by k x ys,
    text_eq_iff (key x) k,
    text_eq_iff (key y) k,
    text_lt_irrefl (key x),
  )

  -- Sorting keeps what is found under each key.
  pub find_by-sort_by : (k : Text) (xs : List A) → find_by k (sort_by xs) ≡ find_by k xs
  unfolding find_by sort_by
  find_by-sort_by k [] = refl
  find_by-sort_by k (x ∷ xs) =
      find_by-insert_by k x (sort_by xs)
      ∙ ap (λ o. if text_eq (key x) k then some x else o) (find_by-sort_by k xs)

  Above-insert_by :
      (z x : A) (xs : List A)
      → text_lt (key z) (key x) ≡ true
      → Above z xs
      → Above z (insert_by x xs)
  unfolding insert_by
  Above-insert_by z x [] h a = (h, tt)
  Above-insert_by z x (y ∷ ys) h a = ground (arith, Above-insert_by z x ys h a.1)

  Above-trans : (z x : A) (xs : List A) → text_lt (key z) (key x) ≡ true → Above x xs → Above z xs
  Above-trans z x [] h a = tt
  Above-trans z x (y ∷ ys) h a =
      (text_lt_trans (key z) (key x) (key y) h a.0, Above-trans z x ys h a.1)

  pub insert_by-IsSorted :
      (x : A) (xs : List A) → find_by (key x) xs ≡ none → IsSorted xs → IsSorted (insert_by x xs)
  unfolding insert_by find_by
  insert_by-IsSorted x [] f s = (tt, tt)
  insert_by-IsSorted x (y ∷ ys) f s = elim (Bool-cases (text_lt (key y) (key x))) [
    | inl lt ↦ rw lt (Above-insert_by y x ys lt s.0, insert_by-IsSorted x ys (ground arith) s.1)
    | inr ge ↦
        let ne : key y ≢ key x = ground (arith, text_eq_iff (key y) (key x)) in
        let lt = text_lt_total (key y) (key x) ge ne in rw ge ((lt, Above-trans x y ys lt s.0), s)
  ]

  pub find_by-Above :
      (k : Text) (x : A) (xs : List A) → text_eq (key x) k ≡ true → Above x xs → find_by k xs ≡ none
  unfolding find_by
  find_by-Above k x [] e a = refl
  find_by-Above k x (y ∷ ys) e a = ground (
    arith,
    find_by-Above k x ys e a.1,
    text_eq_iff (key x) k,
    text_eq_iff (key y) k,
    text_lt_irrefl (key y),
  )

  find_by-Above_lt :
      (k : Text) (x : A) (xs : List A) → text_lt k (key x) ≡ true → Above x xs → find_by k xs ≡ none
  unfolding find_by
  find_by-Above_lt k x [] e a = refl
  find_by-Above_lt k x (y ∷ ys) e a = ground (
    arith,
    find_by-Above_lt k x ys e a.1,
    text_eq_iff (key y) k,
    text_lt_trans k (key x) (key y),
    text_lt_irrefl k,
  )

  find_by_head : (x : A) (xs : List A) → find_by (key x) (x ∷ xs) ≡ some x
  unfolding find_by
  find_by_head x xs = rw (text_eq_refl (key x))

  -- A key below the head of a sorted list is not in it.
  pub find_by_smaller :
      (x y : A) (ys : List A)
      → text_lt (key x) (key y) ≡ true
      → Above y ys
      → find_by (key x) (y ∷ ys) ≡ none
  unfolding find_by
  find_by_smaller x y ys lt a = ground (
    arith,
    find_by-Above_lt (key x) y ys lt a,
    text_eq_iff (key y) (key x),
    text_lt_irrefl (key x),
  )

  find_by_tail :
      (k : Text) (x y : A) (xs ys : List A)
      → key x ≡ key y
      → Above x xs
      → Above y ys
      → find_by k (x ∷ xs) ≡ find_by k (y ∷ ys)
      → find_by k xs ≡ find_by k ys
  unfolding find_by
  find_by_tail k x y xs ys e a b h = elim (Bool-cases (text_eq (key x) k)) [
    | inl same ↦ find_by-Above k x xs same a ∙ sym (find_by-Above k y ys (rw (← e) same) b)
    | inr other ↦ ground arith
  ]

  -- A sorted list is determined by what is found under each key.
  pub IsSorted-unique :
      (xs ys : List A)
      → IsSorted xs
      → IsSorted ys
      → ((k : Text) → find_by k xs ≡ find_by k ys)
      → xs ≡ ys
  unfolding find_by
  IsSorted-unique [] [] s t h = refl
  IsSorted-unique [] (y ∷ ys) s t h = cc (h (key y), find_by_head y ys)
  IsSorted-unique (x ∷ xs) [] s t h = cc (h (key x), find_by_head x xs)
  IsSorted-unique (x ∷ xs) (y ∷ ys) s t h = elim (Bool-cases (text_lt (key x) (key y))) [
    | inl lt ↦ absurd (cc (h (key x), find_by_head x xs, find_by_smaller x y ys lt t.0))
    | inr ge ↦ elim (Bool-cases (text_lt (key y) (key x))) [
      | inl lt ↦ absurd (cc (h (key y), find_by_head y ys, find_by_smaller y x xs lt s.0))
      | inr le ↦
          let e : key x ≡ key y = eq_of_not_lt (key x) (key y) ge le in
          let same : x ≡ y =
            ground (arith, h (key x), find_by_head x xs, text_eq_iff (key y) (key x)) in
          let tails : xs ≡ ys =
            IsSorted-unique xs ys s.1 t.1 (λ k. find_by_tail k x y xs ys e s.0 t.0 (h k)) in
          ap₂ ◌∷◌ same tails
    ]
  ]

-- Sorting a list whose keys are distinct.
module _ {ℓ} {A : Type ℓ} (key : A → Text) where
  abbrev pub IsDistinct : List A → Type ℓ
  IsDistinct [] = Unit
  IsDistinct (x ∷ xs) = (find_by key (key x) xs ≡ none) × IsDistinct xs

  pub sort_by-IsSorted : (xs : List A) → IsDistinct xs → IsSorted key (sort_by key xs)
  unfolding sort_by
  sort_by-IsSorted [] d = tt
  sort_by-IsSorted (x ∷ xs) d =
      insert_by-IsSorted key x (sort_by key xs) (find_by-sort_by key (key x) xs ∙ d.0)
        (sort_by-IsSorted xs d.1)

  pub find_by-append :
      (k : Text) (xs : List A) (y : A)
      → find_by key k (xs ++ y ∷ [])
        ≡ (find_by key k xs <|> (if text_eq (key y) k then some y else none))
  unfolding find_by
  find_by-append k [] y = refl
  find_by-append k (x ∷ xs) y = ground (arith, find_by-append k xs y)

  pub append-IsDistinct :
      (xs : List A) (y : A)
      → find_by key (key y) xs ≡ none
      → IsDistinct xs
      → IsDistinct (xs ++ y ∷ [])
  unfolding find_by
  append-IsDistinct [] y f d = (refl, tt)
  append-IsDistinct (x ∷ xs) y f d = ground (
    arith,
    f,
    d.0,
    append-IsDistinct xs y,
    d.1,
    find_by-append (key x) xs y,
    text_eq_iff (key x) (key y),
    text_eq_iff (key y) (key x),
  )

module _ {ℓ κ} {A : Type ℓ} (P : A → Type κ) (key : A → Text) where
  insert_by-All : (x : A) (xs : List A) → P x → All P xs → All P (insert_by key x xs)
  unfolding insert_by
  insert_by-All x [] p h = (p, tt)
  insert_by-All x (y ∷ ys) p h = elim (Bool-cases (text_lt (key y) (key x))) [
    | inl lt ↦ rw (lt, insert_by) (h.0, insert_by-All x ys p h.1)
    | inr ge ↦ rw (ge, insert_by) (p, h)
  ]

  pub sort_by-All : (xs : List A) → All P xs → All P (sort_by key xs)
  unfolding sort_by
  sort_by-All [] h = tt
  sort_by-All (x ∷ xs) h = insert_by-All x (sort_by key xs) h.0 (sort_by-All xs h.1)

-- Sorting the values of a map whose entries stand under their own keys.
module _ {ℓ} {A : Type ℓ} (key : A → Text) where
  abbrev pub IsKeyed : Map A → Type 0
  IsKeyed = Entries (λ k v. key v ≡ k)

  find_by-values : (m : Map A) (k : Text) → IsKeyed m → find_by key k (values m) ≡ get m k
  unfolding find_by get
  find_by-values [] k h = refl
  find_by-values ((j, v) ∷ m) k h = rw h.0 (ground (arith, find_by-values m k h.1))

  pub find_by-sort_by-values :
      (m : Map A) (k : Text) → IsKeyed m → find_by key k (sort_by key (values m)) ≡ get m k
  find_by-sort_by-values m k h = find_by-sort_by key k (values m) ∙ find_by-values m k h

  pub sort_by-values-IsSorted :
      (m : Map A) → IsMap m → IsKeyed m → IsSorted key (sort_by key (values m))
  unfolding sort_by
  sort_by-values-IsSorted [] h k = tt
  sort_by-values-IsSorted ((j, v) ∷ m) h k =
      insert_by-IsSorted key v (sort_by key (values m))
        (find_by-sort_by-values m (key v) k.1 ∙ rw k.0 h.0) (sort_by-values-IsSorted m h.1 k.1)
