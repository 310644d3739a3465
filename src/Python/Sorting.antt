-- ===== src/Python/Sorting.antt =====
-- `sorted(xs, key=...)` and `min(xs, key=...)`, for keys that are tuples of numbers.
use mumu_autotask.Prelude.{
  ℕ, ◌≡◌, refl, sym, ap, inl, inr, Bool, true, false, ◌&&◌, ◌||◌, List, [], ◌∷◌, ltb, ◌==◌,
  if◌then◌else◌, arith, Bool-cases, All,
}
use mathlib.Core.Path.{subst}
use mathlib.Core.List.{Memᴰ}
use mathlib.Core.List.Memᴰ.{head, tail}

-- `a < b` of tuples, which compare their first difference.
unfoldable pub tuple_lt : List ℕ → List ℕ → Bool
tuple_lt [] [] = false
tuple_lt [] (y ∷ ys) = true
tuple_lt (x ∷ xs) [] = false
tuple_lt (x ∷ xs) (y ∷ ys) = ltb x y || ((x == y) && tuple_lt xs ys)

pub tuple_lt_irrefl : (k : List ℕ) → tuple_lt k k ≡ false
unfolding tuple_lt
tuple_lt_irrefl [] = refl
tuple_lt_irrefl (x ∷ k) = ground (arith, tuple_lt_irrefl k)

tuple_lt_asymm : (j k : List ℕ) → tuple_lt j k ≡ true → tuple_lt k j ≡ false
unfolding tuple_lt
tuple_lt_asymm [] [] h = refl
tuple_lt_asymm [] (y ∷ k) h = refl
tuple_lt_asymm (x ∷ j) [] h = cc
tuple_lt_asymm (x ∷ j) (y ∷ k) h = ground (arith, tuple_lt_asymm j k)

-- Not less is transitive.
pub tuple_le_trans :
    (i j k : List ℕ) → tuple_lt j i ≡ false → tuple_lt k j ≡ false → tuple_lt k i ≡ false
unfolding tuple_lt
tuple_le_trans [] [] [] h g = refl
tuple_le_trans [] [] (z ∷ k) h g = refl
tuple_le_trans [] (y ∷ j) [] h g = cc
tuple_le_trans [] (y ∷ j) (z ∷ k) h g = refl
tuple_le_trans (x ∷ i) [] k h g = cc
tuple_le_trans (x ∷ i) (y ∷ j) [] h g = cc
tuple_le_trans (x ∷ i) (y ∷ j) (z ∷ k) h g = ground (arith, tuple_le_trans i j k)

module _ {ℓ} {A : Type ℓ} (key : A → List ℕ) where
  insert : A → List A → List A
  insert x [] = x ∷ []
  insert x (y ∷ ys) =
      let rest = insert x ys in if tuple_lt (key y) (key x) then y ∷ rest else x ∷ y ∷ ys

  -- `sorted(xs, key=key)`: the stable order.
  unfoldable pub sorted : List A → List A
  unfolding insert
  sorted [] = []
  sorted (x ∷ xs) = insert x (sorted xs)

  -- Each element stands before the next in the order, or has the same key.
  abbrev pub IsSorted : List A → Type 0
  IsSorted [] = Unit
  IsSorted (x ∷ []) = Unit
  IsSorted (x ∷ y ∷ ys) = (tuple_lt (key y) (key x) ≡ false) × IsSorted (y ∷ ys)

  insert-IsSorted : (x : A) (xs : List A) → IsSorted xs → IsSorted (insert x xs)
  unfolding insert
  insert-IsSorted x [] h = tt
  insert-IsSorted x (y ∷ []) h = ground (arith, tuple_lt_asymm (key y) (key x))
  insert-IsSorted x (y ∷ z ∷ ys) h =
      ground (arith, tuple_lt_asymm (key y) (key x), insert-IsSorted x (z ∷ ys) h.1)

  pub sorted-IsSorted : (xs : List A) → IsSorted (sorted xs)
  unfolding sorted
  sorted-IsSorted [] = tt
  sorted-IsSorted (x ∷ xs) = insert-IsSorted x (sorted xs) (sorted-IsSorted xs)

  -- A sorted list is left as it is.
  pub sorted_of_IsSorted : (xs : List A) → IsSorted xs → sorted xs ≡ xs
  unfolding sorted
  sorted_of_IsSorted [] h = refl
  sorted_of_IsSorted (x ∷ []) h = refl
  sorted_of_IsSorted (x ∷ y ∷ ys) h = rw (sorted_of_IsSorted (y ∷ ys) h.1, h.0)

  min_from : A → List A → A
  min_from best [] = best
  min_from best (x ∷ xs) = min_from (if tuple_lt (key x) (key best) then x else best) xs

  -- `min(x ∷ xs, key=key)`: the first of the least elements.
  unfoldable pub min_by : A → List A → A
  unfolding min_from
  min_by = min_from

  -- No element of the list has a lesser key.
  abbrev pub IsLeast : A → List A → Type 0
  IsLeast a xs = All (λ x. tuple_lt (key x) (key a) ≡ false) xs

  -- `m` is no greater than `best` and the elements of `xs`.
  abbrev Bounds : A → List A → A → Type 0
  Bounds best xs m = (tuple_lt (key best) (key m) ≡ false) × IsLeast m xs

  min_from-IsLeast : (best : A) (xs : List A) → Bounds best xs (min_from best xs)
  unfolding min_from
  min_from-IsLeast best [] = (tuple_lt_irrefl (key best), tt)
  min_from-IsLeast best (x ∷ xs) =
      let step = λ (b : Bool). min_from (if b then x else best) xs in
      elim (Bool-cases (tuple_lt (key x) (key best))) [
        | inl less ↦
            let (h, least) = min_from-IsLeast x xs in
            let k = tuple_lt_asymm (key x) (key best) less in
            subst (Bounds best (x ∷ xs)) (sym (ap step less))
              (tuple_le_trans _ (key x) _ h k, (h, least))
        | inr not_less ↦
            let (h, least) = min_from-IsLeast best xs in
            subst (Bounds best (x ∷ xs)) (sym (ap step not_less))
              (h, (tuple_le_trans _ (key best) _ h not_less, least))
      ]

  pub min_by-IsLeast : (x : A) (xs : List A) → IsLeast (min_by x xs) (x ∷ xs)
  unfolding min_by
  min_by-IsLeast = min_from-IsLeast

  min_from-mem : (best : A) (xs : List A) → Memᴰ (min_from best xs) (best ∷ xs)
  unfolding min_from
  min_from-mem best [] = head refl
  min_from-mem best (x ∷ xs) = elim (Bool-cases (tuple_lt (key x) (key best))) [
    | inl less ↦ rw less (tail (min_from-mem x xs))
    | inr not_less ↦ rw not_less (skip (min_from-mem best xs))
  ]
    where
      skip : {a : A} → Memᴰ a (best ∷ xs) → Memᴰ a (best ∷ x ∷ xs)
      skip (head e) = head e
      skip (tail m) = tail (tail m)

  pub min_by-mem : (x : A) (xs : List A) → Memᴰ (min_by x xs) (x ∷ xs)
  unfolding min_by
  min_by-mem = min_from-mem
