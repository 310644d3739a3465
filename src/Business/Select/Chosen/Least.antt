-- ===== src/Business/Select/Chosen/Least.antt =====
-- Filtering, and the least of what is left.
use mathlib.Core.List.{Memᴰ}
use mathlib.Core.List.Memᴰ.{head, tail}
use mumu_autotask.Prelude.{
  ℕ, ◌≡◌, ◌≢◌, ◌⊎◌, ◌↔◌, ◌∙◌, inl, inr, refl, sym, ap, Bool, true, false, List, [], ◌∷◌, map, ◌==◌,
  String, Result, ok, fail, arith, All, Bool-cases, ==_iff,
}
use mumu_autotask.Python.Sorting.{tuple_lt, min_by, min_by-IsLeast, min_by-mem}
use mumu_autotask.Python.Collect.{Distinct}
use mumu_autotask.Business.Select.{keep_if, first_least, first_of_exact}

module _ {ℓ} {A : Type ℓ} (p : A → Bool) where
  in_head :
      (a x : A) (xs : List A)
      → p x ≡ true
      → (Memᴰ a (keep_if p xs) → Memᴰ a xs × (p a ≡ true))
      → Memᴰ a (x ∷ keep_if p xs)
      → Memᴰ a (x ∷ xs) × (p a ≡ true)
  in_head a x xs e ih (head q) = (head q, rw q e)
  in_head a x xs e ih (tail m) = let (m', h) = ih m in (tail m', h)

  in_cons :
      (a x : A) (xs : List A)
      → (Memᴰ a (keep_if p xs) → Memᴰ a xs × (p a ≡ true))
      → Memᴰ a (keep_if p (x ∷ xs))
      → Memᴰ a (x ∷ xs) × (p a ≡ true)
  unfolding keep_if
  in_cons a x xs ih m = elim (Bool-cases (p x)) [
    | inl e ↦ in_head a x xs e ih (rw e at m)
    | inr e ↦ let (m', h) = ih (rw e at m) in (tail m', h)
  ]

  keep_if-mem : (a : A) (xs : List A) → Memᴰ a (keep_if p xs) → Memᴰ a xs × (p a ≡ true)
  unfolding keep_if
  keep_if-mem a [] m = elim m [ ]
  keep_if-mem a (x ∷ xs) m = in_cons a x xs (keep_if-mem a xs) m

  mem-keep_if : (a : A) (xs : List A) → Memᴰ a xs → p a ≡ true → Memᴰ a (keep_if p xs)
  unfolding keep_if
  mem-keep_if a [] m h = elim m [ ]
  mem-keep_if a (x ∷ xs) (head q) h = let e : p x ≡ true = rw q at h in rw e (head q)
  mem-keep_if a (x ∷ xs) (tail m) h = elim (Bool-cases (p x)) [
    | inl e ↦ rw e (tail (mem-keep_if a xs m h))
    | inr e ↦ rw e (mem-keep_if a xs m h)
  ]

  -- A predicate of what is kept is a predicate of what passes.
  All-keep_if {κ} :
      (Q : A → Type κ) (xs : List A) → All Q (keep_if p xs) → All (λ x. p x ≡ true → Q x) xs
  unfolding keep_if
  All-keep_if Q [] h = tt
  All-keep_if Q (x ∷ xs) h = elim (Bool-cases (p x)) [
    | inl e ↦ let (q, k) = rw e at h in ((λ _. q), All-keep_if Q xs k)
    | inr e ↦ ((λ e'. cc (e, e')), All-keep_if Q xs (rw e at h))
  ]

  keep_if-nil : (xs : List A) → keep_if p xs ≡ [] → All (λ x. p x ≡ false) xs
  unfolding keep_if
  keep_if-nil [] h = tt
  keep_if-nil (x ∷ xs) h = elim (Bool-cases (p x)) [
    | inl e ↦ cc (rw e at h)
    | inr e ↦ (e, keep_if-nil xs (rw e at h))
  ]

module _ {ℓ} {A : Type ℓ} (p : A → Bool) (key : A → List ℕ) (message : String) (xs : List A) where
  -- The least element that passes, or the failure where none does.
  abbrev pub Picked : Result A → Type ℓ
  Picked r =
      ((a : A) × (r ≡ ok a)
        × Memᴰ a xs
        × (p a ≡ true)
        × All (λ x. p x ≡ true → tuple_lt (key x) (key a) ≡ false) xs)
      ⊎ ((r ≡ fail message) × All (λ x. p x ≡ false) xs)

  Picked-of : (kept : List A) → keep_if p xs ≡ kept → Picked (first_least key message kept)
  unfolding first_least
  Picked-of [] e = inr (refl, keep_if-nil p xs e)
  Picked-of (k ∷ ks) e =
      let (mem, passes) = keep_if-mem p (min_by key k ks) xs (rw e (min_by-mem key k ks)) in
      inl (min_by key k ks, refl, mem, passes, All-keep_if p _ xs (rw e (min_by-IsLeast key k ks)))

  pub picked : Picked (first_least key message (keep_if p xs))
  picked = Picked-of (keep_if p xs) refl

module _ {ℓ} {A : Type ℓ} (ident : A → ℕ) (n : ℕ) where
  differs :
      (x : A) (xs : List A) (a : A)
      → All (λ m. ident x ≢ m) (map ident xs)
      → Memᴰ a xs
      → ident x ≢ ident a
  differs x [] a h m = elim m [ ]
  differs x (y ∷ ys) a (ne, h) (head r) = λ q. ne (q ∙ ap ident r)
  differs x (y ∷ ys) a (ne, h) (tail m) = differs x ys a h m

  first_exact :
      (message : String) (xs : List A) (a : A)
      → Distinct (map ident xs)
      → Memᴰ a xs
      → ident a ≡ n
      → first_of_exact message (keep_if (λ x. ident x == n) xs) ≡ ok a
  unfolding first_of_exact keep_if
  first_exact message [] a d m e = elim m [ ]
  first_exact message (x ∷ xs) a (ne, d) (head r) e =
      let here : (ident x == n) ≡ true = rw r at ((==_iff (ident a) n).1 e) in
      rw here (ap ok (sym r))
  first_exact message (x ∷ xs) a (ne, d) (tail m) e =
      let apart = differs x xs a ne m in
      let skipped : (ident x == n) ≡ false = ground arith in
      rw skipped (first_exact message xs a d m e)

  exact_first :
      (message : String) (kept : List A) (a : A) → first_of_exact message kept ≡ ok a → Memᴰ a kept
  unfolding first_of_exact
  exact_first message [] a h = cc h
  exact_first message (k ∷ ks) a h = head (cc h)

  -- Where the idents differ, the first element with an ident is the only one.
  pub exact_unique :
      (message : String) (xs : List A) (a : A)
      → Distinct (map ident xs)
      → (first_of_exact message (keep_if (λ x. ident x == n) xs) ≡ ok a)
        ↔ (Memᴰ a xs × (ident a ≡ n))
  exact_unique message xs a d = (
    λ h.
        let (m, e) = keep_if-mem (λ x. ident x == n) a xs (exact_first message _ a h) in
        (m, (==_iff (ident a) n).0 e),
    λ (m, e). first_exact message xs a d m e,
  )
