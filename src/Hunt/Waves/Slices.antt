-- ===== src/Hunt/Waves/Slices.antt =====
-- Slices of a list one after another.
use mumu_autotask.Prelude.{
  ℕ, zero, suc, ◌+◌, ◌≤◌, ◌<◌, ◌≡◌, refl, sym, ap, ◌∙◌, inl, inr, List, [], ◌∷◌, ◌++◌, map, ltb,
  length, drop, arith, Bool-cases,
}
use mumu_autotask.Hunt.Waves.{take, range_from}

-- The waves in their order, as one queue.
abbrev pub concat {ℓ} : {A : Type ℓ} → List (List A) → List A
concat [] = []
concat (xs ∷ rest) = xs ++ concat rest

module _ {ℓ} {A : Type ℓ} where
  pub take-drop : (n : ℕ) (xs : List A) → take n xs ++ drop n xs ≡ xs
  take-drop zero xs = refl
  take-drop (suc n) [] = refl
  take-drop (suc n) (x ∷ xs) = ap (λ ys. x ∷ ys) (take-drop n xs)

  pub drop-nil : (n : ℕ) → ◌≡◌ {A = List A} (drop n []) []
  drop-nil zero = refl
  drop-nil (suc n) = refl

  pub drop-drop : (m n : ℕ) (xs : List A) → drop m (drop n xs) ≡ drop (n + m) xs
  drop-drop m zero xs = let e : m ≡ 0 + m = omega arith in ap (λ k. drop k xs) e
  drop-drop m (suc n) [] = drop-nil m ∙ sym (drop-nil (suc n + m))
  drop-drop m (suc n) (x ∷ xs) =
      let e : suc (n + m) ≡ suc n + m = omega arith in
      drop-drop m n xs ∙ ap (λ k. drop k (x ∷ xs)) e

  pub length-take : (n : ℕ) (xs : List A) → length (take n xs) ≤ n
  length-take zero xs = omega arith
  length-take (suc n) [] = omega arith
  length-take (suc n) (x ∷ xs) = omega (arith, length-take n xs)

  pub drop-all : (n : ℕ) (xs : List A) → length xs ≤ n → drop n xs ≡ []
  drop-all zero [] h = refl
  drop-all zero (x ∷ xs) h = absurd (omega (arith, h))
  drop-all (suc n) [] h = refl
  drop-all (suc n) (x ∷ xs) h = drop-all n xs (omega (arith, h))

  pub take_ne : (n i : ℕ) (xs : List A) → 1 ≤ n → i < length xs → 1 ≤ length (take n (drop i xs))
  take_ne zero i xs h k = absurd (omega (arith, h))
  take_ne (suc n) i [] h k = absurd (omega (arith, k))
  take_ne (suc n) zero (x ∷ xs) h k = omega arith
  take_ne (suc n) (suc i) (x ∷ xs) h k = take_ne (suc n) i xs h (omega (arith, k))

  -- The slices from one index on are what stands there.
  pub slices :
      (fuel i step : ℕ) (xs : List A)
      → 1 ≤ step
      → length xs ≤ i + fuel
      → concat (map (λ j. take step (drop j xs)) (range_from fuel i (length xs) step)) ≡ drop i xs
  unfolding range_from
  slices zero i step xs h k = sym (drop-all i xs (omega (arith, k)))
  slices (suc fuel) i step xs h k = elim (Bool-cases (ltb i (length xs))) [
    | inl e ↦
        rw (e, slices fuel (i + step) step xs h (omega (arith, k, h)), sym (drop-drop step i xs))
          (take-drop step (drop i xs))
    | inr e ↦ rw e (sym (drop-all i xs (ground arith)))
  ]
