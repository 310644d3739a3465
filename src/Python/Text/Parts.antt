-- ===== src/Python/Text/Parts.antt =====
-- What the parts of a split and a join are made of.
use mumu_autotask.Prelude.{
  ℕ, ◌≡◌, ◌≢◌, refl, false, List, [], ◌∷◌, ◌++◌, arith, ◌==◌, Bool-cases, inl, inr, All, All-append,
  get_last_or,
}
use mumu_autotask.Python.Value.{Text}
use mumu_autotask.Python.Text.{any, push, split, join, Lacks}

module _ (P : ℕ → Type 0) where
  push-All :
      (sep : ℕ) (c : ℕ) (s : Text)
      → P c
      → All (All P) (split sep s)
      → All (All P) (split sep (c ∷ s))
  unfolding split
  push-All sep c s p h = elim (Bool-cases (c == sep)) [
    | inl e ↦ rw e (tt, h)
    | inr e ↦ rw e (onto (split sep s) h)
  ]
    where
      onto : (ps : List Text) → All (All P) ps → All (All P) (push c ps)
      onto [] k = ((p, tt), tt)
      onto (q ∷ ps) (k, ks) = ((p, k), ks)

  -- What every character of a text is, every character of its parts is.
  pub split-All : (sep : ℕ) (s : Text) → All P s → All (All P) (split sep s)
  split-All sep [] h = unfold split in (tt, tt)
  split-All sep (c ∷ s) (p, h) = push-All sep c s p (split-All sep s h)

  pub join-All : (sep : ℕ) (ps : List Text) → P sep → All (All P) ps → All P (join sep ps)
  unfolding join
  join-All sep [] p h = tt
  join-All sep (q ∷ []) p h = h.0
  join-All sep (q ∷ r ∷ ps) p (h, hs) =
      All-append P q (sep ∷ join sep (r ∷ ps)) h (p, join-All sep (r ∷ ps) p hs)

split-Lacks_step :
    (sep c : ℕ) (s : Text) → All (Lacks sep) (split sep s) → All (Lacks sep) (split sep (c ∷ s))
unfolding split
split-Lacks_step sep c s h = elim (Bool-cases (c == sep)) [
  | inl e ↦ rw e (tt, h)
  | inr e ↦ rw e (onto (ground arith) (split sep s) h)
]
  where
    onto : c ≢ sep → (ps : List Text) → All (Lacks sep) ps → All (Lacks sep) (push c ps)
    onto ne [] k = ((ne, tt), tt)
    onto ne (q ∷ ps) (k, ks) = ((ne, k), ks)

-- No part of a split holds the separator.
pub split-Lacks : (sep : ℕ) (s : Text) → All (Lacks sep) (split sep s)
split-Lacks sep [] = unfold split in (tt, tt)
split-Lacks sep (c ∷ s) = split-Lacks_step sep c s (split-Lacks sep s)

-- A text that lacks a character does not end with it.
pub get_last_or-Lacks : (b : ℕ) (s : Text) (d : ℕ) → s ≢ [] → Lacks b s → get_last_or s d ≢ b
get_last_or-Lacks b [] d h k = absurd (h refl)
get_last_or-Lacks b (c ∷ []) d h k = k.0
get_last_or-Lacks b (c ∷ e ∷ s) d h (_, k) = get_last_or-Lacks b (e ∷ s) c (λ p. cc p) k

get_last_or-append :
    (s : Text) (b : ℕ) (t : Text) (d : ℕ) → get_last_or (s ++ (b ∷ t)) d ≡ get_last_or t b
get_last_or-append [] b t d = refl
get_last_or-append (c ∷ s) b t d = get_last_or-append s b t c

-- A join of parts that are not empty and lack the separator does not end with it.
pub get_last_or-join :
    (sep : ℕ) (p : Text) (ps : List Text) (d : ℕ)
    → All (λ q. (q ≢ []) × Lacks sep q) (p ∷ ps)
    → get_last_or (join sep (p ∷ ps)) d ≢ sep
unfolding join
get_last_or-join sep p [] d h = get_last_or-Lacks sep p d h.0.0 h.0.1
get_last_or-join sep p (q ∷ ps) d (_, h) =
    rw (get_last_or-append p sep (join sep (q ∷ ps)) d) (get_last_or-join sep q ps sep h)

pub any-Lacks : (b : ℕ) (s : Text) → any (λ c. b == c) s ≡ false → Lacks b s
unfolding any
any-Lacks b [] h = tt
any-Lacks b (c ∷ s) h = (ground arith, any-Lacks b s (ground arith))

pub Lacks-any : (b : ℕ) (s : Text) → Lacks b s → any (λ c. b == c) s ≡ false
unfolding any
Lacks-any b [] h = refl
Lacks-any b (c ∷ s) (n, h) = ground (arith, Lacks-any b s h)
