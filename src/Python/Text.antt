-- ===== src/Python/Text.antt =====
-- Tests on texts, literals, `split` and `join`.
pub mod Parts
use Prim.Native.Char.{code}
use Prim.Native.String
use mumu_autotask.Prelude.{
  ℕ, ◌≡◌, ◌≢◌, refl, ap, ◌∙◌, String, Bool, true, false, not, ◌&&◌, ◌||◌, List, [], ◌∷◌, ◌++◌,
  arith, ◌==◌, ==_iff, &&-iff, if◌then◌else◌, Bool-cases, All, inl, inr, append-nil,
}
use mumu_autotask.Python.Value.{Text}

-- A quoted literal, as the list of its code points.
unfoldable pub lit : String → Text
lit String.[] = []
lit (String.◌∷◌ c s) = code c ∷ lit s

unfoldable pub same : Text → Text → Bool
same [] [] = true
same [] (y ∷ ys) = false
same (x ∷ xs) [] = false
same (x ∷ xs) (y ∷ ys) = (x == y) && same xs ys

pub same→eq : (s t : Text) → same s t ≡ true → s ≡ t
unfolding same
same→eq [] [] h = refl
same→eq [] (y ∷ ys) h = cc
same→eq (x ∷ xs) [] h = cc
same→eq (x ∷ xs) (y ∷ ys) h = ground (arith, same→eq xs ys)

pub same_refl : (s : Text) → same s s ≡ true
unfolding same
same_refl [] = refl
same_refl (x ∷ xs) = ground (arith, same_refl xs)

pub same_ne : (s t : Text) → s ≢ t → same s t ≡ false
same_ne s t h = elim (Bool-cases (same s t)) [ inl e ↦ absurd (h (same→eq s t e)) | inr e ↦ e ]

-- Equality of lists of texts.
unfoldable pub same_fields : List Text → List Text → Bool
same_fields [] [] = true
same_fields [] (y ∷ ys) = false
same_fields (x ∷ xs) [] = false
same_fields (x ∷ xs) (y ∷ ys) = same x y && same_fields xs ys

pub same_fields→eq : (s t : List Text) → same_fields s t ≡ true → s ≡ t
unfolding same_fields
same_fields→eq [] [] h = refl
same_fields→eq [] (y ∷ ys) h = cc
same_fields→eq (x ∷ xs) [] h = cc
same_fields→eq (x ∷ xs) (y ∷ ys) h = ground (arith, same→eq x y, same_fields→eq xs ys)

pub same_fields_refl : (s : List Text) → same_fields s s ≡ true
unfolding same_fields
same_fields_refl [] = refl
same_fields_refl (x ∷ xs) = ground (arith, same_refl x, same_fields_refl xs)

-- `text in texts`, of a set of literals
unfoldable pub member : Text → List Text → Bool
member a [] = false
member a (x ∷ xs) = same a x || member a xs

-- `any(code point in text satisfies p)` and `all`
unfoldable pub any : (ℕ → Bool) → Text → Bool
any p [] = false
any p (c ∷ s) = p c || any p s

-- `number in text`
abbrev pub contains : ℕ → Text → Bool
contains a = any (λ c. a == c)

pub push : ℕ → List Text → List Text
push c [] = (c ∷ []) ∷ []
push c (p ∷ ps) = (c ∷ p) ∷ ps

-- `text.split(separator)`, for a separator of one character
unfoldable pub split : ℕ → Text → List Text
unfolding push
split sep [] = [] ∷ []
split sep (c ∷ s) = let rest = split sep s in if c == sep then [] ∷ rest else push c rest

-- `separator.join(parts)`
unfoldable pub join : ℕ → List Text → Text
join sep [] = []
join sep (p ∷ []) = p
join sep (p ∷ q ∷ ps) = p ++ (sep ∷ join sep (q ∷ ps))

abbrev pub Lacks : ℕ → Text → Type 0
Lacks b = All (λ c. c ≢ b)

pub split-ne-nil : (sep : ℕ) (s : Text) → split sep s ≢ []
unfolding split
split-ne-nil sep [] = ground arith
split-ne-nil sep (c ∷ s) = ground (arith, split-ne-nil sep s)

split-lacking : (sep : ℕ) (p s : Text) → Lacks sep p → split sep (p ++ (sep ∷ s)) ≡ p ∷ split sep s
unfolding split
split-lacking sep [] s h = ground arith
split-lacking sep (c ∷ p) s (hc, hp) = ground (arith, split-lacking sep p s hp)

split-single : (sep : ℕ) (p : Text) → Lacks sep p → split sep p ≡ p ∷ []
unfolding split
split-single sep [] h = refl
split-single sep (c ∷ p) (hc, hp) = ground (arith, split-single sep p hp)

pub split-join :
    (sep : ℕ) (p : Text) (ps : List Text)
    → All (Lacks sep) (p ∷ ps)
    → split sep (join sep (p ∷ ps)) ≡ p ∷ ps
unfolding join
split-join sep p [] h = split-single sep p h.0
split-join sep p (q ∷ ps) h =
    rw (split-lacking sep p (join sep (q ∷ ps)) h.0) (ap (λ t. p ∷ t) (split-join sep q ps h.1))

push-join : (sep c : ℕ) (ps : List Text) → ps ≢ [] → join sep (push c ps) ≡ c ∷ join sep ps
unfolding join push
push-join sep c [] h = absurd (h refl)
push-join sep c (p ∷ []) h = refl
push-join sep c (p ∷ q ∷ ps) h = refl

nil-join : (sep : ℕ) (ps : List Text) → ps ≢ [] → join sep ([] ∷ ps) ≡ sep ∷ join sep ps
unfolding join
nil-join sep [] h = absurd (h refl)
nil-join sep (p ∷ ps) h = refl

join-split_step :
    (sep c : ℕ) (s : Text) → join sep (split sep s) ≡ s → join sep (split sep (c ∷ s)) ≡ c ∷ s
unfolding split
join-split_step sep c s ih =
    let rest = split sep s in
    let ne = split-ne-nil sep s in
    elim (Bool-cases (c == sep)) [
      | inl e ↦ rw e (nil-join sep rest ne ∙ cc ((==_iff c sep).0 e, ih))
      | inr e ↦ rw e (push-join sep c rest ne ∙ ap (λ t. c ∷ t) ih)
    ]

pub join-split : (sep : ℕ) (s : Text) → join sep (split sep s) ≡ s
join-split sep [] = unfold join split in refl
join-split sep (c ∷ s) = join-split_step sep c s (join-split sep s)
