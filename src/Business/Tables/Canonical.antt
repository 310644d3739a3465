-- ===== src/Business/Tables/Canonical.antt =====
-- What the normal forms of qualities and categories are.
use mumu_autotask.Prelude.{
  ℕ, ◌≡◌, ◌⊎◌, inl, inr, true, not, List, some, arith, ok, not-false, raise_if-eq-ok,
}
use mumu_autotask.Python.Value.{Text, Value, str}
use mumu_autotask.Python.Text.{lit, same, same→eq}
use mumu_autotask.Python.Unicode.{strip, lower}
use mumu_autotask.Business.Tables.{
  lookup, lookup_or, has_key, quality_ids, quality_aliases, battle_category_types,
  battle_category_aliases, normalize_quality, normalize_battle_category,
}

-- The names of the qualities with the numbers of the game.
abbrev pub IsQuality : Text → ℕ → Type 0
IsQuality q n =
    ((q ≡ lit "green") × (n ≡ 2))
    ⊎ ((q ≡ lit "blue") × (n ≡ 3))
    ⊎ ((q ≡ lit "purple") × (n ≡ 4))
    ⊎ ((q ≡ lit "yellow") × (n ≡ 5))

-- The names of the battle categories with the numbers of the game.
abbrev pub IsCategory : Text → ℕ → Type 0
IsCategory c n = ((c ≡ lit "rescue") × (n ≡ 2)) ⊎ ((c ≡ lit "hero") × (n ≡ 3))

pub IsQuality-lookup : (q : Text) (n : ℕ) → lookup q quality_ids ≡ some n → IsQuality q n
unfolding lookup
IsQuality-lookup q n h = ground (
  arith,
  same→eq q (lit "green"),
  same→eq q (lit "blue"),
  same→eq q (lit "purple"),
  same→eq q (lit "yellow"),
)

pub IsCategory-lookup :
    (c : Text) (n : ℕ) → lookup c battle_category_types ≡ some n → IsCategory c n
unfolding lookup
IsCategory-lookup c n h = ground (arith, same→eq c (lit "rescue"), same→eq c (lit "hero"))

pub lookup-quality : (q : Text) (n : ℕ) → IsQuality q n → lookup q quality_ids ≡ some n
unfolding lookup lit same
lookup-quality q n (inl (e, k)) = rw (e, k)
lookup-quality q n (inr (inl (e, k))) = rw (e, k)
lookup-quality q n (inr (inr (inl (e, k)))) = rw (e, k)
lookup-quality q n (inr (inr (inr (e, k)))) = rw (e, k)

pub lookup-category : (c : Text) (n : ℕ) → IsCategory c n → lookup c battle_category_types ≡ some n
unfolding lookup lit same
lookup-category c n (inl (e, k)) = rw (e, k)
lookup-category c n (inr (e, k)) = rw (e, k)

-- A canonical name is its own normal form.
pub normalize_quality-name : (q : Text) (n : ℕ) → IsQuality q n → normalize_quality (str q) ≡ ok q
unfolding normalize_quality lookup lit same strip lower
normalize_quality-name q n (inl (e, k)) = rw e
normalize_quality-name q n (inr (inl (e, k))) = rw e
normalize_quality-name q n (inr (inr (inl (e, k)))) = rw e
normalize_quality-name q n (inr (inr (inr (e, k)))) = rw e

pub normalize_category-name :
    (c : Text) (n : ℕ) → IsCategory c n → normalize_battle_category (str c) ≡ ok c
unfolding normalize_battle_category lookup lit same strip lower
normalize_category-name c n (inl (e, k)) = rw e
normalize_category-name c n (inr (e, k)) = rw e

has_key-lookup {ℓ} :
    {V : Type ℓ} (key : Text) (table : List (Text × V))
    → has_key key table ≡ true
    → (v : V) × (lookup key table ≡ some v)
has_key-lookup key table h = ground arith

quality_known : (v : Value) (q : Text) → normalize_quality v ≡ ok q → has_key q quality_ids ≡ true
unfolding normalize_quality
quality_known (str s) q h =
    let key = lower (strip s) in
    let quality = lookup_or key quality_aliases key in
    let (known, h') = raise_if-eq-ok (not (has_key quality quality_ids)) _ _ h in
    let e : quality ≡ q = cc h' in rw e at (not-false known)
quality_known _ q h = cc

category_known :
    (v : Value) (c : Text)
    → normalize_battle_category v ≡ ok c
    → has_key c battle_category_types ≡ true
unfolding normalize_battle_category
category_known (str s) c h =
    let key = lower (strip s) in
    let category = lookup_or key battle_category_aliases key in
    let (known, h') = raise_if-eq-ok (not (has_key category battle_category_types)) _ _ h in
    let e : category ≡ c = cc h' in rw e at (not-false known)
category_known _ c h = cc

-- Whatever `normalize_quality` returns is the canonical name of a quality, which is its own normal
-- form.
pub normalize_quality_idem :
    (v : Value) (q : Text)
    → normalize_quality v ≡ ok q
    → ((n : ℕ) × IsQuality q n) × (normalize_quality (str q) ≡ ok q)
normalize_quality_idem v q h =
    let (n, found) = has_key-lookup q quality_ids (quality_known v q h) in
    let is_quality = IsQuality-lookup q n found in
    ((n, is_quality), normalize_quality-name q n is_quality)

-- Whatever `normalize_battle_category` returns is the canonical name of a category, which is its own
-- normal form.
pub normalize_battle_category_idem :
    (v : Value) (c : Text)
    → normalize_battle_category v ≡ ok c
    → ((n : ℕ) × IsCategory c n) × (normalize_battle_category (str c) ≡ ok c)
normalize_battle_category_idem v c h =
    let (n, found) = has_key-lookup c battle_category_types (category_known v c h) in
    let is_category = IsCategory-lookup c n found in
    ((n, is_category), normalize_category-name c n is_category)
