-- ===== src/Business/Tables.antt =====
-- business.py: the tables of qualities and battle categories, and their normal forms.
pub mod Canonical
use mumu_autotask.Prelude.{
  ℕ, Bool, true, false, not, List, [], ◌∷◌, Option, none, some, ◌==◌, if◌then◌else◌, Result, ok,
  ◌>>=◌, ◌>>◌, fail, raise_if,
}
use mumu_autotask.Python.Value.{Text, Value, str}
use mumu_autotask.Python.Text.{lit, same}
use mumu_autotask.Python.Unicode.{strip, lower}

-- `table.get(key)`, of a dictionary literal
unfoldable pub lookup {ℓ} : {V : Type ℓ} → Text → List (Text × V) → Option V
lookup key [] = none
lookup key ((k, v) ∷ table) = let rest = lookup key table in if same key k then some v else rest

-- `table.get(key, default)`
abbrev pub lookup_or {ℓ} : {V : Type ℓ} → Text → List (Text × V) → V → V
lookup_or key table default = elim (lookup key table) [ none ↦ default | some v ↦ v ]

-- `key in table`
abbrev pub has_key {ℓ} : {V : Type ℓ} → Text → List (Text × V) → Bool
has_key key table = elim (lookup key table) [ none ↦ false | some v ↦ true ]

-- `table[key] == number`, for a key of the table
abbrev pub maps_to : Text → List (Text × ℕ) → ℕ → Bool
maps_to key table number = elim (lookup key table) [ none ↦ false | some v ↦ v == number ]

abbrev pub quality_ids : List (Text × ℕ)
quality_ids = (lit "green", 2) ∷ (lit "blue", 3) ∷ (lit "purple", 4) ∷ (lit "yellow", 5) ∷ []

abbrev pub quality_aliases : List (Text × Text)
quality_aliases =
    (lit "orange", lit "yellow")
    ∷ (lit "绿色", lit "green")
    ∷ (lit "蓝色", lit "blue")
    ∷ (lit "紫色", lit "purple")
    ∷ (lit "黄色", lit "yellow")
    ∷ (lit "橙色", lit "yellow")
    ∷ []

abbrev pub battle_category_types : List (Text × ℕ)
battle_category_types = (lit "rescue", 2) ∷ (lit "hero", 3) ∷ []

abbrev pub battle_category_aliases : List (Text × Text)
battle_category_aliases =
    (lit "营救幸存者", lit "rescue")
    ∷ (lit "营救", lit "rescue")
    ∷ (lit "rescue_survivors", lit "rescue")
    ∷ (lit "survivors", lit "rescue")
    ∷ (lit "英雄之旅", lit "hero")
    ∷ (lit "英雄", lit "hero")
    ∷ (lit "hero_journey", lit "hero")
    ∷ (lit "rpg_stage", lit "hero")
    ∷ []

unfoldable pub normalize_quality : Value → Result Text
normalize_quality (str value) = do
  let key = lower (strip value)
  let quality = lookup_or key quality_aliases key
  raise_if (not (has_key quality quality_ids)) "quality must be one of: {allowed}"
  ok quality
normalize_quality _ = fail "quality must be text"

unfoldable pub normalize_battle_category : Value → Result Text
normalize_battle_category (str value) = do
  let key = lower (strip value)
  let category = lookup_or key battle_category_aliases key
  raise_if (not (has_key category battle_category_types))
      "intelligence category must be one of: {allowed}"
  ok category
normalize_battle_category _ = fail "intelligence category must be text"
