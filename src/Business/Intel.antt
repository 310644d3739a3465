-- ===== src/Business/Intel.antt =====
-- business.py: the answer of the INTEL script, and the items that it lists.
pub mod Items
pub mod Sound
pub mod Render
pub mod RoundTrip
pub mod Accepted
use mumu_autotask.Prelude.{
  ℕ, Bool, true, false, not, ◌&&◌, ◌||◌, List, [], ◌∷◌, map, Option, none, some, ltb, ◌==◌, length,
  drop, init, if◌then◌else◌, Result, ok, ◌>>=◌, ◌>>◌, raise_if, traverse,
}
use mumu_autotask.Python.Value.{Text, Value, Sequence, str}
use mumu_autotask.Python.Text.{same}
use mumu_autotask.Python.Sorting.{sorted}
use mumu_autotask.Python.Collect.{member}
use mumu_autotask.Business.Tables.{quality_ids, maps_to, normalize_quality}
use mumu_autotask.Business.Ids.{same_number}
use mumu_autotask.Business.Wire.{
  Fields, line, ◌‼◌, last_line, has_tag, parse_integer, parse_role, parse_kingdom_line,
  protocol_lines,
}

pub record IntelItem : Type 0 where
  pub runtime_id : ℕ
  pub quest_id : ℕ
  pub status : ℕ
  pub world_x : ℕ
  pub world_y : ℕ
  pub expires_at : ℕ
  pub quality : Text
  pub quality_id : ℕ
  pub monster_id : ℕ
  pub level : ℕ
  pub stamina_cost : ℕ
  pub recommended_power : ℕ

pub record IntelSnapshot : Type 0 where
  pub role : Text
  pub kingdom : ℕ
  pub items : List IntelItem
  pub current_stamina : Option ℕ

unfoldable pub parse_item : Fields → Result IntelItem
parse_item fields = do
  raise_if (not (has_tag fields 13 "ITEM")) "{location} must contain exactly 13 ITEM fields"
  quality ← normalize_quality (str (fields ‼ 7))
  raise_if (not (same quality (fields ‼ 7))) "{location} quality must use its canonical name"
  quality_id ← parse_integer (fields ‼ 8) false
  raise_if (not (maps_to quality quality_ids quality_id)) "{location} quality name/id disagree"
  runtime_id ← parse_integer (fields ‼ 1) false
  quest_id ← parse_integer (fields ‼ 2) false
  status ← parse_integer (fields ‼ 3) true
  world_x ← parse_integer (fields ‼ 4) true
  world_y ← parse_integer (fields ‼ 5) true
  expires_at ← parse_integer (fields ‼ 6) false
  monster_id ← parse_integer (fields ‼ 9) false
  level ← parse_integer (fields ‼ 10) false
  stamina_cost ← parse_integer (fields ‼ 11) false
  recommended_power ← parse_integer (fields ‼ 12) false
  ok (record {
    runtime_id = runtime_id;
    quest_id = quest_id;
    status = status;
    world_x = world_x;
    world_y = world_y;
    expires_at = expires_at;
    quality = quality;
    quality_id = quality_id;
    monster_id = monster_id;
    level = level;
    stamina_cost = stamina_cost;
    recommended_power = recommended_power;
  })

-- `==` of two items, as the dataclass defines it.
unfoldable pub same_item : IntelItem → IntelItem → Bool
same_item a b =
    (a.runtime_id == b.runtime_id)
    && (a.quest_id == b.quest_id)
    && (a.status == b.status)
    && (a.world_x == b.world_x)
    && (a.world_y == b.world_y)
    && (a.expires_at == b.expires_at)
    && same a.quality b.quality
    && (a.quality_id == b.quality_id)
    && (a.monster_id == b.monster_id)
    && (a.level == b.level)
    && (a.stamina_cost == b.stamina_cost)
    && (a.recommended_power == b.recommended_power)

-- `==` of two lists
unfoldable pub same_list {ℓ} : {A : Type ℓ} → (A → A → Bool) → List A → List A → Bool
same_list eqb [] [] = true
same_list eqb [] (y ∷ ys) = false
same_list eqb (x ∷ xs) [] = false
same_list eqb (x ∷ xs) (y ∷ ys) = eqb x y && same_list eqb xs ys

-- `len(xs) != len(set(xs))`: a number stands twice.
unfoldable pub has_duplicate : List ℕ → Bool
has_duplicate [] = false
has_duplicate (x ∷ xs) = member same_number x xs || has_duplicate xs

abbrev pub item_key : IntelItem → List ℕ
item_key item = item.quality_id ∷ item.expires_at ∷ item.runtime_id ∷ []

-- The optional STAMINA line, and the index of the first item line.
unfoldable pub parse_stamina_line : List Fields → Result (Option ℕ × ℕ)
parse_stamina_line lines =
    if ltb 3 (length lines) && has_tag (line lines 3) 2 "STAMINA"
    then (do stamina ← parse_integer (line lines 3 ‼ 1) true; ok (some stamina, 4))
    else ok (none, 3)

-- The items between the identity and the END line.
unfoldable pub parse_items : List Fields → List Fields → Result (List IntelItem)
parse_items lines item_lines = do
  raise_if (not (has_tag (last_line lines) 2 "END")) "INTEL output is missing END"
  count ← parse_integer (last_line lines ‼ 1) true
  raise_if (not (count == length item_lines)) "INTEL END count does not match ITEM lines"
  raise_if (ltb 128 count) "INTEL output contains more than 128 items"
  items ← traverse parse_item item_lines
  raise_if (has_duplicate (map (λ item. item.runtime_id) items))
      "INTEL output contains duplicate runtime ids"
  raise_if (not (same_list same_item items (sorted item_key items)))
      "INTEL items are not in canonical order"
  ok items

unfoldable pub parse_intel_output : Value → Sequence → Result IntelSnapshot
parse_intel_output output allowed_roles = do
  lines ← protocol_lines output "INTEL"
  raise_if (ltb (length lines) 4 || not (has_tag (line lines 1) 2 "ROLE"))
      "INTEL output is missing ROLE"
  role ← parse_role (line lines 1 ‼ 1) allowed_roles
  kingdom ← parse_kingdom_line (line lines 2)
  (current_stamina, item_start) ← parse_stamina_line lines
  items ← parse_items lines (init (drop item_start lines))
  ok (record { role = role; kingdom = kingdom; items = items; current_stamina = current_stamina })
