-- ===== src/Business/Battle.antt =====
-- business.py: the answers of the battle-intelligence scripts.
pub mod Listing
use mumu_autotask.Prelude.{
  ℕ, suc, ◌+◌, Bool, true, false, not, ◌&&◌, ◌||◌, List, [], ◌∷◌, map, Option, none, some, ltb,
  ◌==◌, length, is_empty, drop, init, if◌then◌else◌, Result, ok, ◌>>=◌, ◌>>◌, raise_if, traverse,
}
use mumu_autotask.Python.Value.{Text, Value, Sequence, str}
use mumu_autotask.Python.Text.{lit, same}
use mumu_autotask.Python.Decimal.{str_of}
use mumu_autotask.Python.Sorting.{sorted}
use mumu_autotask.Business.Tables.{
  quality_ids, battle_category_types, maps_to, normalize_quality, normalize_battle_category,
}
use mumu_autotask.Business.Intel.{same_list, has_duplicate}
use mumu_autotask.Business.Wire.{
  Fields, Lines, line, ◌‼◌, last_line, has_tag, is_pair, is_bit, parse_integer, parse_role,
  parse_kingdom_line, protocol_lines,
}

pub record BattleIntelItem : Type 0 where
  pub runtime_id : ℕ
  pub quest_id : ℕ
  pub status : ℕ
  pub world_x : ℕ
  pub world_y : ℕ
  pub expires_at : ℕ
  pub category : Text
  pub quest_type : ℕ
  pub quality : Text
  pub quality_id : ℕ
  pub condition : ℕ
  pub level : ℕ
  pub stamina_cost : ℕ
  pub power_level : ℕ

pub record BattleIntelSnapshot : Type 0 where
  pub role : Text
  pub kingdom : ℕ
  pub items : List BattleIntelItem

unfoldable pub parse_battle_item : Fields → Result BattleIntelItem
parse_battle_item fields = do
  raise_if (not (has_tag fields 15 "ITEM")) "{location} must contain 14 fields"
  category ← normalize_battle_category (str (fields ‼ 7))
  quest_type ← parse_integer (fields ‼ 8) false
  raise_if (not (maps_to category battle_category_types quest_type))
      "{location} category/type disagree"
  quality ← normalize_quality (str (fields ‼ 9))
  raise_if (not (same quality (fields ‼ 9))) "{location} quality must use its canonical name"
  quality_id ← parse_integer (fields ‼ 10) false
  raise_if (not (maps_to quality quality_ids quality_id)) "{location} quality name/id disagree"
  runtime_id ← parse_integer (fields ‼ 1) false
  quest_id ← parse_integer (fields ‼ 2) false
  status ← parse_integer (fields ‼ 3) true
  world_x ← parse_integer (fields ‼ 4) true
  world_y ← parse_integer (fields ‼ 5) true
  expires_at ← parse_integer (fields ‼ 6) false
  condition ← parse_integer (fields ‼ 11) true
  level ← parse_integer (fields ‼ 12) true
  stamina_cost ← parse_integer (fields ‼ 13) true
  power_level ← parse_integer (fields ‼ 14) true
  ok (record {
    runtime_id = runtime_id;
    quest_id = quest_id;
    status = status;
    world_x = world_x;
    world_y = world_y;
    expires_at = expires_at;
    category = category;
    quest_type = quest_type;
    quality = quality;
    quality_id = quality_id;
    condition = condition;
    level = level;
    stamina_cost = stamina_cost;
    power_level = power_level;
  })

unfoldable pub same_battle_item : BattleIntelItem → BattleIntelItem → Bool
same_battle_item a b =
    (a.runtime_id == b.runtime_id)
    && (a.quest_id == b.quest_id)
    && (a.status == b.status)
    && (a.world_x == b.world_x)
    && (a.world_y == b.world_y)
    && (a.expires_at == b.expires_at)
    && same a.category b.category
    && (a.quest_type == b.quest_type)
    && same a.quality b.quality
    && (a.quality_id == b.quality_id)
    && (a.condition == b.condition)
    && (a.level == b.level)
    && (a.stamina_cost == b.stamina_cost)
    && (a.power_level == b.power_level)

abbrev pub battle_item_key : BattleIntelItem → List ℕ
battle_item_key item = item.quest_type ∷ item.quality_id ∷ item.expires_at ∷ item.runtime_id ∷ []

-- `any(item.category != category for item in items)`
unfoldable pub any_other_category : Text → List BattleIntelItem → Bool
any_other_category category [] = false
any_other_category category (item ∷ items) =
    not (same item.category category) || any_other_category category items

unfoldable pub parse_battle_items : Text → Lines → Result (List BattleIntelItem)
parse_battle_items category lines = do
  raise_if (not (has_tag (last_line lines) 2 "END")) "BATTLE_INTEL output is missing END"
  count ← parse_integer (last_line lines ‼ 1) true
  let item_lines = init (drop 3 lines)
  raise_if (not (count == length item_lines)) "BATTLE_INTEL END count does not match ITEM lines"
  raise_if (ltb 128 count) "BATTLE_INTEL output contains more than 128 items"
  items ← traverse parse_battle_item item_lines
  raise_if (any_other_category category items)
      "BATTLE_INTEL output category does not match the request"
  raise_if (has_duplicate (map (λ item. item.runtime_id) items))
      "BATTLE_INTEL output contains duplicate runtime ids"
  raise_if (not (same_list same_battle_item items (sorted battle_item_key items)))
      "BATTLE_INTEL items are not in canonical order"
  ok items

unfoldable pub parse_battle_intel_output : Value → Sequence → Value → Result BattleIntelSnapshot
parse_battle_intel_output output allowed_roles expected_category = do
  category ← normalize_battle_category expected_category
  lines ← protocol_lines output "BATTLE_INTEL"
  raise_if (ltb (length lines) 4 || not (has_tag (line lines 1) 2 "ROLE"))
      "BATTLE_INTEL output is missing ROLE"
  role ← parse_role (line lines 1 ‼ 1) allowed_roles
  kingdom ← parse_kingdom_line (line lines 2)
  items ← parse_battle_items category lines
  ok (record { role = role; kingdom = kingdom; items = items })
