-- ===== src/Business/Constants.antt =====
-- business.py: the Lua constants that the scripts are built with, `_lua_role_table` to
-- `_target_constants`, and `_finalize_lua`.
pub mod Chosen
use mumu_autotask.Prelude.{
  ℕ, Bool, true, false, not, ◌&&◌, ◌||◌, List, [], ◌∷◌, ◌++◌, map, ltb, leb, ◌==◌, length, is_empty,
  if◌then◌else◌, String, Result, ok, ◌>>=◌, ◌>>◌, raise_if, traverse,
}
use mumu_autotask.Python.Value.{Text, Value, Sequence, str}
use mumu_autotask.Python.Text.{lit, same, split, join}
use mumu_autotask.Python.Decimal.{str_of}
use mumu_autotask.Python.Unicode.{encode, strip}
use mumu_autotask.Python.Hex.{hex}
use mumu_autotask.Business.Tables.{
  quality_ids, battle_category_types, maps_to, lookup_or, normalize_quality,
  normalize_battle_category,
}
use mumu_autotask.Business.Roles.{validate_role_whitelist}
use mumu_autotask.Business.Ids.{normalize_target_ids}
use mumu_autotask.Business.Intel.{IntelItem}
use mumu_autotask.Business.Battle.{BattleIntelItem}

-- `", ".join(parts)`
unfoldable pub comma_join : List Text → Text
comma_join [] = []
comma_join (p ∷ []) = p
comma_join (p ∷ q ∷ ps) = p ++ (lit ", " ++ comma_join (q ∷ ps))

-- `local NAME = value` and a line break, where the value is a number.
abbrev pub local_line : String → ℕ → Text
local_line name value = lit "local " ++ (lit name ++ (lit " = " ++ (str_of value ++ (10 ∷ []))))

unfoldable pub lua_role_table : Sequence → Result Text
lua_role_table roles = do
  validated ← validate_role_whitelist roles
  entries ←
      traverse (λ role. do bytes ← encode role; ok (lit "[\"" ++ (hex bytes ++ lit "\"] = true")))
        validated
  ok (comma_join entries)

unfoldable pub battle_category_constant : Value → Result Text
battle_category_constant category = do
  normalized ← normalize_battle_category category
  ok (local_line "TARGET_QUEST_TYPE" (lookup_or normalized battle_category_types 0))

unfoldable pub target_ids_constants : Sequence → Result Text
target_ids_constants target_ids = do
  normalized ← normalize_target_ids target_ids
  ok (
      lit "local TARGET_RUNTIME_IDS = { "
      ++ (comma_join (map str_of normalized) ++ (lit " }" ++ (10 ∷ []))))

-- The dedented template of `_target_constants`.
unfoldable pub target_template : IntelItem → Text
target_template target =
    local_line "TARGET_RUNTIME_ID" target.runtime_id
    ++ (local_line "TARGET_QUEST_ID" target.quest_id
        ++ (local_line "TARGET_QUALITY_ID" target.quality_id
            ++ (local_line "TARGET_WORLD_X" target.world_x
                ++ (local_line "TARGET_WORLD_Y" target.world_y
                    ++ (local_line "TARGET_EXPIRES_AT" target.expires_at
                        ++ (local_line "TARGET_MONSTER_ID" target.monster_id
                            ++ (local_line "TARGET_LEVEL" target.level
                                ++ local_line "TARGET_STAMINA_COST" target.stamina_cost)))))))

-- The loop over the numbers of the target accepts every item here, since the fields of the record are
-- neither negative nor of another type.
unfoldable pub target_constants : IntelItem → Result Text
target_constants target = do
  raise_if
      ((target.runtime_id == 0)
        || (target.quest_id == 0)
        || (target.expires_at == 0)
        || (target.monster_id == 0)
        || (target.level == 0)
        || (target.stamina_cost == 0))
      "march target identifiers, expiry, monster id, and level must be positive"
  quality ← normalize_quality (str target.quality)
  raise_if
      (not (same quality target.quality) || not (maps_to quality quality_ids target.quality_id))
      "march target quality name/id disagree"
  raise_if (not (target.status == 1)) "march target is not available"
  ok (target_template target)

-- The dedented template of `_battle_target_constants`.
unfoldable pub battle_target_template : BattleIntelItem → Text
battle_target_template target =
    local_line "TARGET_RUNTIME_ID" target.runtime_id
    ++ (local_line "TARGET_QUEST_ID" target.quest_id
        ++ (local_line "TARGET_QUEST_TYPE" target.quest_type
            ++ (local_line "TARGET_QUALITY_ID" target.quality_id
                ++ (local_line "TARGET_WORLD_X" target.world_x
                    ++ (local_line "TARGET_WORLD_Y" target.world_y
                        ++ (local_line "TARGET_EXPIRES_AT" target.expires_at
                            ++ (local_line "TARGET_CONDITION" target.condition
                                ++ (local_line "TARGET_LEVEL" target.level
                                    ++ (local_line "TARGET_STAMINA_COST" target.stamina_cost
                                        ++ local_line "TARGET_POWER_LEVEL"
                                            target.power_level)))))))))

unfoldable pub battle_target_constants : BattleIntelItem → Result Text
battle_target_constants target = do
  category ← normalize_battle_category (str target.category)
  raise_if (not (same category target.category))
      "battle intelligence target category must be canonical"
  raise_if (not (maps_to category battle_category_types target.quest_type))
      "battle intelligence category/type disagree"
  quality ← normalize_quality (str target.quality)
  raise_if
      (not (same quality target.quality) || not (maps_to quality quality_ids target.quality_id))
      "battle intelligence quality name/id disagree"
  raise_if ((target.runtime_id == 0) || (target.quest_id == 0) || (target.expires_at == 0))
      "battle intelligence target identifiers and expiry must be positive"
  raise_if (not (target.status == 1)) "battle intelligence target is not available"
  ok (battle_target_template target)

-- `source.splitlines()`, up to empty lines, which the caller drops: `\r\n` ends one line there and two
-- here, of which the second is empty.
abbrev pub is_line_break : ℕ → Bool
is_line_break c =
    (leb 0x0A c && leb c 0x0D)
    || (leb 0x1C c && leb c 0x1E)
    || (c == 0x85)
    || (c == 0x2028)
    || (c == 0x2029)

unfoldable pub to_newline : Text → Text
to_newline s = map (λ c. if is_line_break c then 10 else c) s

-- `[line.strip() for line in lines if line.strip()]`
unfoldable pub stripped_lines : List Text → List Text
stripped_lines [] = []
stripped_lines (l ∷ ls) =
    let rest = stripped_lines ls in if is_empty (strip l) then rest else strip l ∷ rest

abbrev pub lua_bridge_code_capacity : ℕ
lua_bridge_code_capacity = 16384

unfoldable pub finalize_lua : Text → Result Text
finalize_lua source = do
  let code = join 10 (stripped_lines (split 10 (to_newline source))) ++ (10 ∷ [])
  encoded ← encode code
  raise_if (leb lua_bridge_code_capacity (length encoded))
      "generated Lua source is {size} UTF-8 bytes; bridge limit is {LUA_BRIDGE_CODE_CAPACITY - 1}"
  ok code
