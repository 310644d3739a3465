-- ===== src/Business/Ids.antt =====
-- business.py: the validation of target ids, march ids and numeric settings.
pub mod Valid
use mumu_autotask.Prelude.{
  ℕ, zero, suc, Bool, ◌&&◌, ◌||◌, not, List, [], ltb, leb, length, is_empty, ◌==◌, String, Result,
  ok, ◌>>=◌, ◌>>◌, fail, raise_if,
}
use mumu_autotask.Python.Value.{ℤ, pos, Value, Sequence, int, text, byte_string, items}
use mumu_autotask.Python.Collect.{collect}

abbrev pub same_number : ℕ → ℕ → Bool
same_number a b = a == b

-- `isinstance(value, bool) or not isinstance(value, int) or value <= 0` raises.
unfoldable pub check_positive : String → Value → Result ℕ
check_positive message (int (pos (suc n))) = ok (suc n)
check_positive message _ = fail message

unfoldable pub normalize_target_ids : Sequence → Result (List ℕ)
normalize_target_ids (text _) = fail "intelligence target ids must be an array"
normalize_target_ids (byte_string _) = fail "intelligence target ids must be an array"
normalize_target_ids (items target_ids) = do
  result ←
      collect same_number
        (check_positive "intelligence target ids[{index}] must be a positive integer")
        "intelligence target id {runtime_id} is duplicated" target_ids [] []
  raise_if (is_empty result) "at least one intelligence target id is required"
  raise_if (ltb 128 (length result)) "cannot track more than 128 intelligence targets"
  ok result

unfoldable pub normalize_world_monster_march_ids : Sequence → Result (List ℕ)
normalize_world_monster_march_ids (text _) = fail "world monster march ids must be an array"
normalize_world_monster_march_ids (byte_string _) = fail "world monster march ids must be an array"
normalize_world_monster_march_ids (items march_ids) = do
  result ←
      collect same_number
        (check_positive "world monster march ids[{index}] must be a positive integer")
        "world monster march id {march_id} is duplicated" march_ids [] []
  raise_if (is_empty result) "at least one world monster march id is required"
  raise_if (ltb 16 (length result)) "cannot track more than 16 world monster marches"
  ok result

-- `isinstance(value, bool) or not isinstance(value, int) or not low <= value <= high` raises.
unfoldable pub check_range : ℕ → ℕ → String → Value → Result ℕ
check_range low high message (int (pos n)) = do
  raise_if (not (leb low n && leb n high)) message
  ok n
check_range low high message _ = fail message

-- The lower bound is positive, so that no negative number lies in the range.
unfoldable pub normalize_world_monster_level : Value → Result ℕ
unfolding check_range
normalize_world_monster_level = check_range 1 20 "world monster level must be between 1 and 20"

unfoldable pub normalize_world_monster_count : Value → Result ℕ
unfolding check_range
normalize_world_monster_count = check_range 1 4 "world monster hunt count must be between 1 and 4"

unfoldable pub normalize_yeti_rally_minutes : Value → Result ℕ
normalize_yeti_rally_minutes (int (pos n)) = do
  raise_if (not (n == 3 || n == 5 || n == 10)) "yeti rally minutes must be one of 3, 5, or 10"
  ok n
normalize_yeti_rally_minutes _ = fail "yeti rally minutes must be one of 3, 5, or 10"

-- The index into the game's table of gathering times that `build_yeti_commit_lua` writes.
unfoldable pub prepare_time_index : ℕ → ℕ
prepare_time_index minutes = elim (minutes == 3) [
  | Bool.true ↦ 1
  | Bool.false ↦ elim (minutes == 5) [ Bool.true ↦ 2 | Bool.false ↦ 3 ]
]
