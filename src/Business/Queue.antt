-- ===== src/Business/Queue.antt =====
-- business.py: the answers that report the march queue and the marches on their way.
pub mod Observed
use mumu_autotask.Prelude.{
  ℕ, ◌+◌, Bool, true, false, not, ◌&&◌, ◌||◌, List, [], ◌∷◌, Option, none, some, ltb, ◌==◌, length,
  drop, init, if◌then◌else◌, Result, ok, ◌>>=◌, ◌>>◌, raise_if,
}
use mumu_autotask.Python.Value.{Value, Sequence}
use mumu_autotask.Python.Text.{lit, same, same_fields, member}
use mumu_autotask.Python.Decimal.{str_of}
use mumu_autotask.Business.Ids.{normalize_world_monster_march_ids}
use mumu_autotask.Business.Wire.{
  Fields, Lines, line, ◌‼◌, last_line, has_tag, is_pair, parse_integer, protocol_lines,
}
use mumu_autotask.Business.Monster.{
  WorldMonsterSearchReceipt, WorldMonsterMarchReceipt, WorldMonsterMarchStatus, WorldMarchCapacity,
  WorldMonsterStatusSnapshot, str_of_option, int_of_option, parse_world_monster_identity,
}

unfoldable pub parse_world_march_capacity_output : Value → Result WorldMarchCapacity
parse_world_march_capacity_output output = do
  lines ← protocol_lines output "WORLD_MARCH_CAPACITY"
  (role, kingdom) ← parse_world_monster_identity lines
  raise_if
      (not (length lines == 6)
        || not (has_tag (line lines 3) 3 "QUEUE")
        || not (has_tag (line lines 4) 2 "STAMINA")
        || not (is_pair (line lines 5) "END" (lit "1")))
      "WORLD_MARCH_CAPACITY output is invalid"
  current ← parse_integer (line lines 3 ‼ 1) true
  maximum ← parse_integer (line lines 3 ‼ 2) false
  stamina ← parse_integer (line lines 4 ‼ 1) true
  raise_if (ltb maximum current) "WORLD_MARCH_CAPACITY queue state is inconsistent"
  ok (record {
    role = role;
    kingdom = kingdom;
    current_marches = current;
    max_marches = maximum;
    current_stamina = stamina;
  })

unfoldable pub parse_world_monster_verify_output :
    Value → WorldMonsterSearchReceipt → Result WorldMonsterMarchReceipt
parse_world_monster_verify_output output search = do
  raise_if (not search.ready) "world monster verification requires a ready search result"
  lines ← protocol_lines output "WORLD_MONSTER_VERIFY"
  (role, kingdom) ← parse_world_monster_identity lines
  raise_if
      (not (length lines == 9)
        || not (same role search.role)
        || not (kingdom == search.kingdom)
        || not (is_pair (line lines 3) "LEVEL" (str_of search.level))
        || not (is_pair (line lines 4) "MONSTER" (str_of_option search.monster_id))
        || not (
            same_fields (line lines 5)
              (lit "POINT" ∷ str_of_option search.world_x ∷ str_of_option search.world_y ∷ []))
        || not (has_tag (line lines 6) 2 "MARCH")
        || not (has_tag (line lines 7) 2 "STAMINA")
        || not (is_pair (line lines 8) "END" (lit "1")))
      "WORLD_MONSTER_VERIFY output is invalid"
  march_id ←
      if same (line lines 6 ‼ 1) (lit "missing")
      then ok none
      else (do n ← parse_integer (line lines 6 ‼ 1) false; ok (some n))
  current_stamina ← parse_integer (line lines 7 ‼ 1) true
  monster_id ← int_of_option search.monster_id
  world_x ← int_of_option search.world_x
  world_y ← int_of_option search.world_y
  ok (record {
    role = role;
    kingdom = kingdom;
    level = search.level;
    monster_id = monster_id;
    world_x = world_x;
    world_y = world_y;
    march_id = march_id;
    current_stamina = current_stamina;
  })

-- One round of the loop over the requested march ids and their lines.
unfoldable pub parse_march_line : ℕ → Fields → Result WorldMonsterMarchStatus
parse_march_line march_id fields = do
  raise_if (not (has_tag fields 3 "MARCH") || not (same (fields ‼ 1) (str_of march_id)))
      "WORLD_MONSTER_STATUS MARCH[{index}] does not match the request"
  raise_if (same (fields ‼ 2) (lit "UNKNOWN"))
      "world monster march id {march_id} was never observed in this game process"
  raise_if (not (member (fields ‼ 2) (lit "ACTIVE" ∷ lit "RETURNED" ∷ [])))
      "WORLD_MONSTER_STATUS MARCH[{index}] is invalid"
  ok (record { march_id = march_id; state = fields ‼ 2 })

-- The loop; both lists have one length here.
unfoldable pub parse_march_lines : List ℕ → Lines → Result (List WorldMonsterMarchStatus)
parse_march_lines [] lines = ok []
parse_march_lines (march_id ∷ ids) [] = ok []
parse_march_lines (march_id ∷ ids) (fields ∷ lines) = do
  status ← parse_march_line march_id fields
  statuses ← parse_march_lines ids lines
  ok (status ∷ statuses)

unfoldable pub parse_world_monster_status_output :
    Value → Sequence → Result WorldMonsterStatusSnapshot
parse_world_monster_status_output output march_ids = do
  expected_ids ← normalize_world_monster_march_ids march_ids
  lines ← protocol_lines output "WORLD_MONSTER_STATUS"
  (role, kingdom) ← parse_world_monster_identity lines
  raise_if
      (not (length lines == length expected_ids + 6)
        || not (has_tag (line lines 3) 3 "QUEUE")
        || not (has_tag (line lines 4) 2 "STAMINA")
        || not (is_pair (last_line lines) "END" (str_of (length expected_ids))))
      "WORLD_MONSTER_STATUS output is invalid"
  stamina ← parse_integer (line lines 4 ‼ 1) true
  current_marches ← parse_integer (line lines 3 ‼ 1) true
  max_marches ← parse_integer (line lines 3 ‼ 2) false
  raise_if (ltb max_marches current_marches) "WORLD_MONSTER_STATUS queue state is inconsistent"
  statuses ← parse_march_lines expected_ids (init (drop 5 lines))
  ok (record {
    role = role;
    kingdom = kingdom;
    current_stamina = stamina;
    current_marches = current_marches;
    max_marches = max_marches;
    statuses = statuses;
  })
