-- ===== src/Business/Monster.antt =====
-- business.py: the answers of the world-monster scripts.
pub mod Dispatch
pub mod Found
use mumu_autotask.Prelude.{
  ℕ, ◌+◌, Bool, true, false, not, ◌&&◌, ◌||◌, List, [], ◌∷◌, Option, none, some, ltb, leb, ◌==◌,
  length, drop, init, if◌then◌else◌, Result, ok, err, type_error, ◌>>=◌, ◌>>◌, fail, raise_if,
}
use mumu_autotask.Python.Value.{Text, Value, Sequence, items}
use mumu_autotask.Python.Text.{lit, same, same_fields, member}
use mumu_autotask.Python.Decimal.{str_of, is_canonical}
use mumu_autotask.Business.Ids.{normalize_world_monster_level, normalize_world_monster_march_ids}
use mumu_autotask.Business.Wire.{
  Fields, Lines, line, ◌‼◌, last_line, has_tag, is_pair, is_flag, parse_integer, parse_role,
  parse_kingdom_line, protocol_lines,
}

pub record WorldMonsterSearchReceipt : Type 0 where
  pub role : Text
  pub kingdom : ℕ
  pub level : ℕ
  pub ready : Bool
  pub world_x : Option ℕ
  pub world_y : Option ℕ
  pub monster_id : Option ℕ
  pub recommended_power : Option ℕ
  pub current_stamina : ℕ

pub record WorldMonsterHuntReceipt : Type 0 where
  pub role : Text
  pub kingdom : ℕ
  pub level : ℕ
  pub monster_id : ℕ
  pub world_x : ℕ
  pub world_y : ℕ
  pub request_dispatched : Bool
  pub current_stamina : ℕ
  pub required_stamina : ℕ
  pub base_stamina : ℕ
  pub current_marches : ℕ
  pub max_marches : ℕ
  pub blocked_reason : Option Text

pub record WorldMonsterMarchReceipt : Type 0 where
  pub role : Text
  pub kingdom : ℕ
  pub level : ℕ
  pub monster_id : ℕ
  pub world_x : ℕ
  pub world_y : ℕ
  pub march_id : Option ℕ
  pub current_stamina : ℕ

pub record WorldMonsterMarchStatus : Type 0 where
  pub march_id : ℕ
  pub state : Text

pub record WorldMarchCapacity : Type 0 where
  pub role : Text
  pub kingdom : ℕ
  pub current_marches : ℕ
  pub max_marches : ℕ
  pub current_stamina : ℕ

pub record WorldMonsterStatusSnapshot : Type 0 where
  pub role : Text
  pub kingdom : ℕ
  pub current_stamina : ℕ
  pub current_marches : ℕ
  pub max_marches : ℕ
  pub statuses : List WorldMonsterMarchStatus

-- `str(value)` and `int(value)` of a number or `None`
unfoldable pub str_of_option : Option ℕ → Text
str_of_option none = lit "None"
str_of_option (some n) = str_of n

unfoldable pub int_of_option : Option ℕ → Result ℕ
int_of_option none = err type_error
int_of_option (some n) = ok n

unfoldable pub parse_world_monster_identity : Lines → Result (Text × ℕ)
parse_world_monster_identity lines = do
  raise_if (ltb (length lines) 4 || not (has_tag (line lines 1) 2 "ROLE"))
      "{kind} output is missing ROLE"
  role ← parse_role (line lines 1 ‼ 1) (items [])
  kingdom ← parse_kingdom_line (line lines 2)
  ok (role, kingdom)

unfoldable pub parse_world_monster_search_sent_output : Value → Value → Result (Unit {0})
parse_world_monster_search_sent_output output level = do
  requested_level ← normalize_world_monster_level level
  lines ← protocol_lines output "WORLD_MONSTER_SEARCH_SENT"
  _ ← parse_world_monster_identity lines
  raise_if
      (not (length lines == 6)
        || not (is_pair (line lines 3) "LEVEL" (str_of requested_level))
        || not (is_pair (line lines 4) "SENT" (lit "1"))
        || not (is_pair (line lines 5) "END" (lit "1")))
      "WORLD_MONSTER_SEARCH_SENT output is invalid"

-- `fields[1:] == ["missing", "missing"]`
unfoldable pub both_missing : Fields → Bool
both_missing fields = same_fields (drop 1 fields) (lit "missing" ∷ lit "missing" ∷ [])

-- `any(_INTEGER_PATTERN.fullmatch(value) is None for value in values)`
unfoldable pub any_not_canonical : Fields → Bool
any_not_canonical [] = false
any_not_canonical (value ∷ values) = not (is_canonical value) || any_not_canonical values

-- The point and the monster of a search that is ready, or their absence in one that is pending.
unfoldable pub parse_search_result :
    Bool → Fields → Fields → Text → ℕ → ℕ → ℕ → Result WorldMonsterSearchReceipt
parse_search_result false point monster role kingdom level stamina = do
  raise_if
      (not (both_missing monster) || (not (both_missing point) && any_not_canonical (drop 1 point)))
      "WORLD_MONSTER_SEARCH pending state is inconsistent"
  ok (record {
    role = role;
    kingdom = kingdom;
    level = level;
    ready = false;
    world_x = none;
    world_y = none;
    monster_id = none;
    recommended_power = none;
    current_stamina = stamina;
  })
parse_search_result true point monster role kingdom level stamina = do
  world_x ← parse_integer (point ‼ 1) true
  world_y ← parse_integer (point ‼ 2) true
  monster_id ← parse_integer (monster ‼ 1) false
  recommended_power ← parse_integer (monster ‼ 2) false
  ok (record {
    role = role;
    kingdom = kingdom;
    level = level;
    ready = true;
    world_x = some world_x;
    world_y = some world_y;
    monster_id = some monster_id;
    recommended_power = some recommended_power;
    current_stamina = stamina;
  })

unfoldable pub parse_world_monster_search_output : Value → Value → Result WorldMonsterSearchReceipt
parse_world_monster_search_output output level = do
  requested_level ← normalize_world_monster_level level
  lines ← protocol_lines output "WORLD_MONSTER_SEARCH"
  (role, kingdom) ← parse_world_monster_identity lines
  raise_if
      (not (length lines == 9)
        || not (is_pair (line lines 3) "LEVEL" (str_of requested_level))
        || not (is_flag (line lines 4) "READY")
        || not (has_tag (line lines 5) 3 "POINT")
        || not (has_tag (line lines 6) 3 "MONSTER")
        || not (has_tag (line lines 7) 2 "STAMINA")
        || not (is_pair (line lines 8) "END" (lit "1")))
      "WORLD_MONSTER_SEARCH output is invalid"
  let ready = same (line lines 4 ‼ 1) (lit "1")
  stamina ← parse_integer (line lines 7 ‼ 1) true
  parse_search_result ready (line lines 5) (line lines 6) role kingdom requested_level stamina

-- The agreement of the dispatch, its reason, the stamina and the queue; the result is
-- `blocked_reason`.
unfoldable pub dispatch_outcome : Bool → Text → ℕ → ℕ → ℕ → ℕ → Result (Option Text)
dispatch_outcome true reason current required current_marches max_marches = do
  raise_if
      (not (same reason (lit "NONE")) || ltb current required || leb max_marches current_marches)
      "WORLD_MONSTER_COMMIT dispatch state is inconsistent"
  ok none
dispatch_outcome false reason current required current_marches max_marches =
    if same reason (lit "INSUFFICIENT_STAMINA")
    then (do
      raise_if (leb required current) "WORLD_MONSTER_COMMIT blocked state is inconsistent"
      ok (some (lit "insufficient_stamina")))
    else if same reason (lit "NO_IDLE_MARCH_QUEUE")
    then ok (some (lit "no_idle_march_queue"))
    else fail "WORLD_MONSTER_COMMIT blocked reason is invalid"

unfoldable pub parse_world_monster_commit_output :
    Value → WorldMonsterSearchReceipt → Result WorldMonsterHuntReceipt
parse_world_monster_commit_output output search = do
  raise_if (not search.ready) "world monster commit requires a ready search result"
  lines ← protocol_lines output "WORLD_MONSTER_COMMIT"
  (role, kingdom) ← parse_world_monster_identity lines
  raise_if
      (not (length lines == 12)
        || not (same role search.role)
        || not (kingdom == search.kingdom)
        || not (is_pair (line lines 3) "LEVEL" (str_of search.level))
        || not (is_pair (line lines 4) "MONSTER" (str_of_option search.monster_id))
        || not (
            same_fields (line lines 5)
              (lit "POINT" ∷ str_of_option search.world_x ∷ str_of_option search.world_y ∷ []))
        || not (is_pair (line lines 6) "AVERAGE" (lit "1"))
        || not (has_tag (line lines 7) 4 "STAMINA")
        || not (has_tag (line lines 8) 3 "QUEUE")
        || not (is_flag (line lines 9) "SENT")
        || not (has_tag (line lines 10) 2 "REASON")
        || not (is_pair (line lines 11) "END" (lit "1")))
      "WORLD_MONSTER_COMMIT output is invalid"
  current ← parse_integer (line lines 7 ‼ 1) true
  required ← parse_integer (line lines 7 ‼ 2) true
  base ← parse_integer (line lines 7 ‼ 3) false
  current_marches ← parse_integer (line lines 8 ‼ 1) true
  max_marches ← parse_integer (line lines 8 ‼ 2) false
  raise_if (ltb max_marches current_marches) "WORLD_MONSTER_COMMIT queue state is inconsistent"
  let dispatched = same (line lines 9 ‼ 1) (lit "1")
  blocked_reason ←
      dispatch_outcome dispatched (line lines 10 ‼ 1) current required current_marches max_marches
  monster_id ← int_of_option search.monster_id
  world_x ← int_of_option search.world_x
  world_y ← int_of_option search.world_y
  ok (record {
    role = role;
    kingdom = kingdom;
    level = search.level;
    monster_id = monster_id;
    world_x = world_x;
    world_y = world_y;
    request_dispatched = dispatched;
    current_stamina = current;
    required_stamina = required;
    base_stamina = base;
    current_marches = current_marches;
    max_marches = max_marches;
    blocked_reason = blocked_reason;
  })
