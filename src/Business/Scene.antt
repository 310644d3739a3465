-- ===== src/Business/Scene.antt =====
-- business.py: the answers of the SCENE and TOGGLE_WORLD scripts.
use mumu_autotask.Prelude.{
  ℕ, Bool, true, false, not, ◌||◌, Option, none, some, ◌==◌, length, is_empty, if◌then◌else◌,
  Result, ok, ◌>>=◌, ◌>>◌, fail, raise_if,
}
use mumu_autotask.Python.Value.{Text, Value, Sequence}
use mumu_autotask.Python.Text.{lit, same, any}
use mumu_autotask.Business.Roles.{is_control}
use mumu_autotask.Business.Wire.{
  line, ◌‼◌, has_tag, is_pair, is_bit, parse_integer, parse_role, parse_kingdom_line,
  protocol_lines,
}

pub record SceneStatus : Type 0 where
  pub role : Text
  pub kingdom : ℕ
  pub scene_type : Option ℕ
  pub map_type : Option ℕ
  pub class_name : Text
  pub is_world : Bool
  pub is_city : Bool
  pub loading : Option Bool
  pub transition : Option Bool

unfoldable pub parse_missing_integer : Text → Result (Option ℕ)
parse_missing_integer value =
    if same value (lit "missing") then ok none else (do n ← parse_integer value true; ok (some n))

unfoldable pub parse_missing_bool : Text → Result (Option Bool)
parse_missing_bool value =
    if same value (lit "missing")
    then ok none
    else if same value (lit "true")
    then ok (some true)
    else if same value (lit "false")
    then ok (some false)
    else fail "{location} must be true, false, or missing"

unfoldable pub parse_scene_status_output : Value → Sequence → Result SceneStatus
parse_scene_status_output output allowed_roles = do
  lines ← protocol_lines output "SCENE"
  raise_if (not (length lines == 8)) "SCENE output must contain exactly 8 lines"
  raise_if (not (has_tag (line lines 1) 2 "ROLE")) "SCENE output is missing ROLE"
  role ← parse_role (line lines 1 ‼ 1) allowed_roles
  kingdom ← parse_kingdom_line (line lines 2)
  let scene_line = line lines 3
  raise_if
      (not (has_tag scene_line 4 "SCENE")
        || not (same (scene_line ‼ 2) (lit "CLASS"))
        || is_empty (scene_line ‼ 3)
        || any is_control (scene_line ‼ 3))
      "SCENE output has an invalid scene descriptor"
  scene_type ← parse_missing_integer (scene_line ‼ 1)
  let map_line = line lines 4
  raise_if (not (has_tag map_line 2 "MAP")) "SCENE output is missing MAP"
  map_type ← parse_missing_integer (map_line ‼ 1)
  let world_line = line lines 5
  raise_if
      (not (has_tag world_line 4 "WORLD")
        || not (is_bit (world_line ‼ 1))
        || not (same (world_line ‼ 2) (lit "CITY"))
        || not (is_bit (world_line ‼ 3)))
      "SCENE output has an invalid world/city state"
  let busy_line = line lines 6
  raise_if
      (not (has_tag busy_line 5 "BUSY")
        || not (same (busy_line ‼ 1) (lit "LOADING"))
        || not (same (busy_line ‼ 3) (lit "TRANSITION")))
      "SCENE output has an invalid busy state"
  raise_if (not (is_pair (line lines 7) "END" (lit "1"))) "SCENE output has an invalid terminator"
  loading ← parse_missing_bool (busy_line ‼ 2)
  transition ← parse_missing_bool (busy_line ‼ 4)
  ok (record {
    role = role;
    kingdom = kingdom;
    scene_type = scene_type;
    map_type = map_type;
    class_name = scene_line ‼ 3;
    is_world = same (world_line ‼ 1) (lit "1");
    is_city = same (world_line ‼ 3) (lit "1");
    loading = loading;
    transition = transition;
  })

unfoldable pub parse_toggle_world_output : Value → Sequence → Result (Text × ℕ)
parse_toggle_world_output output allowed_roles = do
  lines ← protocol_lines output "TOGGLE_WORLD"
  raise_if (not (length lines == 5)) "TOGGLE_WORLD output must contain exactly 5 lines"
  raise_if (not (has_tag (line lines 1) 2 "ROLE")) "TOGGLE_WORLD output is missing ROLE"
  role ← parse_role (line lines 1 ‼ 1) allowed_roles
  kingdom ← parse_kingdom_line (line lines 2)
  raise_if (not (is_pair (line lines 3) "INVOKED" (lit "1")))
      "TOGGLE_WORLD output did not confirm invocation"
  raise_if (not (is_pair (line lines 4) "END" (lit "1")))
      "TOGGLE_WORLD output has an invalid terminator"
  ok (role, kingdom)
