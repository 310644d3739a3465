-- ===== src/Examples/Hunts.antt =====
-- World monsters, the march queue and yeti rallies at concrete inputs.
use mumu_autotask.Prelude.{ℕ, ◌≡◌, refl, true, List, [], ◌∷◌, map, none, some, ok}
use mumu_autotask.Python.Value.{Text, str, items}
use mumu_autotask.Python.Text.{lit, same, same_fields, member, any, split, join}
use mumu_autotask.Python.Decimal.{str_of, is_canonical, int_of}
use mumu_autotask.Python.Unicode.{encode, encode_char, decode, strip, lower}
use mumu_autotask.Python.Hex.{hex, is_hex, from_hex}
use mumu_autotask.Python.Collect
use mumu_autotask.Python.Collect.{collect}
use mumu_autotask.Business.Tables.{lookup}
use mumu_autotask.Business.Roles.{validate_role_whitelist, check_role}
use mumu_autotask.Business.Ids.{check_positive, normalize_world_monster_march_ids}
use mumu_autotask.Business.Ids.Valid.{number}
use mumu_autotask.Business.Wire.{
  Lines, line, has_tag, is_pair, is_flag, is_bit, any_empty, parse_integer, parse_role,
  parse_kingdom_line, protocol_lines,
}
use mumu_autotask.Business.Wire.Lines.{render}
use mumu_autotask.Business.Monster.{
  WorldMonsterSearchReceipt, WorldMonsterHuntReceipt, WorldMarchCapacity,
  WorldMonsterStatusSnapshot, str_of_option, int_of_option, dispatch_outcome,
  parse_world_monster_identity, parse_world_monster_commit_output,
}
use mumu_autotask.Business.Monster.Dispatch.{IsHunt, parse_world_monster_commit_output_sound}
use mumu_autotask.Business.Queue.{
  parse_world_march_capacity_output, parse_march_line, parse_march_lines,
  parse_world_monster_status_output,
}
use mumu_autotask.Business.Queue.Observed.{IsObserved, parse_world_monster_status_output_sound}
use mumu_autotask.Business.Yeti.{
  YetiCommitReceipt, all_missing, parse_yeti_target, rally_outcome, blocked_by,
  parse_yeti_commit_output,
}
use mumu_autotask.Business.Yeti.Rally.{IsRally, parse_yeti_commit_output_sound}
use mumu_autotask.Prelude.{◌≤◌, false}
use mumu_autotask.Python.Unicode.{strip, lower}
use mumu_autotask.Business.Tables.{lookup}
use mumu_autotask.Business.Ids.{check_range, normalize_world_monster_level}
use mumu_autotask.Business.Monster.{parse_search_result, parse_world_monster_search_output}
use mumu_autotask.Business.Monster.Found.{IsFound, parse_world_monster_search_output-IsFound}
use mumu_autotask.Business.Yeti.{
  YetiRallyStatus, YetiSpawnReceipt, parse_prepared_target, spawn_outcome, parse_yeti_status_output,
  parse_yeti_spawn_output,
}
use mumu_autotask.Business.Yeti.Prepared.{
  IsRallyStatus, SpawnDecision, parse_yeti_status_output-IsRallyStatus,
  parse_yeti_spawn_output-SpawnDecision,
}
use mumu_autotask.Examples.Answers.{answer, one_value}

abbrev search : WorldMonsterSearchReceipt
search = record {
  role = lit "abc";
  kingdom = 4549;
  level = 5;
  ready = true;
  world_x = some 100;
  world_y = some 200;
  monster_id = some 9;
  recommended_power = some 800;
  current_stamina = 90;
}

abbrev hunt_answer : Text
hunt_answer = answer "WORLD_MONSTER_COMMIT" (
    ("LEVEL" ∷ "5" ∷ [])
    ∷ ("MONSTER" ∷ "9" ∷ [])
    ∷ ("POINT" ∷ "100" ∷ "200" ∷ [])
    ∷ ("AVERAGE" ∷ "1" ∷ [])
    ∷ ("STAMINA" ∷ "90" ∷ "10" ∷ "10" ∷ [])
    ∷ ("QUEUE" ∷ "1" ∷ "4" ∷ [])
    ∷ ("SENT" ∷ "1" ∷ [])
    ∷ ("REASON" ∷ "NONE" ∷ [])
    ∷ ("END" ∷ "1" ∷ [])
    ∷ [])

abbrev hunt : WorldMonsterHuntReceipt
hunt = record {
  role = lit "abc";
  kingdom = 4549;
  level = 5;
  monster_id = 9;
  world_x = 100;
  world_y = 200;
  request_dispatched = true;
  current_stamina = 90;
  required_stamina = 10;
  base_stamina = 10;
  current_marches = 1;
  max_marches = 4;
  blocked_reason = none;
}

hunt_read : parse_world_monster_commit_output (str hunt_answer) search ≡ ok hunt
unfolding protocol_lines parse_kingdom_line parse_role parse_integer any_empty is_bit is_flag
    is_pair has_tag validate_role_whitelist check_role render collect Collect.member hex is_hex
    from_hex encode encode_char decode str_of is_canonical int_of lit same same_fields member any
    split join strip lower lookup str_of_option int_of_option dispatch_outcome
    parse_world_monster_identity parse_world_monster_commit_output
hunt_read = refl

parse_world_monster_commit_output_sound_example : (search.ready ≡ true) × IsHunt search hunt
parse_world_monster_commit_output_sound_example =
    parse_world_monster_commit_output_sound (str hunt_answer) search hunt hunt_read

abbrev capacity_answer : Text
capacity_answer =
    answer "WORLD_MARCH_CAPACITY"
      (("QUEUE" ∷ "2" ∷ "4" ∷ []) ∷ ("STAMINA" ∷ "90" ∷ []) ∷ ("END" ∷ "1" ∷ []) ∷ [])

abbrev capacity : WorldMarchCapacity
capacity = record {
  role = lit "abc";
  kingdom = 4549;
  current_marches = 2;
  max_marches = 4;
  current_stamina = 90;
}

capacity_read : parse_world_march_capacity_output (str capacity_answer) ≡ ok capacity
unfolding protocol_lines parse_kingdom_line parse_role parse_integer any_empty is_bit is_flag
    is_pair has_tag validate_role_whitelist check_role render collect Collect.member hex is_hex
    from_hex encode encode_char decode str_of is_canonical int_of lit same same_fields member any
    split join strip lower lookup parse_world_monster_identity parse_world_march_capacity_output
capacity_read = refl

abbrev marches_answer : Text
marches_answer = answer "WORLD_MONSTER_STATUS" (
    ("QUEUE" ∷ "1" ∷ "4" ∷ [])
    ∷ ("STAMINA" ∷ "90" ∷ [])
    ∷ ("MARCH" ∷ "7" ∷ "RETURNED" ∷ [])
    ∷ ("END" ∷ "1" ∷ [])
    ∷ [])

abbrev marches : WorldMonsterStatusSnapshot
marches = record {
  role = lit "abc";
  kingdom = 4549;
  current_stamina = 90;
  current_marches = 1;
  max_marches = 4;
  statuses = record { march_id = 7; state = lit "RETURNED" } ∷ [];
}

marches_read : parse_world_monster_status_output (str marches_answer) (items one_value) ≡ ok marches
unfolding protocol_lines parse_kingdom_line parse_role parse_integer any_empty is_bit is_flag
    is_pair has_tag validate_role_whitelist check_role render collect Collect.member hex is_hex
    from_hex encode encode_char decode str_of is_canonical int_of lit same same_fields member any
    split join strip lower lookup normalize_world_monster_march_ids check_positive
    parse_world_monster_identity parse_march_line parse_march_lines
    parse_world_monster_status_output
marches_read = refl

parse_world_monster_status_output_sound_example :
    (ids : List ℕ) × (lines : Lines) × (one_value ≡ map number ids)
    × (protocol_lines (str marches_answer) "WORLD_MONSTER_STATUS" ≡ ok lines)
    × IsObserved ids lines marches
parse_world_monster_status_output_sound_example =
    parse_world_monster_status_output_sound (str marches_answer) one_value marches marches_read

abbrev rally_answer : Text
rally_answer = answer "YETI_COMMIT" (
    ("TARGET" ∷ "7" ∷ "100" ∷ "200" ∷ [])
    ∷ ("QUEUE" ∷ "1" ∷ "4" ∷ [])
    ∷ ("STAMINA" ∷ "120" ∷ "25" ∷ [])
    ∷ ("ACTIVE_RALLIES" ∷ "0" ∷ [])
    ∷ ("SENT" ∷ "1" ∷ [])
    ∷ ("REASON" ∷ "NONE" ∷ [])
    ∷ ("END" ∷ "1" ∷ [])
    ∷ [])

abbrev rally : YetiCommitReceipt
rally = record {
  role = lit "abc";
  kingdom = 4549;
  request_dispatched = true;
  current_stamina = 120;
  required_stamina = 25;
  current_marches = 1;
  max_marches = 4;
  active_rallies = 0;
  monster_id = some 7;
  world_x = some 100;
  world_y = some 200;
  blocked_reason = none;
}

rally_read : parse_yeti_commit_output (str rally_answer) ≡ ok rally
unfolding protocol_lines parse_kingdom_line parse_role parse_integer any_empty is_bit is_flag
    is_pair has_tag validate_role_whitelist check_role render collect Collect.member hex is_hex
    from_hex encode encode_char decode str_of is_canonical int_of lit same same_fields member any
    split join strip lower lookup all_missing parse_yeti_target rally_outcome blocked_by
    parse_world_monster_identity parse_yeti_commit_output
rally_read = refl

parse_yeti_commit_output_sound_example : IsRally rally
parse_yeti_commit_output_sound_example =
    parse_yeti_commit_output_sound (str rally_answer) rally rally_read

abbrev search_answer : Text
search_answer = answer "WORLD_MONSTER_SEARCH" (
    ("LEVEL" ∷ "5" ∷ [])
    ∷ ("READY" ∷ "1" ∷ [])
    ∷ ("POINT" ∷ "100" ∷ "200" ∷ [])
    ∷ ("MONSTER" ∷ "9" ∷ "800" ∷ [])
    ∷ ("STAMINA" ∷ "90" ∷ [])
    ∷ ("END" ∷ "1" ∷ [])
    ∷ [])

search_read : parse_world_monster_search_output (str search_answer) (number 5) ≡ ok search
unfolding protocol_lines parse_kingdom_line parse_role parse_integer any_empty is_bit is_flag
    is_pair has_tag validate_role_whitelist check_role render collect Collect.member hex is_hex
    from_hex encode encode_char decode str_of is_canonical int_of lit same same_fields member any
    split join strip lower lookup normalize_world_monster_level check_range
    parse_world_monster_identity parse_search_result parse_world_monster_search_output
search_read = refl

parse_world_monster_search_output-IsFound_example :
    (lines : Lines) × (protocol_lines (str search_answer) "WORLD_MONSTER_SEARCH" ≡ ok lines)
    × (number 5 ≡ number 5)
    × (1 ≤ 5)
    × (5 ≤ 20)
    × IsFound lines search
parse_world_monster_search_output-IsFound_example =
    parse_world_monster_search_output-IsFound (str search_answer) (number 5) search search_read

abbrev rally_status_answer : Text
rally_status_answer = answer "YETI_STATUS" (
    ("QUEUE" ∷ "1" ∷ "4" ∷ [])
    ∷ ("STAMINA" ∷ "120" ∷ [])
    ∷ ("ACTIVE_RALLIES" ∷ "0" ∷ [])
    ∷ ("SPAWN_PENDING" ∷ "0" ∷ [])
    ∷ ("PREPARED" ∷ "1" ∷ [])
    ∷ ("TARGET" ∷ "7" ∷ "100" ∷ "200" ∷ [])
    ∷ ("END" ∷ "1" ∷ [])
    ∷ [])

abbrev rally_status : YetiRallyStatus
rally_status = record {
  role = lit "abc";
  kingdom = 4549;
  current_stamina = 120;
  current_marches = 1;
  max_marches = 4;
  active_rallies = 0;
  prepared = true;
  world_x = some 100;
  world_y = some 200;
  monster_id = some 7;
}

rally_status_read : parse_yeti_status_output (str rally_status_answer) ≡ ok rally_status
unfolding protocol_lines parse_kingdom_line parse_role parse_integer any_empty is_bit is_flag
    is_pair has_tag validate_role_whitelist check_role render collect Collect.member hex is_hex
    from_hex encode encode_char decode str_of is_canonical int_of lit same same_fields member any
    split join strip lower lookup all_missing parse_yeti_target parse_prepared_target
    parse_world_monster_identity parse_yeti_status_output
rally_status_read = refl

parse_yeti_status_output-IsRallyStatus_example : IsRallyStatus rally_status
parse_yeti_status_output-IsRallyStatus_example =
    parse_yeti_status_output-IsRallyStatus (str rally_status_answer) rally_status rally_status_read

abbrev spawn_answer : Text
spawn_answer =
    answer "YETI_SPAWN"
      (("SENT" ∷ "0" ∷ []) ∷ ("REASON" ∷ "SPAWN_PENDING" ∷ []) ∷ ("END" ∷ "1" ∷ []) ∷ [])

abbrev spawn : YetiSpawnReceipt
spawn = record {
  role = lit "abc";
  kingdom = 4549;
  request_dispatched = false;
  blocked_reason = some (lit "spawn_pending");
}

spawn_read : parse_yeti_spawn_output (str spawn_answer) ≡ ok spawn
unfolding protocol_lines parse_kingdom_line parse_role parse_integer any_empty is_bit is_flag
    is_pair has_tag validate_role_whitelist check_role render collect Collect.member hex is_hex
    from_hex encode encode_char decode str_of is_canonical int_of lit same same_fields member any
    split join strip lower lookup spawn_outcome blocked_by parse_world_monster_identity
    parse_yeti_spawn_output
spawn_read = refl

parse_yeti_spawn_output-SpawnDecision_example :
    (lines : Lines) × (protocol_lines (str spawn_answer) "YETI_SPAWN" ≡ ok lines)
    × SpawnDecision (line lines 3) (line lines 4) false (some (lit "spawn_pending"))
parse_yeti_spawn_output-SpawnDecision_example =
    parse_yeti_spawn_output-SpawnDecision (str spawn_answer) spawn spawn_read
