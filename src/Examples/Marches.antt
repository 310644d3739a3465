-- ===== src/Examples/Marches.antt =====
-- The stages of a march, and the start of battles, at concrete inputs.
use mumu_autotask.Prelude.{
  ℕ, ◌≡◌, ◌≢◌, ◌↔◌, refl, true, false, List, [], ◌∷◌, map, ok, All, drop, init,
}
use mumu_autotask.Python.Value.{Text, str, items}
use mumu_autotask.Python.Text.{lit, same, same_fields, member, any, split, join}
use mumu_autotask.Python.Decimal.{str_of, is_canonical, int_of}
use mumu_autotask.Python.Unicode.{encode, encode_char, decode, strip, lower}
use mumu_autotask.Python.Hex.{hex, is_hex, from_hex}
use mumu_autotask.Python.Collect
use mumu_autotask.Python.Collect.{collect}
use mumu_autotask.Business.Tables.{lookup, normalize_battle_category}
use mumu_autotask.Business.Roles.{validate_role_whitelist, check_role}
use mumu_autotask.Business.Wire.{
  Lines, line, has_tag, is_pair, is_flag, is_bit, any_empty, parse_integer, parse_role,
  parse_kingdom_line, protocol_lines,
}
use mumu_autotask.Business.Wire.Lines.{render}
use mumu_autotask.Business.Wire.Numbers.{Readable}
use mumu_autotask.Business.Battle.{BattleIntelItem}
use mumu_autotask.Business.March.{
  stamina_outcome, parse_stamina_stage, parse_target_stage, parse_open_output, parse_ready_output,
  parse_prepare_output, parse_commit_output,
}
use mumu_autotask.Business.March.Stages.{IsStage, parse_target_stage_iff}
use mumu_autotask.Business.March.Stamina.{
  IsStaminaAnswer, prepared_stage, committed_stage, parse_prepare_output_iff,
  parse_commit_output_iff,
}
use mumu_autotask.Business.Verify.{
  check_quest_status, check_event, check_proof, parse_verify_output,
}
use mumu_autotask.Business.Verify.Accepted.{IsVerified, parse_verify_output_sound}
use mumu_autotask.Business.Commit.{
  parse_heroes, parse_battle_commit_output, parse_battle_verify_output,
}
use mumu_autotask.Business.Commit.Battles.{hero_lines, parse_battle_commit_output_sound}
use mumu_autotask.Examples.Answers.{
  fields_of, answer, device_roles, item, commit_answer, committed, prepare_answer, prepared,
  open_answer, ready_answer, verify_answer,
}
use mumu_autotask.Python.Unicode.{strip, lower}
use mumu_autotask.Business.Tables.{lookup, normalize_quality}
use mumu_autotask.Business.Intel.{parse_item}
use mumu_autotask.Business.March.{MarchReceipt, as_item, parse_march_output}
use mumu_autotask.Business.March.Sent.{IsSent, parse_march_output-IsSent}
use mumu_autotask.Examples.Fields.{device_roles-IsWhitelist}

abbrev open_lines : Lines
open_lines = fields_of (
    ("MUMU_AUTOTASK" ∷ "1" ∷ "OPEN" ∷ [])
    ∷ ("ROLE" ∷ "616263" ∷ [])
    ∷ ("KINGDOM" ∷ "4549" ∷ [])
    ∷ ("TARGET" ∷ "7" ∷ [])
    ∷ ("OPENED" ∷ "1" ∷ [])
    ∷ ("END" ∷ "1" ∷ [])
    ∷ [])

parse_target_stage_iff_example :
    (parse_target_stage (str open_answer) "OPEN" (items (map str device_roles)) item
      ≡ ok open_lines)
    ↔ IsStage "OPEN" device_roles item open_answer open_lines
parse_target_stage_iff_example =
    parse_target_stage_iff open_answer "OPEN" device_roles item device_roles-IsWhitelist open_lines

open_read : parse_open_output (str open_answer) (items (map str device_roles)) item ≡ ok tt
unfolding protocol_lines parse_kingdom_line parse_role parse_integer any_empty is_bit is_flag
    is_pair has_tag validate_role_whitelist check_role render collect Collect.member hex is_hex
    from_hex encode encode_char decode str_of is_canonical int_of lit same same_fields member any
    split join strip lower lookup parse_target_stage parse_open_output
open_read = refl

ready_read : parse_ready_output (str ready_answer) (items (map str device_roles)) item ≡ ok false
unfolding protocol_lines parse_kingdom_line parse_role parse_integer any_empty is_bit is_flag
    is_pair has_tag validate_role_whitelist check_role render collect Collect.member hex is_hex
    from_hex encode encode_char decode str_of is_canonical int_of lit same same_fields member any
    split join strip lower lookup parse_target_stage parse_ready_output
ready_read = refl

prepare_read :
    parse_prepare_output (str prepare_answer) (items (map str device_roles)) item ≡ ok prepared
unfolding protocol_lines parse_kingdom_line parse_role parse_integer any_empty is_bit is_flag
    is_pair has_tag validate_role_whitelist check_role render collect Collect.member hex is_hex
    from_hex encode encode_char decode str_of is_canonical int_of lit same same_fields member any
    split join strip lower lookup parse_target_stage parse_stamina_stage stamina_outcome
    parse_prepare_output
prepare_read = refl

parse_prepare_output_iff_example :
    (parse_prepare_output (str prepare_answer) (items (map str device_roles)) item ≡ ok prepared)
    ↔ IsStaminaAnswer "PREPARE" "READY" device_roles item prepare_answer (prepared_stage prepared)
parse_prepare_output_iff_example =
    parse_prepare_output_iff prepare_answer device_roles item device_roles-IsWhitelist prepared

commit_read :
    parse_commit_output (str commit_answer) (items (map str device_roles)) item ≡ ok committed
unfolding protocol_lines parse_kingdom_line parse_role parse_integer any_empty is_bit is_flag
    is_pair has_tag validate_role_whitelist check_role render collect Collect.member hex is_hex
    from_hex encode encode_char decode str_of is_canonical int_of lit same same_fields member any
    split join strip lower lookup parse_target_stage parse_stamina_stage stamina_outcome
    parse_commit_output
commit_read = refl

parse_commit_output_iff_example :
    (parse_commit_output (str commit_answer) (items (map str device_roles)) item ≡ ok committed)
    ↔ IsStaminaAnswer "COMMIT" "GO" device_roles item commit_answer (committed_stage committed)
parse_commit_output_iff_example =
    parse_commit_output_iff commit_answer device_roles item device_roles-IsWhitelist committed

verify_read :
    parse_verify_output (str verify_answer) (items (map str device_roles)) item ≡ ok (true, lit "2")
unfolding protocol_lines parse_kingdom_line parse_role parse_integer any_empty is_bit is_flag
    is_pair has_tag validate_role_whitelist check_role render collect Collect.member hex is_hex
    from_hex encode encode_char decode str_of is_canonical int_of lit same same_fields member any
    split join strip lower lookup parse_target_stage check_quest_status check_event check_proof
    parse_verify_output
verify_read = refl

parse_verify_output_sound_example : IsVerified device_roles item verify_answer true (lit "2")
parse_verify_output_sound_example =
    parse_verify_output_sound verify_answer device_roles item true (lit "2")
      device_roles-IsWhitelist verify_read

abbrev hero_target : BattleIntelItem
hero_target = record {
  runtime_id = 8;
  quest_id = 4;
  status = 1;
  world_x = 10;
  world_y = 20;
  expires_at = 6000;
  category = lit "hero";
  quest_type = 3;
  quality = lit "green";
  quality_id = 2;
  condition = 0;
  level = 5;
  stamina_cost = 0;
  power_level = 0;
}

abbrev heroes : List ℕ
heroes = 31 ∷ 45 ∷ []

abbrev hero_answer : Text
hero_answer = answer "BATTLE_COMMIT" (
    ("TARGET" ∷ "8" ∷ [])
    ∷ ("START" ∷ "1" ∷ [])
    ∷ ("END_REQUEST" ∷ "1" ∷ [])
    ∷ ("HERO" ∷ "1" ∷ "31" ∷ [])
    ∷ ("HERO" ∷ "2" ∷ "45" ∷ [])
    ∷ ("END" ∷ "1" ∷ [])
    ∷ [])

heroes_read :
    parse_battle_commit_output (str hero_answer) (items (map str device_roles)) hero_target
    ≡ ok heroes
unfolding protocol_lines parse_kingdom_line parse_role parse_integer any_empty is_bit is_flag
    is_pair has_tag validate_role_whitelist check_role render collect Collect.member hex is_hex
    from_hex encode encode_char decode str_of is_canonical int_of lit same same_fields member any
    split join strip lower lookup normalize_battle_category parse_heroes parse_battle_commit_output
heroes_read = refl

parse_battle_commit_output_sound_example :
    (normalize_battle_category (str hero_target.category) ≡ ok (lit "hero"))
    × (heroes ≢ [])
    × All (λ n. Readable false n) heroes
    × ((lines : Lines) × (protocol_lines (str hero_answer) "BATTLE_COMMIT" ≡ ok lines)
        × (line lines 3 ≡ lit "TARGET" ∷ str_of hero_target.runtime_id ∷ [])
        × (init (drop 6 lines) ≡ hero_lines 1 heroes))
parse_battle_commit_output_sound_example =
    parse_battle_commit_output_sound (str hero_answer) (items (map str device_roles)) hero_target
      heroes heroes_read

abbrev ended_answer : Text
ended_answer =
    answer "BATTLE_VERIFY"
      (("TARGET" ∷ "8" ∷ []) ∷ ("ACCEPTED" ∷ "1" ∷ "STATUS" ∷ "3" ∷ []) ∷ ("END" ∷ "1" ∷ []) ∷ [])

ended_read :
    parse_battle_verify_output (str ended_answer) (items (map str device_roles)) hero_target
    ≡ ok (true, lit "3")
unfolding protocol_lines parse_kingdom_line parse_role parse_integer any_empty is_bit is_flag
    is_pair has_tag validate_role_whitelist check_role render collect Collect.member hex is_hex
    from_hex encode encode_char decode str_of is_canonical int_of lit same same_fields member any
    split join strip lower lookup check_quest_status parse_battle_verify_output
ended_read = refl

abbrev sent_answer : Text
sent_answer = answer "MARCH" (
    ("QUALITY" ∷ "blue" ∷ "3" ∷ [])
    ∷ ("TARGET" ∷ "7" ∷ "3" ∷ "1" ∷ "100" ∷ "200" ∷ "5000" ∷ "blue" ∷ "3" ∷ "9" ∷ "12" ∷ "25"
        ∷ "800" ∷ [])
    ∷ ("AVERAGE" ∷ "1" ∷ [])
    ∷ ("SENT" ∷ "1" ∷ [])
    ∷ ("END" ∷ "1" ∷ [])
    ∷ [])

abbrev sent : MarchReceipt
sent = record {
  role = lit "abc";
  kingdom = 4549;
  quality = lit "blue";
  quality_id = 3;
  target = item;
  request_dispatched = true;
}

sent_read :
    parse_march_output (str sent_answer) (items (map str device_roles)) (str (lit "blue")) ≡ ok sent
unfolding protocol_lines parse_kingdom_line parse_role parse_integer any_empty is_bit is_flag
    is_pair has_tag validate_role_whitelist check_role render collect Collect.member hex is_hex
    from_hex encode encode_char decode str_of is_canonical int_of lit same same_fields member any
    split join strip lower lookup normalize_quality as_item parse_item parse_march_output
sent_read = refl

parse_march_output-IsSent_example : IsSent device_roles (str (lit "blue")) sent_answer sent
parse_march_output-IsSent_example =
    parse_march_output-IsSent sent_answer device_roles (str (lit "blue")) sent
      device_roles-IsWhitelist sent_read
