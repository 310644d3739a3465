-- ===== src/Examples/Targets.antt =====
-- Intelligence listings and their targets at concrete inputs.
use mumu_autotask.Prelude.{
  ℕ, ◌≡◌, ◌↔◌, ◌⊎◌, refl, List, [], ◌∷◌, map, none, ok, String, drop, init, arith, fail, traverse,
}
use mumu_autotask.Python.Value.{Text, str, items, none_value}
use mumu_autotask.Python.Text.{lit, same, same_fields, member, any, split, join}
use mumu_autotask.Python.Decimal.{str_of, is_canonical, int_of}
use mumu_autotask.Python.Unicode.{encode, encode_char, decode, strip, lower}
use mumu_autotask.Python.Hex.{hex, is_hex, from_hex}
use mumu_autotask.Python.Collect
use mumu_autotask.Python.Collect.{collect}
use mumu_autotask.Python.Sorting.{sorted, tuple_lt, min_by}
use mumu_autotask.Business.Tables.{lookup, normalize_quality, normalize_battle_category}
use mumu_autotask.Business.Roles.{validate_role_whitelist, check_role}
use mumu_autotask.Business.Ids.{check_positive, normalize_target_ids}
use mumu_autotask.Business.Ids.Valid.{number}
use mumu_autotask.Business.Wire.{
  Lines, has_tag, is_pair, is_flag, is_bit, any_empty, parse_integer, parse_role,
  parse_kingdom_line, protocol_lines,
}
use mumu_autotask.Business.Wire.Lines.{render}
use mathlib.Core.List.{Memᴰ}
use mumu_autotask.Business.Intel.{
  IntelItem, parse_item, parse_items, parse_intel_output, parse_stamina_line, same_item, same_list,
  has_duplicate,
}
use mumu_autotask.Business.Intel.Items.{IsItem, item_fields, parse_item_iff}
use mumu_autotask.Business.Intel.Accepted.{IsIntelAnswer, parse_intel_output_iff}
use mumu_autotask.Business.Battle.{
  BattleIntelItem, BattleIntelSnapshot, parse_battle_item, same_battle_item, any_other_category,
  parse_battle_items, parse_battle_intel_output,
}
use mumu_autotask.Business.Battle.Listing.{IsBattleListing, parse_battle_intel_output_sound}
use mumu_autotask.Business.Select.{select_march_target, keep_if, first_least}
use mumu_autotask.Business.Select.Chosen.{
  IsChoice, NoneAvailable, select_march_target_earliest, select_march_target_exact,
}
use mumu_autotask.Business.Constants.{target_constants, target_template}
use mumu_autotask.Business.Constants.Chosen.{target_constants-select}
use mumu_autotask.Business.Status.{
  parse_target_line, parse_target_lines, parse_intel_status_output, parse_claim_intel_output,
}
use mumu_autotask.Business.Status.Tracked.{IsTracked, parse_intel_status_output_sound}
use mumu_autotask.Business.Status.Claimed.{IsClaim, parse_claim_intel_output_sound}
use mumu_autotask.Examples.Answers.{
  answer, device_roles, one_value, item_line, item, snapshot, intel_answer, claim_answer, claim,
  status_answer, tracked,
}
use mumu_autotask.Examples.Fields.{device_roles-IsWhitelist}

item_read : parse_item (map lit item_line) ≡ ok item
unfolding protocol_lines parse_kingdom_line parse_role parse_integer any_empty is_bit is_flag
    is_pair has_tag validate_role_whitelist check_role render collect Collect.member hex is_hex
    from_hex encode encode_char decode str_of is_canonical int_of lit same same_fields member any
    split join strip lower lookup parse_item normalize_quality
item_read = refl

parse_item_iff_example :
    (parse_item (map lit item_line) ≡ ok item)
    ↔ ((map lit item_line ≡ item_fields item) × IsItem item)
parse_item_iff_example = parse_item_iff (map lit item_line) item

intel_read : parse_intel_output (str intel_answer) (items (map str device_roles)) ≡ ok snapshot
unfolding protocol_lines parse_kingdom_line parse_role parse_integer any_empty is_bit is_flag
    is_pair has_tag validate_role_whitelist check_role render collect Collect.member hex is_hex
    from_hex encode encode_char decode str_of is_canonical int_of lit same same_fields member any
    split join strip lower lookup parse_item normalize_quality parse_items parse_intel_output
    parse_stamina_line same_item same_list has_duplicate sorted tuple_lt
intel_read = refl

parse_intel_output_iff_example :
    (parse_intel_output (str intel_answer) (items (map str device_roles)) ≡ ok snapshot)
    ↔ IsIntelAnswer device_roles intel_answer snapshot
parse_intel_output_iff_example =
    parse_intel_output_iff intel_answer device_roles device_roles-IsWhitelist snapshot

blue : normalize_quality (str (lit "blue")) ≡ ok (lit "blue")
unfolding protocol_lines parse_kingdom_line parse_role parse_integer any_empty is_bit is_flag
    is_pair has_tag validate_role_whitelist check_role render collect Collect.member hex is_hex
    from_hex encode encode_char decode str_of is_canonical int_of lit same same_fields member any
    split join strip lower lookup normalize_quality
blue = refl

blue_chosen : select_march_target snapshot (str (lit "blue")) none_value ≡ ok item
unfolding protocol_lines parse_kingdom_line parse_role parse_integer any_empty is_bit is_flag
    is_pair has_tag validate_role_whitelist check_role render collect Collect.member hex is_hex
    from_hex encode encode_char decode str_of is_canonical int_of lit same same_fields member any
    split join strip lower lookup normalize_quality select_march_target keep_if first_least min_by
    tuple_lt
blue_chosen = refl

select_march_target_earliest_example :
    ((target : IntelItem) × (select_march_target snapshot (str (lit "blue")) none_value ≡ ok target)
      × IsChoice (lit "blue") snapshot.items target)
    ⊎ ((select_march_target snapshot (str (lit "blue")) none_value
          ≡ fail "no available {requested} skull intelligence was found")
        × NoneAvailable (lit "blue") snapshot.items)
select_march_target_earliest_example =
    select_march_target_earliest snapshot (str (lit "blue")) (lit "blue") blue

select_march_target_exact_example :
    (select_march_target snapshot (str (lit "blue")) (number 7) ≡ ok item) ↔ (
      Memᴰ item snapshot.items
      × (item.runtime_id ≡ 7)
      × (item.status ≡ 1)
      × (item.quality ≡ lit "blue"))
select_march_target_exact_example =
    select_march_target_exact snapshot (str (lit "blue")) (lit "blue") 7 item blue (omega arith)
      (tt, tt)

target_constants-select_example : target_constants item ≡ ok (target_template item)
target_constants-select_example =
    target_constants-select intel_answer device_roles snapshot (str (lit "blue")) (lit "blue") none
      item device_roles-IsWhitelist intel_read blue blue_chosen

abbrev battle_item : BattleIntelItem
battle_item = record {
  runtime_id = 8;
  quest_id = 4;
  status = 1;
  world_x = 10;
  world_y = 20;
  expires_at = 6000;
  category = lit "hero";
  quest_type = 3;
  quality = lit "green";
  quality_id = 2;
  condition = 0;
  level = 5;
  stamina_cost = 0;
  power_level = 0;
}

abbrev battle_snapshot : BattleIntelSnapshot
battle_snapshot = record { role = lit "abc"; kingdom = 4549; items = battle_item ∷ [] }

abbrev battle_lines : List (List String)
battle_lines =
    ("ITEM" ∷ "8" ∷ "4" ∷ "1" ∷ "10" ∷ "20" ∷ "6000" ∷ "hero" ∷ "3" ∷ "green" ∷ "2" ∷ "0" ∷ "5"
      ∷ "0" ∷ "0" ∷ [])
    ∷ ("END" ∷ "1" ∷ [])
    ∷ []

battle_read :
    parse_battle_intel_output
      (str (answer "BATTLE_INTEL" battle_lines))
      (items (map str device_roles))
      (str (lit "hero"))
    ≡ ok battle_snapshot
unfolding protocol_lines parse_kingdom_line parse_role parse_integer any_empty is_bit is_flag
    is_pair has_tag validate_role_whitelist check_role render collect Collect.member hex is_hex
    from_hex encode encode_char decode str_of is_canonical int_of lit same same_fields member any
    split join strip lower lookup normalize_quality normalize_battle_category parse_battle_item
    same_battle_item any_other_category parse_battle_items parse_battle_intel_output same_list
    has_duplicate sorted tuple_lt
battle_read = refl

parse_battle_intel_output_sound_example :
    (category : Text) × (lines : Lines) × (normalize_battle_category (str (lit "hero"))
      ≡ ok category)
    × (protocol_lines (str (answer "BATTLE_INTEL" battle_lines)) "BATTLE_INTEL" ≡ ok lines)
    × IsBattleListing category battle_snapshot.items
    × (traverse parse_battle_item (init (drop 3 lines)) ≡ ok battle_snapshot.items)
parse_battle_intel_output_sound_example =
    parse_battle_intel_output_sound (str (answer "BATTLE_INTEL" battle_lines))
      (items (map str device_roles)) (str (lit "hero")) battle_snapshot battle_read

status_read :
    parse_intel_status_output (str status_answer) (items (map str device_roles)) (items one_value)
    ≡ ok tracked
unfolding protocol_lines parse_kingdom_line parse_role parse_integer any_empty is_bit is_flag
    is_pair has_tag validate_role_whitelist check_role render collect Collect.member hex is_hex
    from_hex encode encode_char decode str_of is_canonical int_of lit same same_fields member any
    split join strip lower lookup normalize_target_ids check_positive parse_target_line
    parse_target_lines parse_intel_status_output
status_read = refl

parse_intel_status_output_sound_example :
    (ids : List ℕ) × (lines : Lines) × (one_value ≡ map number ids)
    × (protocol_lines (str status_answer) "INTEL_STATUS" ≡ ok lines)
    × IsTracked ids lines tracked
parse_intel_status_output_sound_example =
    parse_intel_status_output_sound (str status_answer) (items (map str device_roles)) one_value
      tracked status_read

claim_read :
    parse_claim_intel_output (str claim_answer) (items (map str device_roles)) (items one_value)
    ≡ ok claim
unfolding protocol_lines parse_kingdom_line parse_role parse_integer any_empty is_bit is_flag
    is_pair has_tag validate_role_whitelist check_role render collect Collect.member hex is_hex
    from_hex encode encode_char decode str_of is_canonical int_of lit same same_fields member any
    split join strip lower lookup normalize_target_ids check_positive parse_claim_intel_output
claim_read = refl

parse_claim_intel_output_sound_example :
    (ids : List ℕ) × (one_value ≡ map number ids) × IsClaim device_roles ids claim_answer claim
parse_claim_intel_output_sound_example =
    parse_claim_intel_output_sound claim_answer device_roles one_value claim
      device_roles-IsWhitelist claim_read
