-- ===== src/Examples/Fields.antt =====
-- Numbers, roles, ids and lines at concrete inputs.
use mumu_autotask.Prelude.{◌≡◌, ◌↔◌, ◌⊎◌, refl, true, false, [], ◌∷◌, map, ok}
use mumu_autotask.Python.Value.{str, items}
use mumu_autotask.Python.Text.{lit, same, same_fields, member, any, split, join}
use mumu_autotask.Python.Decimal.{str_of, is_canonical, int_of}
use mumu_autotask.Python.Unicode.{encode, encode_char, decode, strip, lower}
use mumu_autotask.Python.Hex.{hex, is_hex, from_hex}
use mumu_autotask.Python.Collect
use mumu_autotask.Python.Collect.{collect}
use mumu_autotask.Business.Tables.{lookup, normalize_quality, normalize_battle_category}
use mumu_autotask.Business.Roles.{validate_role_whitelist, check_role}
use mumu_autotask.Business.Roles.Whitelist.{IsWhitelist, validate_role_whitelist_iff}
use mumu_autotask.Business.Ids.{check_positive, normalize_target_ids}
use mumu_autotask.Business.Ids.Valid.{number, IsIds, normalize_target_ids_iff}
use mumu_autotask.Business.Wire.{
  Lines, has_tag, is_pair, is_flag, is_bit, any_empty, parse_integer, parse_role,
  parse_kingdom_line, protocol_lines,
}
use mumu_autotask.Business.Wire.Lines.{render, IsAnswer, protocol_lines_iff}
use mumu_autotask.Business.Wire.Numbers.{Readable, parse_integer_iff}
use mumu_autotask.Business.Wire.Identity.{Names, parse_role_iff}
use mumu_autotask.LuaSafety.{normalize_lua, require_safe_lua, remove_semicolon, collapse_spaces}
use mumu_autotask.LuaSafety.Spelling.{IsBlank}
use mumu_autotask.LuaSafety.Probes.{IsProbe, require_safe_lua_iff}
use mumu_autotask.Examples.Answers.{fields_of, device_roles, one_value, open_answer}

forty_two : parse_integer (lit "42") true ≡ ok 42
unfolding protocol_lines parse_kingdom_line parse_role parse_integer any_empty is_bit is_flag
    is_pair has_tag validate_role_whitelist check_role render collect Collect.member hex is_hex
    from_hex encode encode_char decode str_of is_canonical int_of lit same same_fields member any
    split join strip lower lookup
forty_two = refl

parse_integer_iff_example :
    (parse_integer (lit "42") true ≡ ok 42) ↔ ((lit "42" ≡ str_of 42) × Readable true 42)
parse_integer_iff_example = parse_integer_iff (lit "42") true 42

pub validated : validate_role_whitelist (items (map str device_roles)) ≡ ok device_roles
unfolding protocol_lines parse_kingdom_line parse_role parse_integer any_empty is_bit is_flag
    is_pair has_tag validate_role_whitelist check_role render collect Collect.member hex is_hex
    from_hex encode encode_char decode str_of is_canonical int_of lit same same_fields member any
    split join strip lower lookup
validated = refl

pub device_roles-IsWhitelist : IsWhitelist device_roles
device_roles-IsWhitelist =
    ((validate_role_whitelist_iff (map str device_roles) device_roles).0 validated).1

validate_role_whitelist_iff_example :
    (validate_role_whitelist (items (map str device_roles)) ≡ ok device_roles)
    ↔ ((map str device_roles ≡ map str device_roles) × IsWhitelist device_roles)
validate_role_whitelist_iff_example =
    validate_role_whitelist_iff (map str device_roles) device_roles

role_read : parse_role (lit "616263") (items (map str device_roles)) ≡ ok (lit "abc")
unfolding protocol_lines parse_kingdom_line parse_role parse_integer any_empty is_bit is_flag
    is_pair has_tag validate_role_whitelist check_role render collect Collect.member hex is_hex
    from_hex encode encode_char decode str_of is_canonical int_of lit same same_fields member any
    split join strip lower lookup
role_read = refl

parse_role_iff_example :
    (parse_role (lit "616263") (items (map str device_roles)) ≡ ok (lit "abc"))
    ↔ Names device_roles (lit "abc") (lit "616263")
parse_role_iff_example =
    parse_role_iff (lit "616263") device_roles (lit "abc") device_roles-IsWhitelist

ids_read : normalize_target_ids (items one_value) ≡ ok (7 ∷ [])
unfolding normalize_target_ids check_positive collect Collect.member
ids_read = refl

normalize_target_ids_iff_example :
    (normalize_target_ids (items one_value) ≡ ok (7 ∷ []))
    ↔ ((one_value ≡ map number (7 ∷ [])) × IsIds 128 (7 ∷ []))
normalize_target_ids_iff_example = normalize_target_ids_iff one_value (7 ∷ [])

abbrev open_lines : Lines
open_lines = fields_of (
    ("MUMU_AUTOTASK" ∷ "1" ∷ "OPEN" ∷ [])
    ∷ ("ROLE" ∷ "616263" ∷ [])
    ∷ ("KINGDOM" ∷ "4549" ∷ [])
    ∷ ("TARGET" ∷ "7" ∷ [])
    ∷ ("OPENED" ∷ "1" ∷ [])
    ∷ ("END" ∷ "1" ∷ [])
    ∷ [])

open_split : protocol_lines (str open_answer) "OPEN" ≡ ok open_lines
unfolding protocol_lines parse_kingdom_line parse_role parse_integer any_empty is_bit is_flag
    is_pair has_tag validate_role_whitelist check_role render collect Collect.member hex is_hex
    from_hex encode encode_char decode str_of is_canonical int_of lit same same_fields member any
    split join strip lower lookup
open_split = refl

protocol_lines_iff_example :
    (protocol_lines (str open_answer) "OPEN" ≡ ok open_lines)
    ↔ ((open_answer ≡ render open_lines) × IsAnswer "OPEN" open_lines)
protocol_lines_iff_example = protocol_lines_iff open_answer "OPEN" open_lines

orange : normalize_quality (str (lit " Orange ")) ≡ ok (lit "yellow")
unfolding protocol_lines parse_kingdom_line parse_role parse_integer any_empty is_bit is_flag
    is_pair has_tag validate_role_whitelist check_role render collect Collect.member hex is_hex
    from_hex encode encode_char decode str_of is_canonical int_of lit same same_fields member any
    split join strip lower lookup normalize_quality
orange = refl

journey : normalize_battle_category (str (lit "HERO_journey")) ≡ ok (lit "hero")
unfolding protocol_lines parse_kingdom_line parse_role parse_integer any_empty is_bit is_flag
    is_pair has_tag validate_role_whitelist check_role render collect Collect.member hex is_hex
    from_hex encode encode_char decode str_of is_canonical int_of lit same same_fields member any
    split join strip lower lookup normalize_battle_category
journey = refl

version_probe : require_safe_lua (lit " return  _VERSION; ") false ≡ ok tt
unfolding protocol_lines parse_kingdom_line parse_role parse_integer any_empty is_bit is_flag
    is_pair has_tag validate_role_whitelist check_role render collect Collect.member hex is_hex
    from_hex encode encode_char decode str_of is_canonical int_of lit same same_fields member any
    split join strip lower lookup require_safe_lua normalize_lua remove_semicolon collapse_spaces
version_probe = refl

require_safe_lua_iff_example : (require_safe_lua (lit " return  _VERSION; ") false ≡ ok tt) ↔ (
    ((¬ IsBlank (lit " return  _VERSION; ")) × (false ≡ true))
    ⊎ IsProbe (lit " return  _VERSION; "))
require_safe_lua_iff_example = require_safe_lua_iff (lit " return  _VERSION; ") false
