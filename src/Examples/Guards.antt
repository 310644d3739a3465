-- ===== src/Examples/Guards.antt =====
-- The kingdom guard on a device whose files name kingdom 4549.
use mumu_autotask.Prelude.{◌≡◌, refl, List, [], ◌∷◌, Option, none, some, Result, ok, err}
use mumu_autotask.Python.Value.{Text, ℤ, pos}
use mumu_autotask.Python.Text.{lit, same}
use mumu_autotask.Python.Decimal.{int_of}
use mumu_autotask.Python.Unicode.{strip}
use mumu_autotask.Kingdom.{
  Element, DeviceProfile, KingdomStatus, playerprefs_key, sdk_server_key, playerprefs_path,
  sdk_prefs_path, same_integer, is_named, named_elements, raw_value, integer_of, unique_integer,
  parse_unique_integer_preference, parse_playerprefs_kingdom, parse_sdk_server_id, read_status,
  is_other_kingdom, require,
}
use mumu_autotask.Kingdom.Agreed.{IsGuarded, require-IsGuarded}

-- Every document has an entry for each key: one in the attribute, and one in the text.
abbrev two_entries : Text → Option (List Element)
two_entries xml_text = some (
    record { name = some playerprefs_key; value = some (lit "4549"); content = none }
    ∷ record { name = some sdk_server_key; value = none; content = some (lit " 4549 ") }
    ∷ [])

abbrev decimal : Text → Option ℤ
decimal s = elim (int_of s) [ ok n ↦ some (pos n) | err e ↦ none ]

-- A device that returns the path of the file for its content.
abbrev echo_path : Text → Text → Result Text
echo_path serial path = ok path

abbrev profile : DeviceProfile
profile = record {
  serial = lit "127.0.0.1:16384";
  package_name = lit "com.gof.global";
  resolved_playerprefs_path =
      lit "/data/data/com.gof.global/shared_prefs/com.gof.global.v2.playerprefs.xml";
}

abbrev status : KingdomStatus
status = record {
  serial = lit "127.0.0.1:16384";
  playerprefs_kingdom = pos 4549;
  sdk_server_id = pos 4549;
  playerprefs_path = playerprefs_path;
  sdk_preferences_path = sdk_prefs_path;
}

guard_passes : require two_entries decimal echo_path (some (pos 4549)) profile ≡ ok status
unfolding same_integer is_named named_elements raw_value integer_of unique_integer
    parse_unique_integer_preference parse_playerprefs_kingdom parse_sdk_server_id read_status
    is_other_kingdom require lit same int_of strip
guard_passes = refl

require-IsGuarded_example : IsGuarded two_entries decimal echo_path (some (pos 4549)) profile status
require-IsGuarded_example =
    require-IsGuarded two_entries decimal echo_path (some (pos 4549)) profile status guard_passes
