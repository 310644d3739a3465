-- ===== src/Kingdom.antt =====
-- kingdom.py: the guard that the device's files name one allowed kingdom. What adb reads, how
-- ElementTree takes a document apart, and the number syntax of `int(text, 10)` are parameters.
pub mod Agreed
use mumu_autotask.Prelude.{
  ℕ, Bool, true, false, not, ◌&&◌, ◌||◌, List, [], ◌∷◌, Option, none, some, ◌==◌, if◌then◌else◌,
  Result, ok, ◌>>=◌, ◌>>◌, fail, raise_if,
}
use mumu_autotask.Python.Value.{Text, ℤ, pos, negsuc}
use mumu_autotask.Python.Text.{lit, same}
use mumu_autotask.Python.Unicode.{strip}

-- An XML element: its attributes `name` and `value`, and its text.
pub record Element : Type 0 where
  pub name : Option Text
  pub value : Option Text
  pub content : Option Text

-- What the guard uses of a device profile.
pub record DeviceProfile : Type 0 where
  pub serial : Text
  pub package_name : Text
  pub resolved_playerprefs_path : Text

pub record KingdomStatus : Type 0 where
  pub serial : Text
  pub playerprefs_kingdom : ℤ
  pub sdk_server_id : ℤ
  pub playerprefs_path : Text
  pub sdk_preferences_path : Text

abbrev pub playerprefs_key : Text
playerprefs_key = lit "__KEY_KINGDOM__"

abbrev pub sdk_server_key : Text
sdk_server_key = lit "CONTEXT_UTILS_RECENTLY_SERVERID"

abbrev pub playerprefs_path : Text
playerprefs_path = lit "/data/data/com.gof.global/shared_prefs/com.gof.global.v2.playerprefs.xml"

abbrev pub sdk_prefs_path : Text
sdk_prefs_path = lit "/data/data/com.gof.global/shared_prefs/com.cg.sdk.xml"

abbrev pub default_package : Text
default_package = lit "com.gof.global"

unfoldable pub same_integer : ℤ → ℤ → Bool
same_integer (pos a) (pos b) = a == b
same_integer (negsuc a) (negsuc b) = a == b
same_integer _ _ = false

-- `element.attrib.get("name") == key`
unfoldable pub is_named : Text → Element → Bool
is_named key element = elim element.name [ none ↦ false | some name ↦ same name key ]

unfoldable pub named_elements : Text → List Element → List Element
named_elements key [] = []
named_elements key (e ∷ es) =
    let rest = named_elements key es in if is_named key e then e ∷ rest else rest

-- `attrib.get("value", text or "")`
unfoldable pub raw_value : Element → Text
raw_value element = elim element.value [
  | some value ↦ value
  | none ↦ elim element.content [ some content ↦ content | none ↦ [] ]
]

module _ (parse_xml : Text → Option (List Element)) (read_int : Text → Option ℤ) where
  unfoldable pub integer_of : Element → Result ℤ
  integer_of element = elim (read_int (strip (raw_value element))) [
    | none ↦ fail "{key} in {source} is not an integer: {raw_value!r}"
    | some n ↦ ok n
  ]

  unfoldable pub unique_integer : List Element → Result ℤ
  unique_integer (element ∷ []) = integer_of element
  unique_integer _ = fail "{source} must contain exactly one {key} entry; found {len(matches)}"

  unfoldable pub parse_unique_integer_preference : Text → Text → Result ℤ
  parse_unique_integer_preference xml_text key = elim (parse_xml xml_text) [
    | none ↦ fail "{source} is not valid XML: {exc}"
    | some elements ↦ unique_integer (named_elements key elements)
  ]

  unfoldable pub parse_playerprefs_kingdom : Text → Result ℤ
  parse_playerprefs_kingdom xml_text = parse_unique_integer_preference xml_text playerprefs_key

  unfoldable pub parse_sdk_server_id : Text → Result ℤ
  parse_sdk_server_id xml_text = parse_unique_integer_preference xml_text sdk_server_key

  -- `shell serial path` is `adb.shell(serial, "su", "0", "cat", path)`.
  module _ (shell : Text → Text → Result Text) where
    -- `KingdomGuard.read`
    unfoldable pub read_status : DeviceProfile → Result KingdomStatus
    read_status profile = do
      raise_if (not (same profile.package_name default_package))
          "{profile.serial}: only package {DEFAULT_PACKAGE!r} is permitted"
      raise_if (not (same profile.resolved_playerprefs_path playerprefs_path))
          "{profile.serial}: refusing non-canonical PlayerPrefs path {path!r}"
      playerprefs_xml ← shell profile.serial playerprefs_path
      sdk_xml ← shell profile.serial sdk_prefs_path
      kingdom ← parse_playerprefs_kingdom playerprefs_xml
      server ← parse_sdk_server_id sdk_xml
      ok (record {
        serial = profile.serial;
        playerprefs_kingdom = kingdom;
        sdk_server_id = server;
        playerprefs_path = playerprefs_path;
        sdk_preferences_path = sdk_prefs_path;
      })

    -- The test of `KingdomGuard.require` against `allowed_kingdom`.
    unfoldable pub is_other_kingdom : Option ℤ → KingdomStatus → Bool
    is_other_kingdom none status = false
    is_other_kingdom (some allowed) status =
        not (same_integer status.playerprefs_kingdom allowed)
        || not (same_integer status.sdk_server_id allowed)

    -- `KingdomGuard.require`, for `self.allowed_kingdom`
    unfoldable pub require : Option ℤ → DeviceProfile → Result KingdomStatus
    require allowed_kingdom profile = do
      status ← read_status profile
      raise_if (not (same_integer status.playerprefs_kingdom status.sdk_server_id))
          "{profile.serial}: kingdom sources disagree: PlayerPrefs={status.playerprefs_kingdom}, SDK={status.sdk_server_id}"
      raise_if (is_other_kingdom allowed_kingdom status)
          "{profile.serial}: active kingdom is {status.playerprefs_kingdom}; only {self.allowed_kingdom} is allowed"
      ok status
