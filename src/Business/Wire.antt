-- ===== src/Business/Wire.antt =====
-- business.py: the lines and fields of an answer, and the fields that every answer has.
pub mod Lines
pub mod Numbers
pub mod Identity
pub mod Frame
use mumu_autotask.Prelude.{
  ℕ, Bool, true, false, not, ◌&&◌, ◌||◌, ◌≡◌, List, [], ◌∷◌, map, Option, none, some, ltb, ◌==◌,
  length, is_empty, get_or, get_last_or, String, Result, ok, err, ◌>>=◌, ◌>>◌, fail, raise_if,
}
use mumu_autotask.Python.Value.{Text, Value, Sequence, str}
use mumu_autotask.Python.Text.{lit, same, same_fields, contains, split}
use mumu_autotask.Python.Decimal.{is_canonical, int_of}
use mumu_autotask.Python.Unicode.{encode, decode}
use mumu_autotask.Python.Hex.{is_hex, from_hex}
use mumu_autotask.Python.Collect.{member}
use mumu_autotask.Business.Roles.{validate_role_whitelist}

-- The fields of a line, and the lines of an answer.
abbrev pub Fields : Type 0
Fields = List Text

abbrev pub Lines : Type 0
Lines = List Fields

-- `lines[i]` and `fields[i]`, where the guards before have shown that there is one.
abbrev pub line : Lines → ℕ → Fields
line lines i = get_or lines i []

infixl 80 ◌‼◌
abbrev pub ◌‼◌ : Fields → ℕ → Text
fields ‼ i = get_or fields i []

-- `lines[-1]`
abbrev pub last_line : Lines → Fields
last_line lines = get_last_or lines []

-- `len(fields) == count and fields[0] == tag`
unfoldable pub has_tag : Fields → ℕ → String → Bool
has_tag fields count tag = (length fields == count) && same (fields ‼ 0) (lit tag)

-- `fields == [tag, value]`
unfoldable pub is_pair : Fields → String → Text → Bool
is_pair fields tag value = same_fields fields (lit tag ∷ value ∷ [])

-- `fields in ([tag, "0"], [tag, "1"])`
unfoldable pub is_flag : Fields → String → Bool
unfolding is_pair
is_flag fields tag = is_pair fields tag (lit "0") || is_pair fields tag (lit "1")

-- `value in {"0", "1"}`
unfoldable pub is_bit : Text → Bool
is_bit value = same value (lit "0") || same value (lit "1")

abbrev pub tab : ℕ
tab = 9

abbrev pub newline : ℕ
newline = 10

abbrev pub carriage_return : ℕ
carriage_return = 13

unfoldable pub parse_integer : Text → Bool → Result ℕ
parse_integer value allow_zero = do
  raise_if (not (is_canonical value)) "{location} is not a canonical non-negative integer"
  result ← int_of value
  raise_if (not allow_zero && (result == 0)) "{location} must be positive"
  ok result

abbrev pub or_fail {ℓ} : {A : Type ℓ} → Option A → String → Result A
or_fail none message = fail message
or_fail (some a) message = ok a

unfoldable pub parse_role : Text → Sequence → Result Text
parse_role value allowed_roles = do
  raise_if (not (is_hex value)) "ROLE is not canonical lowercase UTF-8 hex"
  role ← or_fail (decode (from_hex value)) "ROLE is not valid UTF-8 hex"
  roles ← validate_role_whitelist allowed_roles
  raise_if (not (is_empty roles) && not (member same role roles))
      "reported role is not in the device whitelist"
  ok role

unfoldable pub parse_kingdom_line : Fields → Result ℕ
parse_kingdom_line fields = do
  raise_if (not (has_tag fields 2 "KINGDOM")) "{location} output is missing KINGDOM"
  parse_integer (fields ‼ 1) false

-- `any(not line for line in lines)`
unfoldable pub any_empty : List Text → Bool
any_empty [] = false
any_empty (s ∷ lines) = is_empty s || any_empty lines

abbrev pub header : String → Fields
header kind = lit "MUMU_AUTOTASK" ∷ lit "1" ∷ lit kind ∷ []

unfoldable pub protocol_lines : Value → String → Result Lines
protocol_lines (str output) kind = do
  raise_if (is_empty output) "Lua business output is empty"
  encoded ← encode output
  raise_if (ltb 15000 (length encoded)) "Lua business output exceeds 15000 bytes"
  raise_if (contains carriage_return output || (get_last_or output 0 == newline))
      "Lua business output has non-canonical line endings"
  let lines = split newline output
  raise_if (any_empty lines) "Lua business output contains an empty line"
  let fields = map (split tab) lines
  raise_if (not (same_fields (line fields 0) (header kind)))
      "Lua business output is not {kind} protocol v1"
  ok fields
protocol_lines _ kind = fail "Lua business output is empty"
