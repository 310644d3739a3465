-- ===== src/Business/Roles.antt =====
-- business.py: `validate_role_whitelist`.
pub mod Whitelist
use mumu_autotask.Prelude.{
  ℕ, Bool, ◌||◌, List, [], ltb, length, is_empty, ◌==◌, Result, ok, ◌>>=◌, ◌>>◌, fail, raise_if,
}
use mumu_autotask.Python.Value.{Text, Value, Sequence, str, text, byte_string, items}
use mumu_autotask.Python.Text.{any, same}
use mumu_autotask.Python.Unicode.{encode}
use mumu_autotask.Python.Collect.{collect}

-- `ord(char) < 32 or ord(char) == 127`
abbrev pub is_control : ℕ → Bool
is_control c = ltb c 32 || (c == 127)

-- The checks of one role that do not depend on the others.
unfoldable pub check_role : Value → Result Text
check_role (str role) = do
  raise_if (is_empty role) "device roles[{index}] must be non-empty text"
  encoded ← encode role
  raise_if (ltb 64 (length encoded)) "device roles[{index}] exceeds 64 UTF-8 bytes"
  raise_if (any is_control role) "device roles[{index}] contains control characters"
  ok role
check_role _ = fail "device roles[{index}] must be non-empty text"

unfoldable pub validate_role_whitelist : Sequence → Result (List Text)
validate_role_whitelist (text _) = fail "device roles must be a configured array"
validate_role_whitelist (byte_string _) = fail "device roles must be a configured array"
validate_role_whitelist (items roles) = do
  result ← collect same check_role "device role {role!r} is duplicated" roles [] []
  raise_if (ltb 16 (length result)) "a device role whitelist cannot exceed 16 entries"
  ok result
