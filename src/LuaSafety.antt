-- ===== src/LuaSafety.antt =====
-- lua_safety.py: which Lua probes run without explicit permission.
pub mod Spelling
pub mod Words
pub mod Probes
use mumu_autotask.Prelude.{
  ℕ, suc, zero, Bool, true, false, not, ◌||◌, List, [], ◌∷◌, ◌++◌, is_empty, ◌==◌, if◌then◌else◌,
  Result, ok, ◌>>=◌, ◌>>◌, raise_if,
}
use mumu_autotask.Python.Value.{Text}
use mumu_autotask.Python.Text.{lit, member}
use mumu_autotask.Python.Unicode.{is_space, strip}

abbrev pub safe_read_only_probes : List Text
safe_read_only_probes =
    lit "return _VERSION" ∷ lit "return tostring(_VERSION)" ∷ lit "return type(package.loaded)" ∷ []

-- `text.removesuffix(";")`
unfoldable pub remove_semicolon : Text → Text
remove_semicolon [] = []
remove_semicolon (c ∷ []) = if c == 59 then [] else c ∷ []
remove_semicolon (c ∷ d ∷ s) = c ∷ remove_semicolon (d ∷ s)

-- `re.sub(r"\s+", " ", text)`; `inside` says that a blank was written for the run so far.
unfoldable pub collapse_spaces : Bool → Text → Text
collapse_spaces inside [] = []
collapse_spaces inside (c ∷ s) =
    let after = collapse_spaces true s in
    let next = collapse_spaces false s in
    if is_space c then (if inside then after else 32 ∷ after) else c ∷ next

unfoldable pub normalize_lua : Text → Text
normalize_lua code = collapse_spaces false (strip (remove_semicolon (strip code)))

-- The errors are `LuaSafetyError`s here.
unfoldable pub require_safe_lua : Text → Bool → Result (Unit {0})
require_safe_lua code allow_unsafe = do
  raise_if (is_empty code || is_empty (strip code)) "Lua code cannot be empty"
  if allow_unsafe
      then ok tt
      else raise_if (not (member (normalize_lua code) safe_read_only_probes))
          "exec-lua only allows built-in read-only probes by default; pass --allow-unsafe-lua to explicitly authorize arbitrary in-process code"
