-- ===== src/Business/Commit.antt =====
-- business.py: the answers of the scripts that start and verify a battle target.
pub mod Battles
use mumu_autotask.Prelude.{
  ℕ, suc, Bool, true, false, not, ◌&&◌, ◌||◌, List, [], ◌∷◌, ltb, ◌==◌, length, is_empty, drop,
  init, if◌then◌else◌, Result, ok, ◌>>=◌, ◌>>◌, raise_if,
}
use mumu_autotask.Python.Value.{Text, Value, Sequence, str}
use mumu_autotask.Python.Text.{lit, same, member}
use mumu_autotask.Python.Decimal.{str_of}
use mumu_autotask.Business.Tables.{normalize_battle_category}
use mumu_autotask.Business.Wire.{
  Fields, Lines, line, ◌‼◌, last_line, has_tag, is_pair, is_bit, parse_integer, parse_role,
  parse_kingdom_line, protocol_lines,
}
use mumu_autotask.Business.Battle.{BattleIntelItem}
use mumu_autotask.Business.Verify.{check_quest_status}

-- The loop over the HERO lines, which are numbered from `index`.
unfoldable pub parse_heroes : ℕ → Lines → Result (List ℕ)
parse_heroes index [] = ok []
parse_heroes index (fields ∷ lines) = do
  raise_if (not (has_tag fields 3 "HERO") || not (same (fields ‼ 1) (str_of index)))
      "BATTLE_COMMIT output has an invalid HERO line"
  hero ← parse_integer (fields ‼ 2) false
  heroes ← parse_heroes (suc index) lines
  ok (hero ∷ heroes)

unfoldable pub parse_battle_commit_output : Value → Sequence → BattleIntelItem → Result (List ℕ)
parse_battle_commit_output output allowed_roles target = do
  lines ← protocol_lines output "BATTLE_COMMIT"
  raise_if (ltb (length lines) 7) "BATTLE_COMMIT output is incomplete"
  raise_if (not (has_tag (line lines 1) 2 "ROLE")) "BATTLE_COMMIT output is missing ROLE"
  _ ← parse_role (line lines 1 ‼ 1) allowed_roles
  _ ← parse_kingdom_line (line lines 2)
  raise_if (not (is_pair (line lines 3) "TARGET" (str_of target.runtime_id)))
      "BATTLE_COMMIT output target does not match the request"
  raise_if (not (is_pair (line lines 4) "START" (lit "1")))
      "BATTLE_COMMIT output did not confirm start request"
  raise_if (not (has_tag (line lines 5) 2 "END_REQUEST") || not (is_bit (line lines 5 ‼ 1)))
      "BATTLE_COMMIT output has an invalid end-request state"
  category ← normalize_battle_category (str target.category)
  raise_if (not (same category (lit "hero"))) "BATTLE_COMMIT target category must be hero"
  raise_if (not (same (line lines 5 ‼ 1) (lit "1")))
      "BATTLE_COMMIT output end-request state does not match {category}"
  raise_if (not (is_pair (last_line lines) "END" (lit "1")))
      "BATTLE_COMMIT output has an invalid terminator"
  heroes ← parse_heroes 1 (init (drop 6 lines))
  raise_if (is_empty heroes) "BATTLE_COMMIT output selected no heroes"
  ok heroes

unfoldable pub parse_rescue_commit_output : Value → Sequence → BattleIntelItem → Result (Unit {0})
parse_rescue_commit_output output allowed_roles target = do
  category ← normalize_battle_category (str target.category)
  raise_if (not (same category (lit "rescue"))) "RESCUE_COMMIT target category must be rescue"
  lines ← protocol_lines output "RESCUE_COMMIT"
  raise_if (not (length lines == 8)) "RESCUE_COMMIT output must contain exactly 8 lines"
  raise_if (not (has_tag (line lines 1) 2 "ROLE")) "RESCUE_COMMIT output is missing ROLE"
  _ ← parse_role (line lines 1 ‼ 1) allowed_roles
  _ ← parse_kingdom_line (line lines 2)
  raise_if (not (is_pair (line lines 3) "TARGET" (str_of target.runtime_id)))
      "RESCUE_COMMIT output target does not match the request"
  raise_if (not (is_pair (line lines 4) "WORLD_MARCH" (lit "1")))
      "RESCUE_COMMIT output did not confirm world march"
  raise_if (not (is_pair (line lines 5) "TYPE" (lit "301")))
      "RESCUE_COMMIT output has an invalid march type"
  raise_if (not (is_pair (line lines 6) "MARCH_MAP_TYPE" (lit "1")))
      "RESCUE_COMMIT output has an invalid march map type"
  raise_if (not (is_pair (line lines 7) "END" (lit "1")))
      "RESCUE_COMMIT output has an invalid terminator"

unfoldable pub parse_battle_verify_output :
    Value → Sequence → BattleIntelItem → Result (Bool × Text)
parse_battle_verify_output output allowed_roles target = do
  lines ← protocol_lines output "BATTLE_VERIFY"
  raise_if (not (length lines == 6)) "BATTLE_VERIFY output must contain exactly 6 lines"
  raise_if (not (has_tag (line lines 1) 2 "ROLE")) "BATTLE_VERIFY output is missing ROLE"
  _ ← parse_role (line lines 1 ‼ 1) allowed_roles
  _ ← parse_kingdom_line (line lines 2)
  raise_if (not (is_pair (line lines 3) "TARGET" (str_of target.runtime_id)))
      "BATTLE_VERIFY output target does not match the request"
  raise_if
      (not (has_tag (line lines 4) 4 "ACCEPTED")
        || not (is_bit (line lines 4 ‼ 1))
        || not (same (line lines 4 ‼ 2) (lit "STATUS")))
      "BATTLE_VERIFY output has an invalid acceptance state"
  raise_if (not (is_pair (line lines 5) "END" (lit "1")))
      "BATTLE_VERIFY output has an invalid terminator"
  let status = line lines 4 ‼ 3
  check_quest_status "BATTLE_VERIFY entered an unexpected quest status" status
  let accepted = same (line lines 4 ‼ 1) (lit "1")
  raise_if (accepted && not (member status (lit "2" ∷ lit "3" ∷ lit "missing" ∷ [])))
      "BATTLE_VERIFY accepted without a terminal status"
  ok (accepted, status)
