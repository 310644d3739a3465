-- ===== src/Business/Verify.antt =====
-- business.py: the answer of the VERIFY script, which proves that a march was accepted.
pub mod Accepted
use mumu_autotask.Prelude.{
  ℕ, Bool, true, false, not, ◌&&◌, ◌||◌, List, [], ◌∷◌, ◌==◌, length, if◌then◌else◌, String, Result,
  ok, ◌>>=◌, ◌>>◌, raise_if,
}
use mumu_autotask.Python.Value.{Text, Value, Sequence}
use mumu_autotask.Python.Text.{lit, same, member}
use mumu_autotask.Business.Wire.{line, ◌‼◌, has_tag, is_bit, parse_integer}
use mumu_autotask.Business.Intel.{IntelItem}
use mumu_autotask.Business.March.{parse_target_stage}

-- `status != "missing"` implies a canonical number among 1, 2 and 3.
unfoldable pub check_quest_status : String → Text → Result (Unit {0})
check_quest_status message status = if same status (lit "missing") then ok tt else do
  _ ← parse_integer status true
  raise_if (not (member status (lit "1" ∷ lit "2" ∷ lit "3" ∷ []))) message

-- The event id of the march that the script has found, or not found.
unfoldable pub check_event : Bool → Text → ℕ → Result (Unit {0})
check_event march_found event runtime_id =
    if same event (lit "missing")
    then raise_if (not march_found) "VERIFY pending march proof cannot omit its event id"
    else do
      event_id ← parse_integer event (not march_found)
      raise_if (march_found && not (event_id == runtime_id))
          "VERIFY march event does not match the target"
      raise_if (not march_found && not (event_id == 0))
          "VERIFY pending march proof must use event id 0"

-- The agreement of the acceptance, the kind of proof, the march and the status.
unfoldable pub check_proof : Bool → Bool → Bool → Text → Text → Result (Unit {0})
check_proof accepted march_found event_missing proof status = do
  raise_if
      (march_found
        && not (same proof (if event_missing then lit "MARCH_FIELDS" else lit "MARCH_EVENT")))
      "VERIFY march proof type is inconsistent"
  raise_if (not march_found && accepted && same proof (lit "NONE"))
      "VERIFY acceptance does not match the self-march proof"
  raise_if
      (not march_found
        && accepted
        && (not (same proof (lit "QUEST_STATUS")) || not (member status (lit "2" ∷ lit "3" ∷ []))))
      "VERIFY accepted without a valid quest-status proof"
  raise_if (not accepted && not (same proof (lit "NONE")))
      "VERIFY pending output has an unexpected proof type"
  raise_if (not accepted && not (member status (lit "1" ∷ lit "2" ∷ lit "3" ∷ lit "missing" ∷ [])))
      "VERIFY pending state has an unexpected quest status"

unfoldable pub parse_verify_output : Value → Sequence → IntelItem → Result (Bool × Text)
parse_verify_output output allowed_roles target = do
  lines ← parse_target_stage output "VERIFY" allowed_roles target
  raise_if
      (not (length lines == 8)
        || not (has_tag (line lines 4) 4 "ACCEPTED")
        || not (is_bit (line lines 4 ‼ 1))
        || not (same (line lines 4 ‼ 2) (lit "STATUS")))
      "VERIFY output has an invalid acceptance state"
  let status = line lines 4 ‼ 3
  check_quest_status "VERIFY entered an unexpected quest status" status
  let march = line lines 5
  raise_if
      (not (has_tag march 4 "MARCH")
        || not (is_bit (march ‼ 1))
        || not (same (march ‼ 2) (lit "EVENT")))
      "VERIFY output is missing the self-march proof"
  let march_found = same (march ‼ 1) (lit "1")
  let event_missing = same (march ‼ 3) (lit "missing")
  check_event march_found (march ‼ 3) target.runtime_id
  let accepted = same (line lines 4 ‼ 1) (lit "1")
  raise_if (not (has_tag (line lines 6) 2 "PROOF")) "VERIFY output is missing its proof type"
  let proof = line lines 6 ‼ 1
  raise_if
      (not (
        member proof
          (lit "MARCH_EVENT" ∷ lit "MARCH_FIELDS" ∷ lit "QUEST_STATUS" ∷ lit "NONE" ∷ [])))
      "VERIFY output has an invalid proof type"
  check_proof accepted march_found event_missing proof status
  ok (accepted, status)
