-- ===== src/Business/March.antt =====
-- business.py: the answers of the stages of one march, OPEN, READY, PREPARE, COMMIT and VERIFY.
pub mod Stamina
pub mod Stages
pub mod Reports
pub mod Ready
pub mod Sent
use mumu_autotask.Prelude.{
  ℕ, Bool, true, false, not, ◌&&◌, ◌||◌, List, [], ◌∷◌, Option, none, some, ltb, ◌==◌, length,
  if◌then◌else◌, String, Result, ok, ◌>>=◌, ◌>>◌, raise_if,
}
use mumu_autotask.Python.Value.{Text, Value, Sequence, str}
use mumu_autotask.Python.Text.{lit, same, same_fields, member}
use mumu_autotask.Python.Decimal.{str_of}
use mumu_autotask.Business.Tables.{quality_ids, lookup_or, normalize_quality}
use mumu_autotask.Business.Wire.{
  Fields, Lines, line, ◌‼◌, last_line, has_tag, is_pair, is_flag, is_bit, parse_integer, parse_role,
  parse_kingdom_line, protocol_lines,
}
use mumu_autotask.Business.Intel.{IntelItem, parse_item}

-- What PREPARE and COMMIT report: whether the step succeeded, the three amounts of stamina, and why
-- it did not.
pub record StaminaStage : Type 0 where
  pub succeeded : Bool
  pub current_stamina : ℕ
  pub required_stamina : ℕ
  pub base_stamina : ℕ
  pub blocked_reason : Option Text

pub record MarchPrepareReceipt : Type 0 where
  pub ready_to_commit : Bool
  pub current_stamina : ℕ
  pub required_stamina : ℕ
  pub base_stamina : ℕ
  pub blocked_reason : Option Text

pub record MarchCommitReceipt : Type 0 where
  pub request_dispatched : Bool
  pub current_stamina : ℕ
  pub required_stamina : ℕ
  pub base_stamina : ℕ
  pub blocked_reason : Option Text

pub record MarchReceipt : Type 0 where
  pub role : Text
  pub kingdom : ℕ
  pub quality : Text
  pub quality_id : ℕ
  pub target : IntelItem
  pub request_dispatched : Bool

unfoldable pub parse_target_stage : Value → String → Sequence → IntelItem → Result Lines
parse_target_stage output kind allowed_roles target = do
  lines ← protocol_lines output kind
  raise_if (ltb (length lines) 6) "{kind} output is incomplete"
  raise_if (not (has_tag (line lines 1) 2 "ROLE")) "{kind} output is missing ROLE"
  _ ← parse_role (line lines 1 ‼ 1) allowed_roles
  _ ← parse_kingdom_line (line lines 2)
  raise_if (not (is_pair (line lines 3) "TARGET" (str_of target.runtime_id)))
      "{kind} output target does not match the request"
  raise_if (not (is_pair (last_line lines) "END" (lit "1")))
      "{kind} output has an invalid terminator"
  ok lines

unfoldable pub parse_open_output : Value → Sequence → IntelItem → Result (Unit {0})
parse_open_output output allowed_roles target = do
  lines ← parse_target_stage output "OPEN" allowed_roles target
  raise_if (not (length lines == 6) || not (is_pair (line lines 4) "OPENED" (lit "1")))
      "OPEN output did not confirm the expedition view request"

unfoldable pub parse_ready_output : Value → Sequence → IntelItem → Result Bool
parse_ready_output output allowed_roles target = do
  lines ← parse_target_stage output "READY" allowed_roles target
  raise_if (not (length lines == 6) || not (is_flag (line lines 4) "READY"))
      "READY output has an invalid readiness state"
  ok (same (line lines 4 ‼ 1) (lit "1"))

-- The agreement of the outcome, its reason and the stamina; the result is `blocked_reason`.
unfoldable pub stamina_outcome : Bool → Text → ℕ → ℕ → Result (Option Text)
stamina_outcome true reason current required = do
  raise_if (not (same reason (lit "NONE")) || ltb current required)
      "{kind} state is inconsistent with stamina"
  ok none
stamina_outcome false reason current required = do
  raise_if (not (same reason (lit "INSUFFICIENT_STAMINA")) || not (ltb current required))
      "{kind} blocked state is inconsistent with stamina"
  ok (some (lit "insufficient_stamina"))

unfoldable pub parse_stamina_stage :
    Value → String → String → Sequence → IntelItem → Result StaminaStage
parse_stamina_stage output kind action_name allowed_roles target = do
  lines ← parse_target_stage output kind allowed_roles target
  raise_if
      (not (length lines == 9)
        || not (is_pair (line lines 4) "AVERAGE" (lit "1"))
        || not (has_tag (line lines 5) 4 "STAMINA")
        || not (has_tag (line lines 6) 2 action_name)
        || not (is_bit (line lines 6 ‼ 1))
        || not (has_tag (line lines 7) 2 "REASON"))
      "{kind} output has invalid average, stamina, or {action_name.lower()} fields"
  current_stamina ← parse_integer (line lines 5 ‼ 1) true
  required_stamina ← parse_integer (line lines 5 ‼ 2) true
  base_stamina ← parse_integer (line lines 5 ‼ 3) false
  raise_if (not (base_stamina == target.stamina_cost))
      "{kind} base stamina does not match the target"
  let succeeded = same (line lines 6 ‼ 1) (lit "1")
  blocked_reason ← stamina_outcome succeeded (line lines 7 ‼ 1) current_stamina required_stamina
  ok (record {
    succeeded = succeeded;
    current_stamina = current_stamina;
    required_stamina = required_stamina;
    base_stamina = base_stamina;
    blocked_reason = blocked_reason;
  })

unfoldable pub parse_prepare_output : Value → Sequence → IntelItem → Result MarchPrepareReceipt
parse_prepare_output output allowed_roles target = do
  stage ← parse_stamina_stage output "PREPARE" "READY" allowed_roles target
  ok (record {
    ready_to_commit = stage.succeeded;
    current_stamina = stage.current_stamina;
    required_stamina = stage.required_stamina;
    base_stamina = stage.base_stamina;
    blocked_reason = stage.blocked_reason;
  })

unfoldable pub parse_commit_output : Value → Sequence → IntelItem → Result MarchCommitReceipt
parse_commit_output output allowed_roles target = do
  stage ← parse_stamina_stage output "COMMIT" "GO" allowed_roles target
  ok (record {
    request_dispatched = stage.succeeded;
    current_stamina = stage.current_stamina;
    required_stamina = stage.required_stamina;
    base_stamina = stage.base_stamina;
    blocked_reason = stage.blocked_reason;
  })

-- `target_fields[0] = "ITEM"`
unfoldable pub as_item : Fields → Fields
as_item [] = []
as_item (_ ∷ fields) = lit "ITEM" ∷ fields

unfoldable pub parse_march_output : Value → Sequence → Value → Result MarchReceipt
parse_march_output output allowed_roles expected_quality = do
  quality ← normalize_quality expected_quality
  let quality_id = lookup_or quality quality_ids 0
  lines ← protocol_lines output "MARCH"
  raise_if (not (length lines == 8)) "MARCH output must contain exactly 8 lines"
  raise_if (not (has_tag (line lines 1) 2 "ROLE")) "MARCH output is missing ROLE"
  role ← parse_role (line lines 1 ‼ 1) allowed_roles
  kingdom ← parse_kingdom_line (line lines 2)
  raise_if (not (same_fields (line lines 3) (lit "QUALITY" ∷ quality ∷ str_of quality_id ∷ [])))
      "MARCH output quality does not match the request"
  raise_if ((length (line lines 4) == 0) || not (same (line lines 4 ‼ 0) (lit "TARGET")))
      "MARCH output is missing TARGET"
  target ← parse_item (as_item (line lines 4))
  raise_if (not (same target.quality quality)) "MARCH target quality does not match the request"
  raise_if (not (is_pair (line lines 5) "AVERAGE" (lit "1")))
      "MARCH output did not confirm average formation"
  raise_if (not (is_pair (line lines 6) "SENT" (lit "1")))
      "MARCH output did not confirm request dispatch"
  raise_if (not (is_pair (line lines 7) "END" (lit "1"))) "MARCH output has an invalid terminator"
  ok (record {
    role = role;
    kingdom = kingdom;
    quality = quality;
    quality_id = quality_id;
    target = target;
    request_dispatched = true;
  })
