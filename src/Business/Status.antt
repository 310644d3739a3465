-- ===== src/Business/Status.antt =====
-- business.py: the answers of the INTEL_STATUS and CLAIM_INTEL scripts.
pub mod Tracked
pub mod Claimed
use mumu_autotask.Prelude.{
  ℕ, ◌+◌, Bool, true, false, not, ◌&&◌, ◌||◌, List, [], ◌∷◌, map, Option, none, some, ◌==◌, length,
  drop, init, if◌then◌else◌, Result, ok, ◌>>=◌, ◌>>◌, raise_if,
}
use mumu_autotask.Python.Value.{Text, Value, Sequence}
use mumu_autotask.Python.Text.{lit, same, same_fields, member}
use mumu_autotask.Python.Decimal.{str_of}
use mumu_autotask.Business.Ids.{normalize_target_ids}
use mumu_autotask.Business.Wire.{
  Fields, Lines, line, ◌‼◌, last_line, has_tag, is_pair, is_flag, parse_integer, parse_role,
  parse_kingdom_line, protocol_lines,
}

pub record IntelTargetStatus : Type 0 where
  pub runtime_id : ℕ
  pub state : Text
  pub quest_status : Option ℕ

pub record IntelStatusSnapshot : Type 0 where
  pub role : Text
  pub kingdom : ℕ
  pub targets : List IntelTargetStatus

pub record ClaimReceipt : Type 0 where
  pub role : Text
  pub kingdom : ℕ
  pub target_ids : List ℕ
  pub request_dispatched : Bool
  pub idempotent : Bool

abbrev pub intel_pending : Text
intel_pending = lit "PENDING"

abbrev pub intel_completed : Text
intel_completed = lit "COMPLETED"

abbrev pub intel_missing : Text
intel_missing = lit "MISSING"

abbrev pub intel_states : List Text
intel_states = intel_pending ∷ intel_completed ∷ intel_missing ∷ []

-- One round of the loop over the requested ids and their lines.
unfoldable pub parse_target_line : ℕ → Fields → Result IntelTargetStatus
parse_target_line runtime_id fields = do
  raise_if
      (not (length fields == 4)
        || not (same (fields ‼ 0) (lit "TARGET"))
        || not (same (fields ‼ 1) (str_of runtime_id))
        || not (member (fields ‼ 2) intel_states))
      "INTEL_STATUS TARGET[{index}] does not match the request"
  let state = fields ‼ 2
  let raw_status = fields ‼ 3
  quest_status ←
      if same state intel_missing
      then (do
        raise_if (not (same raw_status (lit "missing")))
            "INTEL_STATUS TARGET[{index}] missing state is inconsistent"
        ok none)
      else (do status ← parse_integer raw_status true; ok (some status))
  ok (record { runtime_id = runtime_id; state = state; quest_status = quest_status })

-- The loop; both lists have one length here.
unfoldable pub parse_target_lines : List ℕ → Lines → Result (List IntelTargetStatus)
parse_target_lines [] lines = ok []
parse_target_lines (runtime_id ∷ ids) [] = ok []
parse_target_lines (runtime_id ∷ ids) (fields ∷ lines) = do
  target ← parse_target_line runtime_id fields
  targets ← parse_target_lines ids lines
  ok (target ∷ targets)

unfoldable pub parse_intel_status_output : Value → Sequence → Sequence → Result IntelStatusSnapshot
parse_intel_status_output output allowed_roles target_ids = do
  expected_ids ← normalize_target_ids target_ids
  lines ← protocol_lines output "INTEL_STATUS"
  raise_if (not (length lines == length expected_ids + 4))
      "INTEL_STATUS output has an unexpected line count"
  raise_if (not (has_tag (line lines 1) 2 "ROLE")) "INTEL_STATUS output is missing ROLE"
  role ← parse_role (line lines 1 ‼ 1) allowed_roles
  kingdom ← parse_kingdom_line (line lines 2)
  targets ← parse_target_lines expected_ids (init (drop 3 lines))
  raise_if (not (is_pair (last_line lines) "END" (str_of (length expected_ids))))
      "INTEL_STATUS output has an invalid terminator"
  ok (record { role = role; kingdom = kingdom; targets = targets })

unfoldable pub parse_claim_intel_output : Value → Sequence → Sequence → Result ClaimReceipt
parse_claim_intel_output output allowed_roles target_ids = do
  expected_ids ← normalize_target_ids target_ids
  lines ← protocol_lines output "CLAIM_INTEL"
  raise_if (not (length lines == 7)) "CLAIM_INTEL output must contain exactly 7 lines"
  raise_if (not (has_tag (line lines 1) 2 "ROLE")) "CLAIM_INTEL output is missing ROLE"
  role ← parse_role (line lines 1 ‼ 1) allowed_roles
  kingdom ← parse_kingdom_line (line lines 2)
  let expected_target_line = lit "TARGETS" ∷ str_of (length expected_ids) ∷ map str_of expected_ids
  raise_if (not (same_fields (line lines 3) expected_target_line))
      "CLAIM_INTEL output targets do not match the request"
  raise_if (not (is_flag (line lines 4) "SENT")) "CLAIM_INTEL output has an invalid dispatch state"
  raise_if (not (is_flag (line lines 5) "IDEMPOTENT"))
      "CLAIM_INTEL output has an invalid idempotent state"
  let sent = same (line lines 4 ‼ 1) (lit "1")
  let idempotent = same (line lines 5 ‼ 1) (lit "1")
  raise_if ((sent && idempotent) || (not sent && not idempotent))
      "CLAIM_INTEL dispatch/idempotent states are inconsistent"
  raise_if (not (is_pair (line lines 6) "END" (lit "1")))
      "CLAIM_INTEL output has an invalid terminator"
  ok (record {
    role = role;
    kingdom = kingdom;
    target_ids = expected_ids;
    request_dispatched = sent;
    idempotent = idempotent;
  })
