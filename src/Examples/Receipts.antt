-- ===== src/Examples/Receipts.antt =====
-- The answers that the window checks, at concrete inputs.
use mumu_autotask.Prelude.{
  All, ◌≡◌, refl, true, ℕ, List, [], ◌∷◌, none, some, length, err, type_error,
}
use mumu_autotask.Python.Value.{Text, pos}
use mumu_autotask.Python.Text
use mumu_autotask.Python.Text.{lit, same}
use mumu_autotask.Hunt.Json.{
  Json, bool, int, str, array, object, Elements, no_element, element, Members, no_member, member,
  get_or_else, get, to_list, equals, is_str, equals_list,
}
use mumu_autotask.Hunt.Receipts.{
  positive_kingdom, validate_payload_kingdom, is_other_role, state_in, statuses_of, as_mapping,
  terminal_ids, terminal_target_ids_from_status_payload, check_claimed,
  validate_claim_intel_receipt,
}
use mumu_autotask.Hunt.Receipts.Reads.{HasKingdom, HasRole}
use mumu_autotask.Hunt.Receipts.Claims.{IsClaimed, validate_claim_intel_receipt-IsClaimed}
use mumu_autotask.Hunt.Receipts.Terminal.{
  AreTerminal, terminal_target_ids_from_status_payload_sound,
}
use mumu_autotask.Business.Select.{keep_if}
use mumu_autotask.Hunt.Target.{HuntBatchOutcome, success, reconciled, failed, holds, set}
use mumu_autotask.Hunt.Slots.{
  dispatching, HuntSlotBatch, ids_where, record_outcome, recorded, moved,
}
use mumu_autotask.Hunt.Slots.Dispatch.{by_id, complete_ids, mark_completed}
use mumu_autotask.Hunt.Slots.Claim.{
  is_rewritten, updates_of, rewrite_outcomes, rewrite_state, reconcile_terminal_outcomes,
}
use mumu_autotask.Hunt.Slots.Outcomes.{outcome_ids}
use mumu_autotask.Hunt.Answers.{slot_wait_finished, final_hunt_reconciled}
use mumu_autotask.Hunt.Answers.Proved.{
  zip, HasEnded, statuses_in, slot_wait_finished_sound, final_hunt_reconciled_sound,
}
use mumu_autotask.Examples.Batches.{wolf, one, marching_one, marching_one-Reached}

abbrev two : List ℕ
two = 11 ∷ 12 ∷ []

abbrev status : ℕ → Text → Json
status id state =
    object (member (lit "runtime_id") (int (pos id)) (member (lit "state") (str state) no_member))

abbrev answer_header : Members → Members
answer_header rest = member (lit "serial") (str (lit "dev")) (
    member (lit "kingdom") (int (pos 4549)) (
      member (lit "role") (str (lit "abc")) (
        member (lit "target_ids")
          (array (element (int (pos 11)) (element (int (pos 12)) no_element))) rest)))

abbrev claim_answer : Members
claim_answer = answer_header (
    member (lit "claim_allowed") (bool true) (
      member (lit "request_dispatched") (bool true) (
        member (lit "verified_missing") (bool true) (
          member (lit "statuses_after")
            (array (
              element (status 11 (lit "MISSING")) (element (status 12 (lit "MISSING")) no_element)))
            no_member))))

validate_claim_intel_receipt-IsClaimed_example :
    (two ≡ two) × IsClaimed claim_answer (lit "dev") two (some (lit "abc")) (some 4549)
unfolding validate_claim_intel_receipt validate_payload_kingdom positive_kingdom is_other_role
    equals_list equals statuses_of to_list check_claimed as_mapping get get_or_else is_str same lit
validate_claim_intel_receipt-IsClaimed_example =
    validate_claim_intel_receipt-IsClaimed claim_answer (lit "dev") two two (some (lit "abc"))
      (some 4549) refl

abbrev status_answer : Json → Members
status_answer second = answer_header (
    member (lit "statuses")
      (array (element (status 11 (lit "COMPLETED")) (element second no_element))) no_member)

terminal_target_ids_from_status_payload_sound_example :
    (get (lit "serial") (status_answer (status 12 (lit "PENDING"))) ≡ str (lit "dev"))
    × HasKingdom (status_answer (status 12 (lit "PENDING"))) none
    × HasRole (status_answer (status 12 (lit "PENDING"))) none
    × (equals_list (get (lit "target_ids") (status_answer (status 12 (lit "PENDING")))) two ≡ true)
    × (es : Elements) × (get_or_else
          (lit "statuses_after")
          (status_answer (status 12 (lit "PENDING")))
          (get (lit "statuses") (status_answer (status 12 (lit "PENDING"))))
        ≡ array es)
    × (length (to_list es) ≡ 2)
    × AreTerminal two (to_list es) (11 ∷ [])
unfolding terminal_target_ids_from_status_payload validate_payload_kingdom positive_kingdom
    is_other_role equals_list equals statuses_of to_list terminal_ids state_in Text.member
    as_mapping get get_or_else is_str same lit
terminal_target_ids_from_status_payload_sound_example =
    terminal_target_ids_from_status_payload_sound (status_answer (status 12 (lit "PENDING")))
      (lit "dev") two (11 ∷ []) none none refl

-- A state that is a list has no hash.
state_without_hash :
    terminal_target_ids_from_status_payload
      (status_answer (
        object (
          member
            (lit "runtime_id")
            (int (pos 12))
            (member (lit "state") (array no_element) no_member))))
      (lit "dev")
      two
      none
      none
    ≡ err type_error
unfolding terminal_target_ids_from_status_payload validate_payload_kingdom positive_kingdom
    is_other_role equals_list equals statuses_of to_list terminal_ids state_in Text.member
    as_mapping get get_or_else is_str same lit
state_without_hash = refl

-- The wolf of a batch is on its way, and its answer says that it is done.
abbrev wolf_answer : Members
wolf_answer = member (lit "serial") (str (lit "dev")) (
    member (lit "kingdom") (int (pos 4549)) (
      member (lit "target_ids") (array (element (int (pos 11)) no_element)) (
        member (lit "statuses") (array (element (status 11 (lit "COMPLETED")) no_element))
          no_member)))

slot_wait_finished_sound_example :
    (es : Elements) × (statuses_in wolf_answer ≡ array es)
    × All (HasEnded (zip (11 ∷ []) (to_list es))) (
        outcome_ids (record { target = wolf; status = success; detail = lit "只读状态回执已证明目标完成" } ∷ []))
unfolding slot_wait_finished terminal_target_ids_from_status_payload validate_payload_kingdom
    positive_kingdom is_other_role equals_list equals statuses_of to_list terminal_ids state_in
    Text.member as_mapping get get_or_else is_str same lit mark_completed complete_ids ids_where
    keep_if by_id set holds record_outcome
slot_wait_finished_sound_example =
    slot_wait_finished_sound 2 marching_one
      (recorded wolf success (lit "只读状态回执已证明目标完成") marching_one) wolf_answer (lit "dev") (11 ∷ [])
      none none (record { target = wolf; status = success; detail = lit "只读状态回执已证明目标完成" } ∷ [])
      marching_one-Reached refl

-- The wolf failed, and the last check finds it gone.
abbrev failed_one : HuntSlotBatch
failed_one = recorded wolf failed (lit "lost") (moved wolf dispatching one)

abbrev lost : HuntBatchOutcome
lost = record { target = wolf; status = reconciled; detail = lit "lost；最终精确状态复核显示目标已完成或已消失" }

final_hunt_reconciled_sound_example :
    (es : Elements) × (statuses_in wolf_answer ≡ array es)
    × All (HasEnded (zip (11 ∷ []) (to_list es))) (outcome_ids (lost ∷ []))
unfolding final_hunt_reconciled terminal_target_ids_from_status_payload validate_payload_kingdom
    positive_kingdom is_other_role equals_list equals statuses_of to_list terminal_ids state_in
    Text.member as_mapping get get_or_else is_str same lit reconcile_terminal_outcomes updates_of
    rewrite_outcomes rewrite_state is_rewritten holds
final_hunt_reconciled_sound_example =
    final_hunt_reconciled_sound failed_one
      (reconcile_terminal_outcomes (11 ∷ []) (lit "最终精确状态复核显示目标已完成或已消失") failed_one).1 wolf_answer
      (lit "dev") (11 ∷ []) none none (lost ∷ []) refl
