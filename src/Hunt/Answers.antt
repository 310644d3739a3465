-- ===== src/Hunt/Answers.antt =====
-- gui.py: what the window does with the answers about the targets of a slot batch,
-- `_slot_wait_finished` and `_final_hunt_reconciled`. Behind an error the batch is as it was; the
-- window asks again, or ends the batch.
pub mod Proved
use mumu_autotask.Prelude.{ℕ, List, Option, Result, ok, ◌>>=◌}
use mumu_autotask.Python.Value.{Text}
use mumu_autotask.Python.Text.{lit}
use mumu_autotask.Hunt.Target.{HuntBatchOutcome}
use mumu_autotask.Hunt.Slots.{HuntSlotBatch}
use mumu_autotask.Hunt.Slots.Dispatch.{mark_completed}
use mumu_autotask.Hunt.Slots.Claim.{reconcile_terminal_outcomes}
use mumu_autotask.Hunt.Json.{Members}
use mumu_autotask.Hunt.Receipts.{terminal_target_ids_from_status_payload}

-- `payload` is the answer to a wait for the targets `expected_ids`.
unfoldable pub slot_wait_finished :
    Members
    → Text
    → List ℕ
    → Option Text
    → Option ℕ
    → HuntSlotBatch
    → Result (List HuntBatchOutcome × HuntSlotBatch)
slot_wait_finished payload serial expected_ids role kingdom batch = do
  terminal ← terminal_target_ids_from_status_payload payload serial expected_ids role kingdom
  mark_completed terminal (lit "只读状态回执已证明目标完成") batch

-- `payload` is the answer to the last check of the targets `target_ids`.
unfoldable pub final_hunt_reconciled :
    Members
    → Text
    → List ℕ
    → Option Text
    → Option ℕ
    → HuntSlotBatch
    → Result (List HuntBatchOutcome × HuntSlotBatch)
final_hunt_reconciled payload serial target_ids role kingdom batch = do
  terminal ← terminal_target_ids_from_status_payload payload serial target_ids role kingdom
  ok (reconcile_terminal_outcomes terminal (lit "最终精确状态复核显示目标已完成或已消失") batch)
