-- ===== src/Hunt/Slots.antt =====
-- gui.py: `HuntSlotBatch`, which keeps the monster marches full while the other tasks run beside
-- them. An operation that raises does so before it changes the batch, or on a state that no batch
-- reaches, so that an error is a value without a batch.
pub mod Dispatch
pub mod Claim
pub mod Moves
pub mod Outcomes
pub mod Failures
pub mod Weights
pub mod Sound
pub mod Selects
pub mod Submits
pub mod Marching
pub mod Marks
pub mod Lives
pub mod Checks
pub mod Steps
pub mod Claimed
pub mod Idle
pub mod Live
pub mod Completed
use mumu_autotask.Prelude.{
  ℕ, ◌+◌, Bool, true, false, not, ◌&&◌, ◌||◌, List, [], ◌∷◌, ◌++◌, map, Option, none, some, ◌==◌,
  leb, length, if◌then◌else◌, Result, ok, err, hunt_batch, key_error, ◌>>=◌, ◌>>◌, refuse_if,
  is_empty,
}
use mumu_autotask.Python.Value.{Text, Value}
use mumu_autotask.Python.Text.{lit}
use mumu_autotask.Business.Intel.{has_duplicate}
use mumu_autotask.Business.Select.{keep_if}
use mumu_autotask.Hunt.Target.{
  HuntBatchTarget, HuntBatchOutcome, Status, success, reconciled, failed, skipped, same_status,
  is_monster, holds, is_gone, or_default, set, check_concurrency, has_unresolved, ids,
}

pub data SlotState : Type 0 where
  pending : SlotState
  dispatching : SlotState
  active : SlotState
  final : Status → SlotState

abbrev pub is_pending : SlotState → Bool
is_pending pending = true
is_pending s = false

abbrev pub is_dispatching : SlotState → Bool
is_dispatching dispatching = true
is_dispatching s = false

abbrev pub is_active : SlotState → Bool
is_active active = true
is_active s = false

-- `state in {"active", "dispatching"}`
abbrev pub in_flight : SlotState → Bool
in_flight pending = false
in_flight dispatching = true
in_flight active = true
in_flight (final status) = false

-- `state in {"success", "reconciled", "failed", "skipped"}`
abbrev pub is_final : SlotState → Bool
is_final (final status) = true
is_final s = false

-- `state` is the dictionary `_state`, whose keys are the ids of the targets; `_by_id` is read off
-- the targets.
pub record HuntSlotBatch : Type 0 where
  pub targets : List HuntBatchTarget
  pub concurrency : ℕ
  pub state : ℕ → SlotState
  pub outcomes : List HuntBatchOutcome
  pub claim_attempted : Bool
  pub claim_verified : Bool
  pub claim_error : Option Text
  pub final_reconcile_attempted : Bool

unfoldable pub create : List HuntBatchTarget → Value → Result HuntSlotBatch
create targets concurrency = do
  refuse_if (is_empty targets) "批次不能为空"
  teams ← check_concurrency concurrency
  refuse_if (has_duplicate (ids targets)) "批次目标 ID 不能重复"
  ok (record {
    targets = targets;
    concurrency = teams;
    state = λ _. pending;
    outcomes = [];
    claim_attempted = false;
    claim_verified = false;
    claim_error = none;
    final_reconcile_attempted = false;
  })

-- `target.runtime_id for target in targets if test(state[target.runtime_id])`
unfoldable pub ids_where : (SlotState → Bool) → HuntSlotBatch → List ℕ
ids_where test batch = ids (keep_if (λ t. test (batch.state t.runtime_id)) batch.targets)

abbrev pub active_ids : HuntSlotBatch → List ℕ
active_ids = ids_where is_active

abbrev pub dispatching_ids : HuntSlotBatch → List ℕ
dispatching_ids = ids_where is_dispatching

abbrev pub pending_ids : HuntSlotBatch → List ℕ
pending_ids = ids_where is_pending

-- A `bool` as a number
abbrev pub count_of : Bool → ℕ
count_of true = 1
count_of false = 0

-- `sum(weight(state[target.runtime_id], target) for target in targets)`
unfoldable pub total :
    (SlotState → HuntBatchTarget → ℕ) → (ℕ → SlotState) → List HuntBatchTarget → ℕ
total weight state [] = 0
total weight state (t ∷ targets) = weight (state t.runtime_id) t + total weight state targets

abbrev pub marching : SlotState → HuntBatchTarget → ℕ
marching state target = count_of (in_flight state && is_monster target)

unfoldable pub active_monster_count : HuntSlotBatch → ℕ
unfolding total
active_monster_count batch = total marching batch.state batch.targets

unfoldable pub pending_monster_count : HuntSlotBatch → ℕ
unfolding total
pending_monster_count batch =
    total (λ s t. count_of (is_pending s && is_monster t)) batch.state batch.targets

unfoldable pub complete : HuntSlotBatch → Bool
unfolding ids_where
complete batch =
    is_empty (pending_ids batch) && is_empty (dispatching_ids batch) && is_empty (active_ids batch)

-- The batch behind `_record`, once its guard has passed.
abbrev pub recorded : HuntBatchTarget → Status → Text → HuntSlotBatch → HuntSlotBatch
recorded target status detail batch = record batch {
  state = set target.runtime_id (final status) batch.state;
  outcomes = batch.outcomes ++ (record { target = target; status = status; detail = detail } ∷ []);
}

-- `_record`
unfoldable pub record_outcome :
    HuntBatchTarget → Status → Text → HuntSlotBatch → Result (HuntBatchOutcome × HuntSlotBatch)
record_outcome target status detail batch = do
  refuse_if (is_final (batch.state target.runtime_id)) "目标 {target.runtime_id} 已经有最终结果"
  ok (
    record { target = target; status = status; detail = detail },
    recorded target status detail batch,
  )

-- `self._state[target.runtime_id] = state`
abbrev pub moved : HuntBatchTarget → SlotState → HuntSlotBatch → HuntSlotBatch
moved target state batch = record batch { state = set target.runtime_id state batch.state }
