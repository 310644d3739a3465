-- ===== src/Hunt/Slots/Dispatch.antt =====
-- gui.py: the operations of `HuntSlotBatch` that submit targets and record what became of them.
use mumu_autotask.Prelude.{
  ℕ, ◌+◌, Bool, true, false, not, ◌&&◌, List, [], ◌∷◌, ◌++◌, Option, none, some, ◌==◌, leb,
  if◌then◌else◌, Result, ok, err, hunt_batch, key_error, ◌>>=◌, ◌>>◌, refuse_if, is_empty,
}
use mumu_autotask.Python.Value.{Text}
use mumu_autotask.Python.Text.{lit}
use mumu_autotask.Hunt.Target.{
  HuntBatchTarget, HuntBatchOutcome, success, reconciled, failed, is_monster, holds, is_gone,
  or_default,
}
use mumu_autotask.Hunt.Slots.{
  SlotState, dispatching, active, is_pending, is_dispatching, HuntSlotBatch, active_ids,
  dispatching_ids, count_of, active_monster_count, record_outcome, moved,
}

-- What a dispatch does with a target.
pub data Choice : Type 0 where
  pass : Choice
  gone : Choice
  take : Choice

-- `active` monsters are in flight, or are selected before this target.
unfoldable pub choose : Option (List ℕ) → ℕ → HuntSlotBatch → HuntBatchTarget → Choice
choose available monsters batch target =
    if not (is_pending (batch.state target.runtime_id))
    then pass
    else if is_gone available target.runtime_id
    then gone
    else if is_monster target && leb batch.concurrency monsters
    then pass
    else take

-- `sum(item.category == "monster" for item in selected)`
unfoldable pub monsters_of : List HuntBatchTarget → ℕ
monsters_of [] = 0
monsters_of (t ∷ selected) = count_of (is_monster t) + monsters_of selected

-- The first loop of `next_dispatch_targets`.
unfoldable pub select_targets :
    Option (List ℕ)
    → List HuntBatchTarget
    → List HuntBatchTarget
    → HuntSlotBatch
    → Result (List HuntBatchTarget × HuntSlotBatch)
unfolding choose monsters_of
select_targets available [] selected batch = ok (selected, batch)
select_targets available (t ∷ ts) selected batch =
    elim (choose available (active_monster_count batch + monsters_of selected) batch t) [
      | pass ↦ select_targets available ts selected batch
      | gone ↦ record_outcome t reconciled (lit "刷新后目标已不再可用，确认已处理") batch >>= λ r.
          select_targets available ts selected r.1
      | take ↦ select_targets available ts (selected ++ t ∷ []) batch
    ]

-- The second loop of `next_dispatch_targets`.
unfoldable pub submit_all : List HuntBatchTarget → HuntSlotBatch → HuntSlotBatch
submit_all [] batch = batch
submit_all (t ∷ selected) batch = submit_all selected (moved t dispatching batch)

unfoldable pub next_dispatch_targets :
    Option (List ℕ) → HuntSlotBatch → Result (List HuntBatchTarget × HuntSlotBatch)
unfolding select_targets submit_all
next_dispatch_targets available batch = do
  refuse_if (not (is_empty (dispatching_ids batch))) "仍有目标正在提交"
  r ← select_targets available batch.targets [] batch
  ok (r.0, submit_all r.0 r.1)

-- The loop of `next_dispatch_target`; `monsters` are in flight.
unfoldable pub submit_first :
    Option (List ℕ)
    → ℕ
    → List HuntBatchTarget
    → HuntSlotBatch
    → Result (Option HuntBatchTarget × HuntSlotBatch)
unfolding choose
submit_first available monsters [] batch = ok (none, batch)
submit_first available monsters (t ∷ ts) batch = elim (choose available monsters batch t) [
  | pass ↦ submit_first available monsters ts batch
  | gone ↦ record_outcome t reconciled (lit "刷新后目标已不再可用，确认已处理") batch >>= λ r.
      submit_first available monsters ts r.1
  | take ↦ ok (some t, moved t dispatching batch)
]

unfoldable pub next_dispatch_target :
    Option (List ℕ) → HuntSlotBatch → Result (Option HuntBatchTarget × HuntSlotBatch)
unfolding submit_first
next_dispatch_target available batch = do
  refuse_if (not (is_empty (dispatching_ids batch))) "仍有目标正在提交"
  submit_first available (active_monster_count batch) batch.targets batch

-- `_by_id.get(runtime_id)`
unfoldable pub by_id : List HuntBatchTarget → ℕ → Option HuntBatchTarget
by_id [] runtime_id = none
by_id (t ∷ targets) runtime_id =
    let rest = by_id targets runtime_id in if t.runtime_id == runtime_id then some t else rest

-- `_require_state`
unfoldable pub require_state : ℕ → (SlotState → Bool) → HuntSlotBatch → Result HuntBatchTarget
unfolding by_id
require_state runtime_id is_expected batch = elim (by_id batch.targets runtime_id) [
  | none ↦ err (hunt_batch "目标 {runtime_id} 状态为 {actual}，预期为 {expected}")
  | some target ↦ do
    refuse_if (not (is_expected (batch.state runtime_id)))
        "目标 {runtime_id} 状态为 {actual}，预期为 {expected}"
    ok target
]

unfoldable pub mark_dispatched : ℕ → Text → HuntSlotBatch → Result HuntSlotBatch
unfolding require_state
mark_dispatched runtime_id detail batch = do
  target ← require_state runtime_id is_dispatching batch
  ok (moved target active batch)

unfoldable pub mark_failed : ℕ → Text → HuntSlotBatch → Result (HuntBatchOutcome × HuntSlotBatch)
unfolding require_state
mark_failed runtime_id detail batch = do
  target ← require_state runtime_id is_dispatching batch
  record_outcome target failed (or_default detail (lit "出征命令失败")) batch

-- The loop of `mark_completed` over the active ids; `completed` are the ids that were reported.
unfoldable pub complete_ids :
    List ℕ → List ℕ → Text → HuntSlotBatch → Result (List HuntBatchOutcome × HuntSlotBatch)
unfolding by_id holds
complete_ids [] completed detail batch = ok ([], batch)
complete_ids (id ∷ rest) completed detail batch = elim (holds id completed) [
  | false ↦ complete_ids rest completed detail batch
  | true ↦ elim (by_id batch.targets id) [
    | none ↦ err key_error
    | some target ↦ do
      (outcome, after) ← record_outcome target success detail batch
      (outcomes, last) ← complete_ids rest completed detail after
      ok (outcome ∷ outcomes, last)
  ]
]

-- An id that was reported and is not active is left out.
unfoldable pub mark_completed :
    List ℕ → Text → HuntSlotBatch → Result (List HuntBatchOutcome × HuntSlotBatch)
unfolding complete_ids
mark_completed runtime_ids detail batch = complete_ids (active_ids batch) runtime_ids detail batch
