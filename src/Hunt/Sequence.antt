-- ===== src/Hunt/Sequence.antt =====
-- gui.py: `HuntBatchQueue`, which works through its targets one after another.
pub mod Order
pub mod Worked
use mumu_autotask.Prelude.{
  ℕ, Bool, true, false, not, ◌&&◌, List, [], ◌∷◌, ◌++◌, Option, none, some, ◌==◌, if◌then◌else◌,
  Result, ok, err, hunt_batch, ◌>>=◌, ◌>>◌, refuse_if, is_empty,
}
use mumu_autotask.Python.Value.{Text}
use mumu_autotask.Python.Text.{lit}
use mumu_autotask.Business.Intel.{has_duplicate}
use mumu_autotask.Business.Tables.{lookup}
use mumu_autotask.Hunt.Target.{
  HuntBatchTarget, HuntBatchOutcome, Status, success, reconciled, failed, skipped, holds, is_gone,
  or_default, ids, or_raise,
}

-- The newest entry of a quality in `blocked_qualities` stands first.
pub record HuntBatchQueue : Type 0 where
  pub targets : List HuntBatchTarget
  pub pending : List HuntBatchTarget
  pub current : Option HuntBatchTarget
  pub outcomes : List HuntBatchOutcome
  pub blocked_qualities : List (Text × Text)
  pub attempt_error : Option Text

unfoldable pub create_queue : List HuntBatchTarget → Result HuntBatchQueue
create_queue targets = do
  refuse_if (is_empty targets) "批次不能为空"
  refuse_if (has_duplicate (ids targets)) "批次目标 ID 不能重复"
  ok (record {
    targets = targets;
    pending = targets;
    current = none;
    outcomes = [];
    blocked_qualities = [];
    attempt_error = none;
  })

-- What `next_target` does with the target that it takes from the queue.
pub data Turn : Type 0 where
  blocked : Text → Turn
  missing : Turn
  attempt : Turn

unfoldable pub turn_of : Option (List ℕ) → List (Text × Text) → HuntBatchTarget → Turn
turn_of available blocked_qualities target = elim (lookup target.quality blocked_qualities) [
  | some reason ↦ blocked reason
  | none ↦ if is_gone available target.runtime_id then missing else attempt
]

-- `outcomes.append(HuntBatchOutcome(target, status, detail))`
abbrev pub append_outcome : HuntBatchTarget → Status → Text → HuntBatchQueue → HuntBatchQueue
append_outcome target status detail queue = record queue {
  outcomes = queue.outcomes ++ record { target = target; status = status; detail = detail } ∷ [];
}

-- The loop of `next_target` over the pending targets.
unfoldable pub take_turns :
    Option (List ℕ)
    → List HuntBatchTarget
    → HuntBatchQueue
    → Option HuntBatchTarget × HuntBatchQueue
unfolding turn_of
take_turns available [] queue = (none, record queue { pending = [] })
take_turns available (t ∷ pending) queue = elim (turn_of available queue.blocked_qualities t) [
  | blocked reason ↦
      take_turns available pending (append_outcome t skipped (lit "同品质后续目标已阻止：" ++ reason) queue)
  | missing ↦ take_turns available pending (append_outcome t skipped (lit "刷新后目标已不再可用") queue)
  | attempt ↦ (some t, record queue { pending = pending; current = some t; attempt_error = none })
]

abbrev pub is_some {ℓ} : {A : Type ℓ} → Option A → Bool
is_some none = false
is_some (some a) = true

unfoldable pub next_target :
    Option (List ℕ) → HuntBatchQueue → Result (Option HuntBatchTarget × HuntBatchQueue)
unfolding take_turns
next_target available queue = do
  refuse_if (is_some queue.current) "当前批次目标尚未完成核对"
  ok (take_turns available queue.pending queue)

-- `_require_current`
unfoldable pub require_current : HuntBatchQueue → Result HuntBatchTarget
require_current queue = or_raise queue.current "当前没有正在处理的批次目标"

-- `outcomes.append(outcome)`, and no target is attempted any more.
abbrev pub finish : HuntBatchTarget → Status → Text → HuntBatchQueue → HuntBatchQueue
finish target status detail queue = record (append_outcome target status detail queue) {
  current = none;
  attempt_error = none;
}

-- `blocked_qualities[target.quality] = detail`
abbrev pub block : HuntBatchTarget → Text → HuntBatchQueue → HuntBatchQueue
block target detail queue = record queue {
  blocked_qualities = (target.quality, detail) ∷ queue.blocked_qualities;
}

-- `attempt_error or default`
unfoldable pub attempt_error_or : Text → HuntBatchQueue → Text
unfolding or_default
attempt_error_or default queue = elim queue.attempt_error [
  | none ↦ default
  | some detail ↦ or_default detail default
]

unfoldable pub mark_attempt_success :
    ℕ → Text → HuntBatchQueue → Result (HuntBatchOutcome × HuntBatchQueue)
unfolding require_current
mark_attempt_success runtime_id detail queue = do
  target ← require_current queue
  refuse_if (not (runtime_id == target.runtime_id))
      "服务器回执目标 {runtime_id} 与队列目标 {target.runtime_id} 不一致"
  ok (
    record { target = target; status = success; detail = detail },
    finish target success detail queue,
  )

unfoldable pub mark_attempt_error : Text → HuntBatchQueue → Result HuntBatchQueue
unfolding require_current
mark_attempt_error detail queue = do
  target ← require_current queue
  ok (record queue { attempt_error = some (or_default detail (lit "出征命令失败")) })

unfoldable pub reconcile_current :
    List ℕ → HuntBatchQueue → Result (HuntBatchOutcome × HuntBatchQueue)
unfolding require_current attempt_error_or holds
reconcile_current available queue = do
  target ← require_current queue
  let detail = attempt_error_or (lit "服务器回执未证明出征成功") queue
  let handled = detail ++ lit "；刷新后目标不再可用，确认已处理"
  ok (
      if holds target.runtime_id available
      then (
        record { target = target; status = failed; detail = detail },
        block target detail (finish target failed detail queue),
      )
      else (
        record { target = target; status = reconciled; detail = handled },
        finish target reconciled handled queue,
      ))

unfoldable pub fail_reconciliation :
    Text → HuntBatchQueue → Result (HuntBatchOutcome × HuntBatchQueue)
unfolding require_current attempt_error_or
fail_reconciliation detail queue = do
  target ← require_current queue
  let reason = attempt_error_or (lit "出征命令失败") queue ++ lit "；" ++ detail
  ok (
    record { target = target; status = failed; detail = reason },
    block target detail (finish target failed reason queue),
  )

unfoldable pub is_complete : HuntBatchQueue → Bool
is_complete queue = not (is_some queue.current) && is_empty queue.pending
