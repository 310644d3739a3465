-- ===== src/Hunt/Slots/Claim.antt =====
-- gui.py: the operations of `HuntSlotBatch` that end a batch: the last check of the failures, and
-- the claim of the rewards.
use mumu_autotask.Prelude.{
  ℕ, Bool, true, false, not, ◌&&◌, List, [], ◌∷◌, ◌++◌, some, ◌==◌, length, if◌then◌else◌, Result,
  ok, ◌>>◌, refuse_if, is_empty,
}
use mumu_autotask.Python.Value.{Text}
use mumu_autotask.Python.Text.{lit}
use mumu_autotask.Python.Decimal.{str_of}
use mumu_autotask.Python.Sorting.{sorted}
use mumu_autotask.Business.Select.{keep_if}
use mumu_autotask.Hunt.Target.{
  HuntBatchOutcome, Status, success, reconciled, failed, skipped, holds, or_default, set,
  has_unresolved, ids,
}
use mumu_autotask.Hunt.Slots.{SlotState, final, HuntSlotBatch, complete}

unfoldable pub can_claim : HuntSlotBatch → Bool
can_claim batch =
    complete batch
    && (length batch.outcomes == length batch.targets)
    && not (has_unresolved batch.outcomes)

unfoldable pub needs_final_reconcile : HuntSlotBatch → Bool
needs_final_reconcile batch =
    complete batch
    && not batch.claim_attempted
    && not batch.final_reconcile_attempted
    && has_unresolved batch.outcomes

unfoldable pub begin_final_reconcile : HuntSlotBatch → Result (List ℕ × HuntSlotBatch)
unfolding needs_final_reconcile
begin_final_reconcile batch = do
  refuse_if (not (needs_final_reconcile batch)) "当前批次不需要最终复核"
  ok (ids batch.targets, record batch { final_reconcile_attempted = true })

-- `outcome.status in {"failed", "skipped"}`
abbrev pub is_unresolved : Status → Bool
is_unresolved success = false
is_unresolved reconciled = false
is_unresolved failed = true
is_unresolved skipped = true

-- Whether `reconcile_terminal_outcomes` rewrites the outcome.
unfoldable pub is_rewritten : List ℕ → HuntBatchOutcome → Bool
unfolding holds
is_rewritten terminal o = is_unresolved o.status && holds o.target.runtime_id terminal

-- The outcome as it is rewritten.
abbrev pub rewrite_outcome : Text → HuntBatchOutcome → HuntBatchOutcome
rewrite_outcome detail o = record o { status = reconciled; detail = o.detail ++ lit "；" ++ detail }

-- `updates`
unfoldable pub updates_of : List ℕ → Text → List HuntBatchOutcome → List HuntBatchOutcome
unfolding is_rewritten
updates_of terminal detail [] = []
updates_of terminal detail (o ∷ outcomes) =
    let rest = updates_of terminal detail outcomes in
    if is_rewritten terminal o then rewrite_outcome detail o ∷ rest else rest

-- `rewritten`
unfoldable pub rewrite_outcomes : List ℕ → Text → List HuntBatchOutcome → List HuntBatchOutcome
unfolding is_rewritten
rewrite_outcomes terminal detail [] = []
rewrite_outcomes terminal detail (o ∷ outcomes) =
    (if is_rewritten terminal o then rewrite_outcome detail o else o)
    ∷ rewrite_outcomes terminal detail outcomes

-- The writes to `_state` in the same loop.
unfoldable pub rewrite_state : List ℕ → List HuntBatchOutcome → (ℕ → SlotState) → ℕ → SlotState
unfolding is_rewritten
rewrite_state terminal [] state = state
rewrite_state terminal (o ∷ outcomes) state =
    rewrite_state terminal outcomes
      (if is_rewritten terminal o then set o.target.runtime_id (final reconciled) state else state)

unfoldable pub reconcile_terminal_outcomes :
    List ℕ → Text → HuntSlotBatch → List HuntBatchOutcome × HuntSlotBatch
unfolding updates_of rewrite_outcomes rewrite_state
reconcile_terminal_outcomes terminal detail batch = (
  updates_of terminal detail batch.outcomes,
  record batch {
    outcomes = rewrite_outcomes terminal detail batch.outcomes;
    state = rewrite_state terminal batch.outcomes batch.state;
  },
)

unfoldable pub begin_claim : HuntSlotBatch → Result (List ℕ × HuntSlotBatch)
unfolding can_claim
begin_claim batch = do
  refuse_if batch.claim_attempted "本批次已经发起过领取"
  refuse_if (not (can_claim batch)) "存在未解决失败或仍有在途目标，禁止领取"
  ok (ids batch.targets, record batch { claim_attempted = true })

unfoldable pub mark_claim_error : Text → HuntSlotBatch → Result HuntSlotBatch
mark_claim_error detail batch = do
  refuse_if (not batch.claim_attempted) "领取尚未发起"
  ok (record batch { claim_error = some (or_default detail (lit "领取命令失败")) })

-- `str(remaining)`, of a list of numbers
unfoldable pub str_of_ids : List ℕ → Text
str_of_ids [] = []
str_of_ids (n ∷ []) = str_of n
str_of_ids (n ∷ m ∷ ns) = str_of n ++ lit ", " ++ str_of_ids (m ∷ ns)

unfoldable pub verify_claim_absence : List ℕ → HuntSlotBatch → Result (Bool × HuntSlotBatch)
unfolding str_of_ids holds
verify_claim_absence available batch = do
  refuse_if (not batch.claim_attempted) "领取尚未发起"
  let remaining =
      sorted (λ n. n ∷ []) (ids (keep_if (λ t. holds t.runtime_id available) batch.targets))
  ok (
      if is_empty remaining then (true, record batch { claim_verified = true }) else (
        false,
        record batch {
          claim_verified = false;
          claim_error = some (lit "领取后目标仍存在：[" ++ str_of_ids remaining ++ lit "]");
        },
      ))
