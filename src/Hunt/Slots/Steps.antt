-- ===== src/Hunt/Slots/Steps.antt =====
-- The batches that the operations of `HuntSlotBatch` lead to.
use mathlib.Core.Path.{subst}
use mumu_autotask.Prelude.{
  ℕ, ◌+◌, ◌-◌, ◌*◌, ◌≤◌, ◌≡◌, refl, ap, Bool, List, [], ◌∷◌, Option, length, arith, leb, Bool-cases,
  inl, inr, ◌&&◌, is_empty, ok, >>=-cases, refuse_if-cases, ok-injective,
}
use mumu_autotask.Python.Value.{Text, Value, pos, int}
use mumu_autotask.Business.Intel.{has_duplicate}
use mumu_autotask.Business.Intel.Sound.{has_duplicate-Distinct}
use mumu_autotask.Hunt.Target.{
  HuntBatchTarget, HuntBatchOutcome, check_concurrency, min_hunt_concurrency, max_hunt_concurrency,
  ids,
}
use mumu_autotask.Hunt.Slots.{pending, HuntSlotBatch, create, total, marching}
use mumu_autotask.Hunt.Slots.Dispatch.{
  next_dispatch_targets, next_dispatch_target, mark_dispatched, mark_failed, mark_completed,
}
use mumu_autotask.Hunt.Slots.Claim.{
  begin_final_reconcile, updates_of, reconcile_terminal_outcomes, begin_claim, mark_claim_error,
  verify_claim_absence,
}
use mumu_autotask.Hunt.Slots.Moves.{resolve, Moves, single}
use mumu_autotask.Hunt.Slots.Sound.{IsBatch, Moves-After}
use mumu_autotask.Hunt.Slots.Weights.{undecided, ahead}
use mumu_autotask.Hunt.Slots.Failures.{failures}
use mumu_autotask.Hunt.Slots.Lives.{◌⟶*◌, Moves-⟶*}
use mumu_autotask.Hunt.Slots.Submits.{
  number_of, next_dispatch_targets-Moves, next_dispatch_target-Moves,
}
use mumu_autotask.Hunt.Slots.Checks.{
  begin_final_reconcile-Moves, begin_claim-Moves, mark_claim_error-Moves,
  verify_claim_absence-Moves,
}
use mumu_autotask.Hunt.Slots.Marks.{mark_dispatched-Moves, mark_failed-Moves, mark_completed-Moves}

-- The outcomes that an operation has recorded.
abbrev pub recorded_in : HuntSlotBatch → HuntSlotBatch → ℕ
recorded_in a b = length b.outcomes - length a.outcomes

-- An operation that did not raise. Counted are the targets that a dispatch returns and the outcomes
-- that it records, the targets that are marked as dispatched, failed or completed, and the outcomes
-- that the last check updates.
pub data Step : ℕ → HuntSlotBatch → HuntSlotBatch → Type 0 where
  dispatched_all :
      (available : Option (List ℕ)) (out : List HuntBatchTarget) (a b : HuntSlotBatch)
      → next_dispatch_targets available a ≡ ok (out, b)
      → Step (length out + recorded_in a b) a b
  dispatched_one :
      (available : Option (List ℕ)) (out : Option HuntBatchTarget) (a b : HuntSlotBatch)
      → next_dispatch_target available a ≡ ok (out, b)
      → Step (number_of out + recorded_in a b) a b
  marched :
      (id : ℕ) (detail : Text) (a b : HuntSlotBatch)
      → mark_dispatched id detail a ≡ ok b
      → Step 1 a b
  failed :
      (id : ℕ) (detail : Text) (out : HuntBatchOutcome) (a b : HuntSlotBatch)
      → mark_failed id detail a ≡ ok (out, b)
      → Step 1 a b
  completed :
      (reported : List ℕ) (detail : Text) (out : List HuntBatchOutcome) (a b : HuntSlotBatch)
      → mark_completed reported detail a ≡ ok (out, b)
      → Step (length out) a b
  checked :
      (out : List ℕ) (a b : HuntSlotBatch) → begin_final_reconcile a ≡ ok (out, b) → Step 0 a b
  resolved :
      (terminal : List ℕ) (detail : Text) (a : HuntSlotBatch)
      → Step
          (length (updates_of terminal detail a.outcomes))
          a
          (reconcile_terminal_outcomes terminal detail a).1
  claimed : (out : List ℕ) (a b : HuntSlotBatch) → begin_claim a ≡ ok (out, b) → Step 0 a b
  claim_failed :
      (detail : Text) (a b : HuntSlotBatch) → mark_claim_error detail a ≡ ok b → Step 0 a b
  verified :
      (available : List ℕ) (out : Bool) (a b : HuntSlotBatch)
      → verify_claim_absence available a ≡ ok (out, b)
      → Step 0 a b

-- A batch that was created and worked on, with the sum of these counts.
pub data Reached : ℕ → HuntSlotBatch → Type 0 where
  created :
      (targets : List HuntBatchTarget) (concurrency : Value) (b : HuntSlotBatch)
      → create targets concurrency ≡ ok b
      → Reached 0 b
  worked : {m n : ℕ} {a b : HuntSlotBatch} → Reached n a → Step m a b → Reached (m + n) b

Step-changes : {m : ℕ} (a b : HuntSlotBatch) → Step m a b → IsBatch a → Moves m a b
Step-changes a b (dispatched_all available out _ _ h) good =
    let (n, moves, grown) = next_dispatch_targets-Moves available a b out h good in
    let e : n + length out ≡ length out + recorded_in a b = omega (arith, grown) in
    subst (λ k. Moves k a b) e moves
Step-changes a b (dispatched_one available out _ _ h) good =
    let (n, moves, grown) = next_dispatch_target-Moves available a b out h good in
    let e : n + number_of out ≡ number_of out + recorded_in a b = omega (arith, grown) in
    subst (λ k. Moves k a b) e moves
Step-changes a b (marched id detail _ _ h) good = mark_dispatched-Moves id detail a b h
Step-changes a b (failed id detail out _ _ h) good = mark_failed-Moves id detail a b out h
Step-changes a b (completed reported detail out _ _ h) good =
    mark_completed-Moves reported detail a b out h good.distinct
Step-changes a b (checked out _ _ h) good = begin_final_reconcile-Moves a b out h
Step-changes a b (resolved terminal detail _) good = single (resolve a terminal detail)
Step-changes a b (claimed out _ _ h) good = begin_claim-Moves a b out h
Step-changes a b (claim_failed detail _ _ h) good = mark_claim_error-Moves a b detail h
Step-changes a b (verified available out _ _ h) good =
    verify_claim_absence-Moves a b available out h

-- Every operation of a sound slot batch is a list of changes: a pending target is submitted, a monster
-- only to a free team; a submitted one departs; a pending one that is gone is resolved, a submitted one
-- fails, and one on its way succeeds; the last check begins if it is needed, and resolves failures; the
-- claim begins if it is allowed and did not begin before, and its result changes after that only. There
-- is one change of a target for each target that a dispatch returns, each outcome that it records, each
-- target that is marked and each outcome that the last check updates; and the state of every id goes
-- along the edges of the diagram of states only.
pub Step-Moves :
    {m : ℕ} (a b : HuntSlotBatch)
    → Step m a b
    → IsBatch a
    → Moves m a b × ((i : ℕ) → a.state i ⟶* b.state i)
Step-Moves a b step good =
    let moves = Step-changes a b step good in (moves, Moves-⟶* a b moves good)

total_pending :
    (targets : List HuntBatchTarget)
    → (total marching (λ _. pending) targets ≡ 0)
      × (total undecided (λ _. pending) targets ≡ length targets)
      × (total ahead (λ _. pending) targets ≡ 3 * length targets)
unfolding total
total_pending [] = (refl, refl, omega arith)
total_pending (t ∷ targets) =
    let (a, b, c) = total_pending targets in (omega (arith, a), omega (arith, b), omega (arith, c))

pub check_concurrency-bounds :
    (v : Value) (n : ℕ)
    → check_concurrency v ≡ ok n
    → (min_hunt_concurrency ≤ n) × (n ≤ max_hunt_concurrency)
unfolding check_concurrency
check_concurrency-bounds (int (pos k)) n h =
    elim (Bool-cases (leb min_hunt_concurrency k && leb k max_hunt_concurrency)) [
      | inl e ↦ let same_n : k ≡ n = ok-injective k n (rw e at h) in ground arith
      | inr e ↦ absurd (cc (rw e at h))
    ]
check_concurrency-bounds v n h = cc h

-- A new batch is sound, and every target is three steps from its outcome at most.
create-IsBatch :
    (targets : List HuntBatchTarget) (concurrency : Value) (b : HuntSlotBatch)
    → create targets concurrency ≡ ok b
    → IsBatch b × (total ahead b.state b.targets + failures b.outcomes ≡ 3 * length b.targets)
unfolding create failures
create-IsBatch targets concurrency b h = refuse_if-cases (is_empty targets) _ _ h λ _ h₁.
    >>=-cases (check_concurrency concurrency) _ h₁ λ teams bounded h₂.
      refuse_if-cases (has_duplicate (ids targets)) _ _ h₂ λ distinct h₃.
        let (m, u, a) = total_pending targets in
        subst
          (λ b.
            IsBatch b
            × (total ahead b.state b.targets + failures b.outcomes ≡ 3 * length b.targets))
          (ok-injective _ b h₃)
          (
            record {
              distinct = has_duplicate-Distinct (ids targets) distinct;
              teams = check_concurrency-bounds concurrency teams bounded;
              capacity = omega (arith, m);
              agree = λ n. refl;
              once = tt;
              tally = omega (arith, u);
            },
            omega (arith, a),
          )

Reached-total :
    (n : ℕ) (b : HuntSlotBatch)
    → Reached n b
    → IsBatch b × (n + total ahead b.state b.targets + failures b.outcomes ≤ 3 * length b.targets)
Reached-total n b (created targets concurrency _ h) =
    let (good, e) = create-IsBatch targets concurrency b h in (good, omega (arith, e))
Reached-total n b (worked {m} {n = k} {a} r step) =
    let (good, bound) = Reached-total k a r in
    let moves = Step-changes a b step good in
    let (good', closer, e) = Moves-After a b moves good in
    (good', omega (arith, bound, closer, ap length e))

-- However the operations of a slot batch are ordered: its targets have different ids; the monsters
-- that are submitted or march are never more than the teams, of which there are one to four; an id
-- has an outcome if and only if its target's state is final, and then both have the same status; no
-- id has two outcomes; and the outcomes are as many as the targets in a final state.
pub Reached-IsBatch : (n : ℕ) (b : HuntSlotBatch) → Reached n b → IsBatch b
Reached-IsBatch n b r = (Reached-total n b r).0

-- However the operations of a slot batch are ordered, these are at most three times as many, all
-- together, as the batch has targets: the targets that its dispatches return and the outcomes that they
-- record, the targets that `mark_dispatched`, `mark_failed` and `mark_completed` mark, and the outcomes
-- that `reconcile_terminal_outcomes` updates.
pub Reached-bound : (n : ℕ) (b : HuntSlotBatch) → Reached n b → n ≤ 3 * length b.targets
Reached-bound n b r = omega (arith, (Reached-total n b r).1)
