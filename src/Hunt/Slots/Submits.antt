-- ===== src/Hunt/Slots/Submits.antt =====
-- The dispatches of a slot batch as changes of its targets.
use mathlib.Core.Path.{subst}
use mathlib.Core.List.{Memᴰ}
use mathlib.Core.List.Memᴰ.{head, tail}
use mumu_autotask.Prelude.{
  ℕ, ◌+◌, ◌≡◌, ◌≢◌, refl, sym, ap, ◌∙◌, inl, inr, not, List, [], ◌∷◌, append-nil, Option, none,
  some, length, is_empty, arith, All, All-imp, ok, >>=-cases, refuse_if-cases, ok-injective,
}
use mumu_autotask.Hunt.Target.{HuntBatchTarget, reconciled, ids}
use mumu_autotask.Hunt.Slots.{
  dispatching, final, HuntSlotBatch, dispatching_ids, count_of, marching, active_monster_count,
  record_outcome, moved,
}
use mumu_autotask.Hunt.Slots.Dispatch.{
  choose, monsters_of, select_targets, submit_all, next_dispatch_targets, submit_first,
  next_dispatch_target,
}
use mumu_autotask.Hunt.Slots.Moves.{
  Ends, vanished, submit, close, Moves, done, next, Moves-join, single, total-set,
}
use mumu_autotask.Hunt.Slots.Sound.{IsBatch, Move-After}
use mumu_autotask.Hunt.Slots.Selects.{
  Choice-cases, choose-gone, choose-take, record_outcome-ok, Grows, recorded-Grows, waiting-set,
  IsSelection, select_targets-Selects,
}

-- All targets of a list are in it.
pub mem-All : (ts : List HuntBatchTarget) → All (λ t. Memᴰ t ts) ts
mem-All [] = tt
mem-All (t ∷ ts) =
    (head refl, All-imp (λ u. Memᴰ u ts) (λ u. Memᴰ u (t ∷ ts)) (λ u m. tail m) ts (mem-All ts))

ids-All :
    (n : ℕ) (ts : List HuntBatchTarget) → All (λ i. n ≢ i) (ids ts) → All (λ t. n ≢ t.runtime_id) ts
ids-All n [] h = tt
ids-All n (t ∷ ts) (e, h) = (e, ids-All n ts h)

-- The selected targets are submitted one after another.
pub submit_all-Moves :
    (selected : List HuntBatchTarget) (batch : HuntSlotBatch)
    → IsSelection selected [] batch
    → Moves (length selected) batch (submit_all selected batch)
unfolding submit_all active_monster_count monsters_of
submit_all-Moves [] batch h = done batch
submit_all-Moves (t ∷ selected) batch h =
    let ((m, waits), rest) = h.waiting in
    let (apart, d) = h.apart in
    let step = submit batch t m waits (λ e. omega (arith, ap count_of e, h.room)) in
    let sum = total-set marching t dispatching batch.state batch.targets h.batch_lem.distinct m in
    let others = subst (λ ts. All (λ i. t.runtime_id ≢ i) (ids ts)) (append-nil selected) apart in
    next step
      (submit_all-Moves selected (moved t dispatching batch) (record {
        batch_lem = (Move-After batch _ step h.batch_lem).0;
        apart = d;
        waiting =
            waiting-set batch t.runtime_id dispatching selected
              (ids-All t.runtime_id selected others) rest;
        room = omega (arith, sum, ap (λ s. marching s t) waits, h.room);
      }))
      (omega arith)

-- Behind the guard of a dispatch nothing is selected.
start-IsSelection : (batch : HuntSlotBatch) → IsBatch batch → IsSelection [] batch.targets batch
unfolding active_monster_count monsters_of
start-IsSelection batch h = record {
  batch_lem = h;
  apart = h.distinct;
  waiting = tt;
  room = omega (arith, h.capacity);
}

submit_all-outcomes :
    (selected : List HuntBatchTarget) (batch : HuntSlotBatch)
    → (submit_all selected batch).outcomes ≡ batch.outcomes
unfolding submit_all
submit_all-outcomes [] batch = refl
submit_all-outcomes (t ∷ selected) batch = submit_all-outcomes selected (moved t dispatching batch)

-- Every target that a dispatch returns, and every one that it has found gone, has come closer to its outcome.
pub next_dispatch_targets-Moves :
    (available : Option (List ℕ)) (batch after : HuntSlotBatch) (out : List HuntBatchTarget)
    → next_dispatch_targets available batch ≡ ok (out, after)
    → IsBatch batch
    → (n : ℕ) × Moves (n + length out) batch after × Grows n batch after
unfolding next_dispatch_targets
next_dispatch_targets-Moves available batch after out h good =
    refuse_if-cases (not (is_empty (dispatching_ids batch))) _ _ h λ idle h'.
      >>=-cases (select_targets available batch.targets [] batch) _ h' λ r selected e.
        let (n, moves, grown, selection) =
          select_targets-Selects available batch.targets [] r.0 batch r.1 selected
            (mem-All batch.targets) (start-IsSelection batch good) in
        subst
          (λ (r : List HuntBatchTarget × HuntSlotBatch).
            (n : ℕ) × Moves (n + length r.0) batch r.1 × Grows n batch r.1)
          (ok-injective _ (out, after) e)
          (
            n,
            Moves-join moves (submit_all-Moves r.0 r.1 selection),
            ap length (submit_all-outcomes r.0 r.1) ∙ grown,
          )

-- How many targets a dispatch of one returns
abbrev pub number_of : Option HuntBatchTarget → ℕ
number_of none = 0
number_of (some t) = 1

module _ (available : Option (List ℕ)) where
  submit_first-Moves :
      (ts : List HuntBatchTarget) (monsters : ℕ) (batch after : HuntSlotBatch)
      (out : Option HuntBatchTarget)
      → submit_first available monsters ts batch ≡ ok (out, after)
      → All (λ t. Memᴰ t batch.targets) ts
      → IsBatch batch
      → active_monster_count batch ≡ monsters
      → (n : ℕ) × Moves (n + number_of out) batch after × Grows n batch after
  unfolding submit_first active_monster_count
  submit_first-Moves [] monsters batch after out h m good is_count =
      subst
        (λ (r : Option HuntBatchTarget × HuntSlotBatch).
          (n : ℕ) × Moves (n + number_of r.0) batch r.1 × Grows n batch r.1)
        (ok-injective (none, batch) (out, after) h) (0, done batch, omega arith)
  submit_first-Moves (t ∷ ts) monsters batch after out h (m, ms) good is_count =
      elim (Choice-cases (choose available monsters batch t)) [
        | inl e ↦
            submit_first-Moves ts monsters batch after out (rw (submit_first, e) at h) ms good
              is_count
        | inr (inl e) ↦
            let waits = choose-gone available monsters batch t e in
            >>=-cases (record_outcome t reconciled _ batch) _ (rw (submit_first, e) at h)
              λ r recorded_now rest.
                let (_, is_after) = record_outcome-ok t reconciled _ batch r.1 r.0 recorded_now in
                let gone_now = subst (λ s. Ends s reconciled) (sym waits) vanished in
                let step = close batch t reconciled _ m gone_now in
                let (n, moves, grown) =
                  submit_first-Moves ts monsters _ after out
                    (subst (λ b. submit_first available monsters ts b ≡ ok (out, after))
                      (sym is_after) rest)
                    ms (Move-After batch _ step good).0
                    (omega (
                      arith,
                      total-set marching t (final reconciled) batch.state batch.targets
                          good.distinct m,
                      ap (λ s. marching s t) waits,
                      is_count,
                    )) in
                (
                  1 + n,
                  next step moves (omega arith),
                  recorded-Grows n t reconciled _ batch after grown,
                )
        | inr (inr e) ↦
            let (waits, free) = choose-take available monsters batch t e in
            let step = submit batch t m waits (λ e. omega (arith, free e, is_count)) in
            subst
              (λ (r : Option HuntBatchTarget × HuntSlotBatch).
                (n : ℕ) × Moves (n + number_of r.0) batch r.1 × Grows n batch r.1)
              (ok-injective (some t, _) (out, after) (rw (submit_first, e) at h))
              (0, single step, omega arith)
      ]

pub next_dispatch_target-Moves :
    (available : Option (List ℕ)) (batch after : HuntSlotBatch) (out : Option HuntBatchTarget)
    → next_dispatch_target available batch ≡ ok (out, after)
    → IsBatch batch
    → (n : ℕ) × Moves (n + number_of out) batch after × Grows n batch after
unfolding next_dispatch_target
next_dispatch_target-Moves available batch after out h good =
    refuse_if-cases (not (is_empty (dispatching_ids batch))) _ _ h λ idle h'.
      submit_first-Moves available batch.targets (active_monster_count batch) batch after out h'
        (mem-All batch.targets) good refl
