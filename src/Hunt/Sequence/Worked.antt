-- ===== src/Hunt/Sequence/Worked.antt =====
-- The batches that the operations of `HuntBatchQueue` lead to.
use mathlib.Core.Path.{subst}
use mumu_autotask.Prelude.{
  ℕ, ◌≡◌, ◌≢◌, refl, sym, ◌∙◌, inr, Bool, true, false, not, List, [], ◌∷◌, ◌++◌, append-nil, Option,
  none, some, ◌==◌, arith, &&-iff, ok, >>=-cases, refuse_if-cases, ok-injective, is_empty,
  is_empty-nil, if◌then◌else◌,
}
use mumu_autotask.Python.Value.{Text}
use mumu_autotask.Business.Intel.{has_duplicate}
use mumu_autotask.Business.Tables.{lookup}
use mumu_autotask.Hunt.Target.{
  HuntBatchTarget, HuntBatchOutcome, Status, success, reconciled, failed, holds, ids, or_raise-ok,
}
use mumu_autotask.Hunt.Sequence.{
  HuntBatchQueue, create_queue, is_some, next_target, require_current, finish, block,
  mark_attempt_success, mark_attempt_error, reconcile_current, fail_reconciliation, is_complete,
}
use mumu_autotask.Hunt.Sequence.Order.{
  handled, attempted, IsCautious, IsSequence, IsBetween, added-IsBetween, failed-IsBetween,
  take_turns-IsSequence,
}

-- A batch that was created and worked on by operations that did not raise.
pub data Worked : HuntBatchQueue → Type 0 where
  created :
      (targets : List HuntBatchTarget) (queue : HuntBatchQueue)
      → create_queue targets ≡ ok queue
      → Worked queue
  taken :
      (available : Option (List ℕ)) (out : Option HuntBatchTarget) (queue after : HuntBatchQueue)
      → next_target available queue ≡ ok (out, after)
      → Worked queue
      → Worked after
  succeeded :
      (id : ℕ) (detail : Text) (out : HuntBatchOutcome) (queue after : HuntBatchQueue)
      → mark_attempt_success id detail queue ≡ ok (out, after)
      → Worked queue
      → Worked after
  erred :
      (detail : Text) (queue after : HuntBatchQueue)
      → mark_attempt_error detail queue ≡ ok after
      → Worked queue
      → Worked after
  settled :
      (available : List ℕ) (out : HuntBatchOutcome) (queue after : HuntBatchQueue)
      → reconcile_current available queue ≡ ok (out, after)
      → Worked queue
      → Worked after
  unsettled :
      (detail : Text) (out : HuntBatchOutcome) (queue after : HuntBatchQueue)
      → fail_reconciliation detail queue ≡ ok (out, after)
      → Worked queue
      → Worked after

-- The queue while its current target is looked at.
with_current :
    (queue : HuntBatchQueue) (t : HuntBatchTarget)
    → IsSequence queue
    → queue.current ≡ some t
    → IsBetween (t ∷ queue.pending) queue
      × (is_some (lookup t.quality queue.blocked_qualities) ≡ false)
with_current queue t h e =
    (record { rest = rw e at h.order; blocks = h.blocks; cautious = h.cautious }, h.free t e)

-- And once it has its outcome.
without_current :
    (queue : HuntBatchQueue)
    → queue.current ≡ none
    → IsBetween queue.pending queue
    → IsSequence queue
without_current queue e b = record {
  order = rw e b.rest;
  blocks = b.blocks;
  free = λ t p. cc (e, p);
  cautious = b.cautious;
}

require_current-ok :
    (queue : HuntBatchQueue) (t : HuntBatchTarget)
    → require_current queue ≡ ok t
    → queue.current ≡ some t
unfolding require_current
require_current-ok queue t h = or_raise-ok queue.current _ t h

is_some-none : {A : Type 0} (o : Option A) → is_some o ≡ false → o ≡ none
is_some-none none h = refl
is_some-none (some a) h = cc h

-- The target's outcome is added: a success or a check, or a failure that blocks its quality.
finished-IsSequence :
    (queue : HuntBatchQueue) (t : HuntBatchTarget) (status : Status) (detail : Text)
    → status ≢ failed
    → IsSequence queue
    → queue.current ≡ some t
    → IsSequence (finish t status detail queue)
finished-IsSequence queue t status detail n h e =
    let (b, free) = with_current queue t h e in
    let a = added-IsBetween queue.pending queue t status detail n (inr free) b in
    without_current (finish t status detail queue) refl
      (record { rest = a.rest; blocks = a.blocks; cautious = a.cautious })

blocked-IsSequence :
    (queue : HuntBatchQueue) (t : HuntBatchTarget) (detail reason : Text)
    → IsSequence queue
    → queue.current ≡ some t
    → IsSequence (block t reason (finish t failed detail queue))
blocked-IsSequence queue t detail reason h e =
    let (b, free) = with_current queue t h e in
    let a = failed-IsBetween queue.pending queue t detail reason free b in
    without_current (block t reason (finish t failed detail queue)) refl
      (record { rest = a.rest; blocks = a.blocks; cautious = a.cautious })

either-IsSequence :
    (test : Bool) (p q : HuntBatchOutcome × HuntBatchQueue)
    → IsSequence p.1
    → IsSequence q.1
    → IsSequence (if test then p else q).1
either-IsSequence true p q m n = m
either-IsSequence false p q m n = n

pub Worked-IsSequence : (queue : HuntBatchQueue) → Worked queue → IsSequence queue
unfolding create_queue next_target mark_attempt_success mark_attempt_error reconcile_current
    fail_reconciliation
Worked-IsSequence q (created targets _ h) = refuse_if-cases (is_empty targets) _ _ h λ _ h₁.
    refuse_if-cases (has_duplicate (ids targets)) _ _ h₁ λ _ h₂.
      subst IsSequence (ok-injective _ q h₂)
        (record { order = refl; blocks = tt; free = λ t p. cc p; cautious = tt })
Worked-IsSequence q (taken available out queue _ h w) =
    refuse_if-cases (is_some queue.current) _ _ h λ idle h₁.
      let s = Worked-IsSequence queue w in
      let no_current = is_some-none queue.current idle in
      subst (λ (r : Option HuntBatchTarget × HuntBatchQueue). IsSequence r.1)
        (ok-injective _ (out, q) h₁)
        (take_turns-IsSequence available queue.pending queue no_current
          (record { rest = rw no_current at s.order; blocks = s.blocks; cautious = s.cautious }))
Worked-IsSequence q (succeeded id detail out queue _ h w) =
    >>=-cases (require_current queue) _ h λ t found h₁.
      refuse_if-cases (not (id == t.runtime_id)) _ _ h₁ λ _ h₂.
        subst (λ (r : HuntBatchOutcome × HuntBatchQueue). IsSequence r.1)
          (ok-injective _ (out, q) h₂)
          (finished-IsSequence queue t success detail (λ e. cc e) (Worked-IsSequence queue w)
            (require_current-ok queue t found))
Worked-IsSequence q (erred detail queue _ h w) = >>=-cases (require_current queue) _ h λ t found h₁.
    let s = Worked-IsSequence queue w in
    subst IsSequence (ok-injective _ q h₁)
      (record { order = s.order; blocks = s.blocks; free = s.free; cautious = s.cautious })
Worked-IsSequence q (settled available out queue _ h w) =
    >>=-cases (require_current queue) _ h λ t found h₁.
      let s = Worked-IsSequence queue w in
      let e = require_current-ok queue t found in
      subst (λ (r : HuntBatchOutcome × HuntBatchQueue). IsSequence r.1) (ok-injective _ (out, q) h₁)
        (either-IsSequence (holds t.runtime_id available) _ _ (blocked-IsSequence queue t _ _ s e)
          (finished-IsSequence queue t reconciled _ (λ e. cc e) s e))
Worked-IsSequence q (unsettled detail out queue _ h w) =
    >>=-cases (require_current queue) _ h λ t found h₁.
      subst (λ (r : HuntBatchOutcome × HuntBatchQueue). IsSequence r.1) (ok-injective _ (out, q) h₁)
        (blocked-IsSequence queue t _ detail (Worked-IsSequence queue w)
          (require_current-ok queue t found))

complete-parts :
    (queue : HuntBatchQueue)
    → is_complete queue ≡ true
    → (queue.current ≡ none) × (queue.pending ≡ [])
unfolding is_complete
complete-parts queue h =
    let (a, b) = (&&-iff (not (is_some queue.current)) (is_empty queue.pending)).0 h in
    (is_some-none queue.current (ground arith), is_empty-nil queue.pending b)

-- However the operations of a sequential batch are ordered: the targets of its outcomes, the target
-- that is attempted and the pending ones are the targets of the batch in their order, so that a
-- complete batch has exactly one outcome for each target, in that order; and after a failure the
-- later targets of the same quality are skipped.
pub Worked-order :
    (queue : HuntBatchQueue)
    → Worked queue
    → (handled queue.outcomes ++ (attempted queue.current ++ queue.pending) ≡ queue.targets)
      × (is_complete queue ≡ true → handled queue.outcomes ≡ queue.targets)
      × IsCautious queue.outcomes
Worked-order queue w =
    let s = Worked-IsSequence queue w in
    (
      s.order,
      λ c.
          let (e, p) = complete-parts queue c in
          sym (append-nil (handled queue.outcomes)) ∙ (rw (e, p) at s.order),
      s.cautious,
    )
