-- ===== src/Hunt/Slots/Marks.antt =====
-- What becomes of the submitted targets of a slot batch, as changes of these targets.
use mathlib.Core.Path.{subst}
use mathlib.Core.List.{Memᴰ}
use mathlib.Core.List.Memᴰ.{head, tail}
use mumu_autotask.Prelude.{
  ℕ, ◌≡◌, refl, sym, ap, ◌∙◌, inl, inr, Bool, true, not, List, [], ◌∷◌, some, ◌==◌, ==_iff, length,
  arith, Bool-cases, Option-cases, ok, >>=-cases, refuse_if-cases, ok-injective, not-false, ◌≢◌,
  All, All-imp,
}
use mumu_autotask.Python.Value.{Text}
use mumu_autotask.Python.Collect.{Distinct}
use mumu_autotask.Hunt.Target.{HuntBatchTarget, HuntBatchOutcome, success, failed, holds, ids}
use mumu_autotask.Hunt.Slots.{
  SlotState, pending, dispatching, active, final, is_dispatching, is_active, HuntSlotBatch,
  active_ids, record_outcome,
}
use mumu_autotask.Hunt.Slots.Dispatch.{
  by_id, require_state, mark_dispatched, mark_failed, complete_ids, mark_completed,
}
use mumu_autotask.Hunt.Slots.Moves.{
  Ends, refused, returned, Move, depart, close, Moves, done, next, single,
}
use mumu_autotask.Hunt.Slots.Selects.{record_outcome-ok}
use mumu_autotask.Hunt.Slots.Marching.{IsMarching, recorded-IsMarching, active_ids_apart}

-- `_by_id` finds the target with the id.
pub by_id-some :
    (ts : List HuntBatchTarget) (id : ℕ) (t : HuntBatchTarget)
    → by_id ts id ≡ some t
    → Memᴰ t ts × (t.runtime_id ≡ id)
unfolding by_id
by_id-some [] id t h = absurd (cc h)
by_id-some (u ∷ ts) id t h = elim (Bool-cases (u.runtime_id == id)) [
  | inl e ↦
      let same_t : u ≡ t = cc (h, e) in
      (head (sym same_t), ap (λ x. x.runtime_id) (sym same_t) ∙ (==_iff u.runtime_id id).0 e)
  | inr e ↦ let (m, p) = by_id-some ts id t (cc (h, e)) in (tail m, p)
]

is_dispatching-eq : (s : SlotState) → is_dispatching s ≡ true → s ≡ dispatching
is_dispatching-eq pending h = cc h
is_dispatching-eq dispatching h = refl
is_dispatching-eq active h = cc h
is_dispatching-eq (final status) h = cc h

-- What `_require_state` returns, if it does not raise.
pub require_state-ok :
    (id : ℕ) (test : SlotState → Bool) (batch : HuntSlotBatch) (t : HuntBatchTarget)
    → require_state id test batch ≡ ok t
    → Memᴰ t batch.targets × (t.runtime_id ≡ id) × (test (batch.state t.runtime_id) ≡ true)
unfolding require_state
require_state-ok id test batch t h = elim (Option-cases (by_id batch.targets id)) [
  | inl e ↦ absurd (cc (rw (require_state, e) at h))
  | inr (u, e) ↦
      refuse_if-cases (not (test (batch.state id))) _ _ (rw (require_state, e) at h) λ s h'.
        let same_t : u ≡ t = ok-injective u t h' in
        let (m, p) = by_id-some batch.targets id t (e ∙ ap some same_t) in
        (m, p, ap (λ i. test (batch.state i)) p ∙ not-false s)
]

pub mark_dispatched-Moves :
    (id : ℕ) (detail : Text) (batch after : HuntSlotBatch)
    → mark_dispatched id detail batch ≡ ok after
    → Moves 1 batch after
unfolding mark_dispatched
mark_dispatched-Moves id detail batch after h =
    >>=-cases (require_state id is_dispatching batch) _ h λ t found e.
      let (m, p, s) = require_state-ok id is_dispatching batch t found in
      subst (Moves 1 batch) (ok-injective _ after e)
        (single (depart batch t m (is_dispatching-eq _ s)))

pub mark_failed-Moves :
    (id : ℕ) (detail : Text) (batch after : HuntSlotBatch) (o : HuntBatchOutcome)
    → mark_failed id detail batch ≡ ok (o, after)
    → Moves 1 batch after
unfolding mark_failed
mark_failed-Moves id detail batch after o h =
    >>=-cases (require_state id is_dispatching batch) _ h λ t found e.
      let (m, p, s) = require_state-ok id is_dispatching batch t found in
      let (_, is_after) = record_outcome-ok t failed _ batch after o e in
      let submitted = subst (λ s. Ends s failed) (sym (is_dispatching-eq _ s)) refused in
      subst (Moves 1 batch) is_after (single (close batch t failed _ m submitted))

is_active-eq : (s : SlotState) → is_active s ≡ true → s ≡ active
is_active-eq pending h = cc h
is_active-eq dispatching h = cc h
is_active-eq active h = refl
is_active-eq (final status) h = cc h

complete_ids-Moves :
    (rest completed : List ℕ) (detail : Text) (batch after : HuntSlotBatch)
    (out : List HuntBatchOutcome)
    → complete_ids rest completed detail batch ≡ ok (out, after)
    → Distinct rest
    → All (IsMarching batch) rest
    → Moves (length out) batch after
unfolding complete_ids
complete_ids-Moves [] completed detail batch after out h d a =
    subst (λ (r : List HuntBatchOutcome × HuntSlotBatch). Moves (length r.0) batch r.1)
      (ok-injective ([], batch) (out, after) h) (done batch)
complete_ids-Moves (id ∷ rest) completed detail batch after out h (u, d) (((t, f), is_on_way), a) =
    elim (Bool-cases (holds id completed)) [
      | inr e ↦
          complete_ids-Moves rest completed detail batch after out (rw (complete_ids, e) at h) d a
      | inl e ↦
          >>=-cases (record_outcome t success detail batch) _ (rw (complete_ids, e, f) at h)
            λ r recorded_now h'.
              >>=-cases (complete_ids rest completed detail r.1) _ h' λ q completed_now h''.
                let (_, is_after) = record_outcome-ok t success detail batch r.1 r.0 recorded_now in
                let (m, p) = by_id-some batch.targets id t f in
                let marches = is_active-eq _ (ap (λ i. is_active (batch.state i)) p ∙ is_on_way) in
                let step =
                  close batch t success detail m
                    (subst (λ s. Ends s success) (sym marches) returned) in
                let others =
                  All-imp (λ j. id ≢ j) (λ j. t.runtime_id ≢ j) (λ j n q. n (sym p ∙ q)) rest u in
                let on_way = recorded-IsMarching batch t success detail rest others a in
                let moves =
                  complete_ids-Moves rest completed detail r.1 q.1 q.0 completed_now d
                    (subst (λ b. All (IsMarching b) rest) is_after on_way) in
                subst (λ (r : List HuntBatchOutcome × HuntSlotBatch). Moves (length r.0) batch r.1)
                  (ok-injective _ (out, after) h'')
                  (next (subst (Move 1 batch) is_after step) moves (omega arith))
    ]

pub mark_completed-Moves :
    (reported : List ℕ) (detail : Text) (batch after : HuntSlotBatch) (out : List HuntBatchOutcome)
    → mark_completed reported detail batch ≡ ok (out, after)
    → Distinct (ids batch.targets)
    → Moves (length out) batch after
unfolding mark_completed
mark_completed-Moves reported detail batch after out h distinct =
    let (d, a) = active_ids_apart batch distinct in
    complete_ids-Moves (active_ids batch) reported detail batch after out h d a
