-- ===== src/Hunt/Slots/Completed.antt =====
-- What `HuntSlotBatch.mark_completed` records.
use mumu_autotask.Prelude.{
  ℕ, ◌≡◌, ◌≢◌, refl, sym, ap, ◌∙◌, inl, inr, List, [], ◌∷◌, Bool-cases, All, All-imp, ok, ◌++◌,
  append-nil, append_assoc, if◌then◌else◌, arith,
}
use mumu_autotask.Python.Value.{Text}
use mumu_autotask.Python.Collect.{Distinct}
use mumu_autotask.Business.Select.{keep_if}
use mumu_autotask.Hunt.Target.{HuntBatchTarget, HuntBatchOutcome, success, holds, set}
use mumu_autotask.Hunt.Slots.{final, is_active, HuntSlotBatch, active_ids, recorded}
use mumu_autotask.Hunt.Slots.Dispatch.{complete_ids, mark_completed}
use mumu_autotask.Hunt.Slots.Outcomes.{outcome_ids}
use mumu_autotask.Hunt.Slots.Marks.{by_id-some}
use mumu_autotask.Hunt.Slots.Marching.{
  IsMarching, active-open, recorded-IsMarching, active_ids_apart,
}
use mumu_autotask.Hunt.Slots.Steps.{Reached, Reached-IsBatch}
use mumu_autotask.Hunt.Slots.Idle.{record_outcome-runs}

-- The outcomes are added, their ids have the state of a success, and the rest is as it was.
abbrev pub IsExtended : HuntSlotBatch → List HuntBatchOutcome → HuntSlotBatch → Type 0
IsExtended b out after =
    (after ≡ record b { state = after.state; outcomes = b.outcomes ++ out })
    × ((n : ℕ) → after.state n ≡ (if holds n (outcome_ids out) then final success else b.state n))

none-IsExtended : (b : HuntSlotBatch) → IsExtended b [] b
unfolding holds
none-IsExtended b = (
  ap (λ os. record b { state = b.state; outcomes = os }) (sym (append-nil b.outcomes)),
  λ n. refl,
)

-- One outcome and then the others.
recorded-IsExtended :
    (b after : HuntSlotBatch) (t : HuntBatchTarget) (detail : Text) (out : List HuntBatchOutcome)
    → IsExtended (recorded t success detail b) out after
    → IsExtended b (record { target = t; status = success; detail = detail } ∷ out) after
unfolding holds set
recorded-IsExtended b after t detail out (whole, at) =
    let o : HuntBatchOutcome = record { target = t; status = success; detail = detail } in
    (
      whole
          ∙ ap (λ os. record b { state = after.state; outcomes = os })
              (append_assoc b.outcomes (o ∷ []) out),
      λ n. at n ∙ ground arith,
    )

-- The reported ids among those that are on their way are recorded, in the order of the targets.
abbrev Completes : List ℕ → List ℕ → Text → HuntSlotBatch → Type 0
Completes rest reported detail b =
    (out : List HuntBatchOutcome) × (after : HuntSlotBatch) × (complete_ids rest reported detail b
      ≡ ok (out, after))
    × (outcome_ids out ≡ keep_if (λ i. holds i reported) rest)
    × All (λ o. (o.status ≡ success) × (o.detail ≡ detail)) out
    × IsExtended b out after

complete_ids-Completes :
    (rest reported : List ℕ) (detail : Text) (b : HuntSlotBatch)
    → Distinct rest
    → All (IsMarching b) rest
    → Completes rest reported detail b
unfolding complete_ids keep_if
complete_ids-Completes [] reported detail b d m = ([], b, refl, refl, tt, none-IsExtended b)
complete_ids-Completes (i ∷ rest) reported detail b (u, d) (((t, found), a), m) =
    elim (Bool-cases (holds i reported)) [
      | inr e ↦
          let (out, after, runs, exact, all, extended) =
            complete_ids-Completes rest reported detail b d m in
          (out, after, rw (complete_ids, e, runs), rw (e, exact), all, extended)
      | inl e ↦
          let (_, p) = by_id-some b.targets i t found in
          let open_now =
            active-open (b.state t.runtime_id) (ap (λ n. is_active (b.state n)) p ∙ a) in
          let others =
            All-imp (λ j. i ≢ j) (λ j. t.runtime_id ≢ j) (λ j n q. n (sym p ∙ q)) rest u in
          let (out, after, runs, exact, all, extended) =
            complete_ids-Completes rest reported detail (recorded t success detail b) d
              (recorded-IsMarching b t success detail rest others m) in
          let o : HuntBatchOutcome = record { target = t; status = success; detail = detail } in
          (
            o ∷ out,
            after,
            rw (complete_ids, e, found, record_outcome-runs t success detail b open_now, runs),
            rw (e, exact, p),
            ((refl, refl), all),
            recorded-IsExtended b after t detail out extended,
          )
    ]

-- A report of completed targets never raises in a batch that was reached: it records a success with
-- the report's detail for each active target that is reported, in the order of the targets, behind the
-- outcomes so far; the states of these ids become the success, and nothing else of the batch changes.
pub mark_completed_total :
    (n : ℕ) (b : HuntSlotBatch) (reported : List ℕ) (detail : Text)
    → Reached n b
    → (out : List HuntBatchOutcome) × (after : HuntSlotBatch) × (mark_completed reported detail b
        ≡ ok (out, after))
      × (outcome_ids out ≡ keep_if (λ i. holds i reported) (active_ids b))
      × All (λ o. (o.status ≡ success) × (o.detail ≡ detail)) out
      × IsExtended b out after
unfolding mark_completed
mark_completed_total n b reported detail r =
    let (d, a) = active_ids_apart b (Reached-IsBatch n b r).distinct in
    complete_ids-Completes (active_ids b) reported detail b d a
