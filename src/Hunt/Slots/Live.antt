-- ===== src/Hunt/Slots/Live.antt =====
-- A slot batch never stands still before it is complete.
use mathlib.Core.Path.{subst}
use mumu_autotask.Prelude.{
  ℕ, ◌≡◌, ◌⊎◌, refl, sym, ap, ◌∙◌, inl, inr, Bool, true, false, List, [], ◌∷◌, Option, Bool-cases,
  All, All-imp, ok, is_empty,
}
use mumu_autotask.Business.Select.{keep_if}
use mumu_autotask.Hunt.Target.{HuntBatchTarget, ids}
use mumu_autotask.Hunt.Slots.{
  SlotState, pending, dispatching, active, final, is_pending, is_dispatching, is_active, in_flight,
  HuntSlotBatch, ids_where, dispatching_ids, active_ids, complete,
}
use mumu_autotask.Hunt.Slots.Dispatch.{submit_all, next_dispatch_targets}
use mumu_autotask.Hunt.Slots.Steps.{Reached, Reached-IsBatch}
use mumu_autotask.Hunt.Slots.Claimed.{ids_where-none}
use mumu_autotask.Hunt.Slots.Idle.{IsIdle, Settles, select_targets-Selection}

none-ids_where :
    (test : SlotState → Bool) (state : ℕ → SlotState) (ts : List HuntBatchTarget)
    → All (λ t. test (state t.runtime_id) ≡ false) ts
    → is_empty (ids (keep_if (λ t. test (state t.runtime_id)) ts)) ≡ true
unfolding keep_if
none-ids_where test state [] h = refl
none-ids_where test state (t ∷ ts) (h, hs) = rw (h, none-ids_where test state ts hs)

not_in_flight :
    (s : SlotState) → in_flight s ≡ false → (is_dispatching s ≡ false) × (is_active s ≡ false)
not_in_flight pending h = (refl, refl)
not_in_flight dispatching h = cc h
not_in_flight active h = cc h
not_in_flight (final status) h = (refl, refl)

in_flight-parts :
    (s : SlotState) → is_dispatching s ≡ false → is_active s ≡ false → in_flight s ≡ false
in_flight-parts pending d a = refl
in_flight-parts dispatching d a = cc d
in_flight-parts active d a = cc a
in_flight-parts (final status) d a = refl

IsIdle-zip :
    (state : ℕ → SlotState) (ts : List HuntBatchTarget)
    → All (λ t. is_dispatching (state t.runtime_id) ≡ false) ts
    → All (λ t. is_active (state t.runtime_id) ≡ false) ts
    → IsIdle state ts
IsIdle-zip state [] d a = tt
IsIdle-zip state (t ∷ ts) (d, ds) (a, as') =
    (in_flight-parts (state t.runtime_id) d a, IsIdle-zip state ts ds as')

idle-complete :
    (b : HuntSlotBatch)
    → IsIdle b.state b.targets
    → All (λ t. is_pending (b.state t.runtime_id) ≡ false) b.targets
    → complete b ≡ true
unfolding complete ids_where
idle-complete b idle p =
    let d =
      All-imp (λ t. in_flight (b.state t.runtime_id) ≡ false)
        (λ t. is_dispatching (b.state t.runtime_id) ≡ false)
        (λ t h. (not_in_flight (b.state t.runtime_id) h).0) b.targets idle in
    let a =
      All-imp (λ t. in_flight (b.state t.runtime_id) ≡ false)
        (λ t. is_active (b.state t.runtime_id) ≡ false)
        (λ t h. (not_in_flight (b.state t.runtime_id) h).1) b.targets idle in
    rw (
      none-ids_where is_pending b.state b.targets p,
      none-ids_where is_dispatching b.state b.targets d,
      none-ids_where is_active b.state b.targets a,
    )

nothing_submitted :
    (out : List HuntBatchTarget) (batch : HuntSlotBatch)
    → is_empty out ≡ true
    → submit_all out batch ≡ batch
unfolding submit_all
nothing_submitted [] batch h = refl
nothing_submitted (t ∷ out) batch h = cc h

-- If nothing was selected, then no target waits any more.
selection-result :
    (available : Option (List ℕ)) (b after : HuntSlotBatch) (out : List HuntBatchTarget)
    → IsIdle b.state b.targets
    → ((n : ℕ) → Settles (b.state n) (after.state n))
    → after.targets ≡ b.targets
    → (is_empty out ≡ false)
      ⊎ ((◌≡◌ {A = List HuntBatchTarget} [] [])
          × All (λ t. is_pending (after.state t.runtime_id) ≡ false) b.targets)
    → (is_empty out ≡ false) ⊎ (complete (submit_all out after) ≡ true)
selection-result available b after out idle settles same (inl p) = inl p
selection-result available b after out idle settles same (inr (_, all)) =
    elim (Bool-cases (is_empty out)) [
      | inr e ↦ inl e
      | inl e ↦
          let idle' =
            All-imp (λ t. in_flight (b.state t.runtime_id) ≡ false)
              (λ t. in_flight (after.state t.runtime_id) ≡ false) (λ t. (settles t.runtime_id).1)
              b.targets idle in
          let is_complete =
            idle-complete after (subst (IsIdle after.state) (sym same) idle')
              (subst (All (λ t. is_pending (after.state t.runtime_id) ≡ false)) (sym same) all) in
          inr (ap complete (nothing_submitted out after e) ∙ is_complete)
    ]

-- Where no target of a slot batch is submitted or on its way, a dispatch does not raise, and it
-- submits a target or leaves the batch complete, whatever the last refresh of the list has shown.
pub next_dispatch_targets_live :
    (n : ℕ) (b : HuntSlotBatch) (available : Option (List ℕ))
    → Reached n b
    → is_empty (dispatching_ids b) ≡ true
    → is_empty (active_ids b) ≡ true
    → (out : List HuntBatchTarget) × (after : HuntSlotBatch) × (next_dispatch_targets available b
        ≡ ok (out, after))
      × ((is_empty out ≡ false) ⊎ (complete after ≡ true))
unfolding next_dispatch_targets ids_where
next_dispatch_targets_live n b available r d a =
    let idle =
      IsIdle-zip b.state b.targets (ids_where-none is_dispatching b.state b.targets d)
        (ids_where-none is_active b.state b.targets a) in
    let (out, after, runs, result, settles, same) =
      select_targets-Selection available b.targets [] b idle (Reached-IsBatch n b r).teams.0 in
    (
      out,
      submit_all out after,
      rw (d, runs),
      selection-result available b after out idle settles same result,
    )
