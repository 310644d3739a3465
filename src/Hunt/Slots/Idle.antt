-- ===== src/Hunt/Slots/Idle.antt =====
-- What a dispatch of a slot batch selects where no target is in flight.
use mumu_autotask.Prelude.{
  ℕ, ◌+◌, ◌≤◌, ◌≡◌, ◌⊎◌, refl, ap, inl, inr, false, ◌&&◌, List, [], ◌∷◌, ◌++◌, Option, ◌==◌, arith,
  Bool-cases, All, All-imp, ok, is_empty,
}
use mumu_autotask.Python.Value.{Text}
use mumu_autotask.Python.Text.{lit}
use mumu_autotask.Hunt.Target.{HuntBatchTarget, Status, reconciled, is_monster, set}
use mumu_autotask.Hunt.Slots.{
  SlotState, final, is_pending, in_flight, is_final, HuntSlotBatch, count_of, total, marching,
  active_monster_count, record_outcome, recorded,
}
use mumu_autotask.Hunt.Slots.Dispatch.{pass, choose, monsters_of, select_targets}
use mumu_autotask.Hunt.Slots.Selects.{Choice-cases, choose-gone}

-- No target is in flight.
abbrev pub IsIdle : (ℕ → SlotState) → List HuntBatchTarget → Type 0
IsIdle state ts = All (λ t. in_flight (state t.runtime_id) ≡ false) ts

pub IsIdle-marching :
    (state : ℕ → SlotState) (ts : List HuntBatchTarget)
    → IsIdle state ts
    → total marching state ts ≡ 0
unfolding total
IsIdle-marching state [] h = refl
IsIdle-marching state (t ∷ ts) (h, hs) =
    omega (arith, ap (λ b. count_of (b && is_monster t)) h, IsIdle-marching state ts hs)

-- A state that a dispatch leaves, or makes final.
abbrev pub Settles : SlotState → SlotState → Type 0
Settles s r =
    (is_pending s ≡ false → is_pending r ≡ false) × (in_flight s ≡ false → in_flight r ≡ false)

pub set-Settles :
    (id n : ℕ) (status : Status) (state : ℕ → SlotState)
    → Settles (state n) (set id (final status) state n)
unfolding set
set-Settles id n status state = elim (Bool-cases (n == id)) [
  | inl e ↦ (λ p. rw e, λ p. rw e)
  | inr e ↦ (λ p. rw e p, λ p. rw e p)
]

pub set-pending :
    (n : ℕ) (status : Status) (state : ℕ → SlotState)
    → is_pending (set n (final status) state n) ≡ false
unfolding set
set-pending n status state = ground arith

-- With a free team and nothing selected, only a target that does not wait is passed.
pub choose-pass :
    (available : Option (List ℕ)) (n : ℕ) (batch : HuntSlotBatch) (t : HuntBatchTarget)
    → choose available n batch t ≡ pass
    → n + 1 ≤ batch.concurrency
    → is_pending (batch.state t.runtime_id) ≡ false
unfolding choose
choose-pass available n batch t h room = ground arith

pub idle_count :
    (batch : HuntSlotBatch) → IsIdle batch.state batch.targets → active_monster_count batch ≡ 0
unfolding active_monster_count
idle_count batch idle = IsIdle-marching batch.state batch.targets idle

pub no_monsters : (selected : List HuntBatchTarget) → selected ≡ [] → monsters_of selected ≡ 0
unfolding monsters_of
no_monsters selected q = ap monsters_of q

pub snoc_ne : (xs : List HuntBatchTarget) (t : HuntBatchTarget) → is_empty (xs ++ t ∷ []) ≡ false
snoc_ne [] t = refl
snoc_ne (x ∷ xs) t = refl

-- The outcome of a target that has none is recorded.
pub record_outcome-runs :
    (t : HuntBatchTarget) (status : Status) (detail : Text) (batch : HuntSlotBatch)
    → is_final (batch.state t.runtime_id) ≡ false
    → record_outcome t status detail batch
      ≡ ok (record { target = t; status = status; detail = detail }, recorded t status detail batch)
unfolding record_outcome
record_outcome-runs t status detail batch h = rw h

-- No target is in flight after an outcome either.
pub recorded-IsIdle :
    (t : HuntBatchTarget) (status : Status) (state : ℕ → SlotState) (ts : List HuntBatchTarget)
    → IsIdle state ts
    → IsIdle (set t.runtime_id (final status) state) ts
recorded-IsIdle t status state =
    All-imp (λ u. in_flight (state u.runtime_id) ≡ false)
      (λ u. in_flight (set t.runtime_id (final status) state u.runtime_id) ≡ false)
      λ u. (set-Settles t.runtime_id u.runtime_id status state).1

module _ (available : Option (List ℕ)) where
  -- What the loop selects, where no target is in flight: something, or all waiting targets are gone.
  abbrev pub Selection : List HuntBatchTarget → List HuntBatchTarget → HuntSlotBatch → Type 0
  Selection ts selected batch =
      (out : List HuntBatchTarget) × (after : HuntSlotBatch) × (select_targets available ts selected
          batch
        ≡ ok (out, after))
      × ((is_empty out ≡ false)
          ⊎ ((selected ≡ []) × All (λ t. is_pending (after.state t.runtime_id) ≡ false) ts))
      × ((n : ℕ) → Settles (batch.state n) (after.state n))
      × (after.targets ≡ batch.targets)

  pub select_targets-Selection :
      (ts selected : List HuntBatchTarget) (batch : HuntSlotBatch)
      → IsIdle batch.state batch.targets
      → 1 ≤ batch.concurrency
      → Selection ts selected batch
  unfolding select_targets
  select_targets-Selection [] [] batch idle room =
      ([], batch, refl, inr (refl, tt), λ n. (λ p. p, λ p. p), refl)
  select_targets-Selection [] (s ∷ selected) batch idle room =
      (s ∷ selected, batch, refl, inl refl, λ n. (λ p. p, λ p. p), refl)
  select_targets-Selection (t ∷ ts) selected batch idle room =
      let monsters = active_monster_count batch + monsters_of selected in
      elim (Choice-cases (choose available monsters batch t)) [
        | inl e ↦
            let (out, after, runs, result, settles, same) =
              select_targets-Selection ts selected batch idle room in
            let waits_not : selected ≡ [] → is_pending (batch.state t.runtime_id) ≡ false = λ q.
              choose-pass available monsters batch t e
                (omega (arith, no_monsters selected q, idle_count batch idle, room)) in
            (
              out,
              after,
              rw (select_targets, e, runs),
              elim result [
                | inl p ↦ inl p
                | inr (q, all) ↦ inr (q, ((settles t.runtime_id).0 (waits_not q), all))
              ],
              settles,
              same,
            )
        | inr (inl e) ↦
            let detail = lit "刷新后目标已不再可用，确认已处理" in
            let waits = choose-gone available monsters batch t e in
            let recorded_now = record_outcome-runs t reconciled detail batch (ap is_final waits) in
            let (out, after, runs, result, settles, same) =
              select_targets-Selection ts selected (recorded t reconciled detail batch)
                (recorded-IsIdle t reconciled batch.state batch.targets idle) room in
            (
              out,
              after,
              rw (select_targets, e, recorded_now, runs),
              elim result [
                | inl p ↦ inl p
                | inr (q, all) ↦ inr (
                  q,
                  ((settles t.runtime_id).0 (set-pending t.runtime_id reconciled batch.state), all),
                )
              ],
              λ n.
                  let (p, f) = set-Settles t.runtime_id n reconciled batch.state in
                  (λ h. (settles n).0 (p h), λ h. (settles n).1 (f h)),
              same,
            )
        | inr (inr e) ↦
            let (out, after, runs, result, settles, same) =
              select_targets-Selection ts (selected ++ t ∷ []) batch idle room in
            let some_out : is_empty out ≡ false = elim result [
              | inl p ↦ p
              | inr (q, all) ↦ absurd (cc (ap is_empty q, snoc_ne selected t))
            ] in
            (out, after, rw (select_targets, e, runs), inl some_out, settles, same)
      ]
