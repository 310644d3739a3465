-- ===== src/Hunt/Slots/Weights.antt =====
-- What a target of a slot batch still has before it, by its state.
use mumu_autotask.Prelude.{ℕ, ◌+◌, ◌≤◌, ◌≡◌, refl, ap, true, false, not, none, arith}
use mumu_autotask.Hunt.Target.{HuntBatchTarget, Status}
use mumu_autotask.Hunt.Slots.{
  SlotState, pending, dispatching, active, final, is_final, count_of, marching,
}
use mumu_autotask.Hunt.Slots.Claim.{is_unresolved}
use mumu_autotask.Hunt.Slots.Moves.{Ends, vanished, refused, returned}
use mumu_autotask.Hunt.Slots.Outcomes.{outcome_in}

-- One for a target that has no outcome yet.
abbrev pub undecided : SlotState → HuntBatchTarget → ℕ
undecided s t = count_of (not (is_final s))

-- The changes of its state that a target still has before it at most.
abbrev pub ahead : SlotState → HuntBatchTarget → ℕ
ahead pending t = 3
ahead dispatching t = 2
ahead active t = 1
ahead (final status) t = 0

-- Every target is in flight or not, without or with outcome, and as far from its outcome as before.
abbrev pub AreAlike : SlotState → SlotState → Type 0
AreAlike s r =
    (t : HuntBatchTarget)
    → (marching s t ≡ marching r t) × (undecided s t ≡ undecided r t) × (ahead s t ≡ ahead r t)

pub final-AreAlike : (s r : SlotState) → is_final s ≡ true → is_final r ≡ true → AreAlike s r
final-AreAlike (final a) (final b) h k t = (refl, refl, refl)
final-AreAlike pending r h k t = cc h
final-AreAlike dispatching r h k t = cc h
final-AreAlike active r h k t = cc h
final-AreAlike (final a) pending h k t = cc k
final-AreAlike (final a) dispatching h k t = cc k
final-AreAlike (final a) active h k t = cc k

pub outcome_in-none : (s : SlotState) → is_final s ≡ false → outcome_in s ≡ none
outcome_in-none pending h = refl
outcome_in-none dispatching h = refl
outcome_in-none active h = refl
outcome_in-none (final status) h = cc h

pub undecided-one : (s : SlotState) (t : HuntBatchTarget) → is_final s ≡ false → undecided s t ≡ 1
undecided-one s t h = ap (λ b. count_of (not b)) h

-- A target that ends has come closer, also if its outcome is a failure that may be resolved.
pub Ends-ahead :
    (s : SlotState) (status : Status) (t : HuntBatchTarget)
    → Ends s status
    → 1 + count_of (is_unresolved status) ≤ ahead s t
Ends-ahead s status t vanished = omega arith
Ends-ahead s status t refused = omega arith
Ends-ahead s status t returned = omega arith
