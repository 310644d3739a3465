-- ===== src/Hunt/Slots/Failures.antt =====
-- The failures of a slot batch that its last check may still resolve.
use mumu_autotask.Prelude.{
  ℕ, ◌+◌, ◌≡◌, refl, ap, inl, inr, List, [], ◌∷◌, ◌++◌, length, arith, Bool-cases,
}
use mumu_autotask.Python.Value.{Text}
use mumu_autotask.Hunt.Target.{HuntBatchOutcome, holds}
use mumu_autotask.Hunt.Slots.{count_of}
use mumu_autotask.Hunt.Slots.Claim.{is_unresolved, is_rewritten, updates_of, rewrite_outcomes}

-- The outcomes that the last check may still resolve.
unfoldable pub failures : List HuntBatchOutcome → ℕ
failures [] = 0
failures (o ∷ outcomes) = count_of (is_unresolved o.status) + failures outcomes

pub failures-snoc :
    (outcomes : List HuntBatchOutcome) (o : HuntBatchOutcome)
    → failures (outcomes ++ o ∷ []) ≡ failures outcomes + count_of (is_unresolved o.status)
unfolding failures
failures-snoc [] o = omega arith
failures-snoc (p ∷ outcomes) o = omega (arith, failures-snoc outcomes o)

-- What the last check updates is no failure any more.
pub failures-rewrite :
    (terminal : List ℕ) (detail : Text) (outcomes : List HuntBatchOutcome)
    → length (updates_of terminal detail outcomes)
        + failures (rewrite_outcomes terminal detail outcomes)
      ≡ failures outcomes
unfolding failures updates_of rewrite_outcomes is_rewritten
failures-rewrite terminal detail [] = refl
failures-rewrite terminal detail (o ∷ outcomes) =
    let ih = failures-rewrite terminal detail outcomes in
    elim (Bool-cases (is_unresolved o.status)) [
      | inl e ↦ elim (Bool-cases (holds o.target.runtime_id terminal)) [
        | inl h ↦ rw (e, h) (omega (arith, ih))
        | inr h ↦ rw (e, h) (omega (arith, ih, ap count_of e))
      ]
      | inr e ↦ rw e (omega (arith, ih, ap count_of e))
    ]
