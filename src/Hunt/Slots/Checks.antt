-- ===== src/Hunt/Slots/Checks.antt =====
-- The last check and the claim of a slot batch, as its changes.
use mathlib.Core.Path.{subst}
use mumu_autotask.Prelude.{
  ℕ, ◌≡◌, Bool, true, false, not, List, if◌then◌else◌, ok, refuse_if-cases, ok-injective, not-false,
}
use mumu_autotask.Python.Value.{Text}
use mumu_autotask.Hunt.Slots.{HuntSlotBatch}
use mumu_autotask.Hunt.Slots.Claim.{
  begin_final_reconcile, needs_final_reconcile, begin_claim, can_claim, mark_claim_error,
  verify_claim_absence,
}
use mumu_autotask.Hunt.Slots.Moves.{check, claim, answer, Moves, single}

pub begin_final_reconcile-Moves :
    (a b : HuntSlotBatch) (out : List ℕ) → begin_final_reconcile a ≡ ok (out, b) → Moves 0 a b
unfolding begin_final_reconcile
begin_final_reconcile-Moves a b out h =
    refuse_if-cases (not (needs_final_reconcile a)) _ _ h λ needed e.
      subst (λ (r : List ℕ × HuntSlotBatch). Moves 0 a r.1) (ok-injective _ (out, b) e)
        (single (check a (not-false needed)))

pub begin_claim-Moves :
    (a b : HuntSlotBatch) (out : List ℕ) → begin_claim a ≡ ok (out, b) → Moves 0 a b
unfolding begin_claim
begin_claim-Moves a b out h = refuse_if-cases a.claim_attempted _ _ h λ fresh h'.
    refuse_if-cases (not (can_claim a)) _ _ h' λ allowed e.
      subst (λ (r : List ℕ × HuntSlotBatch). Moves 0 a r.1) (ok-injective _ (out, b) e)
        (single (claim a fresh (not-false allowed)))

pub mark_claim_error-Moves :
    (a b : HuntSlotBatch) (detail : Text) → mark_claim_error detail a ≡ ok b → Moves 0 a b
unfolding mark_claim_error
mark_claim_error-Moves a b detail h = refuse_if-cases (not a.claim_attempted) _ _ h λ begun e.
    subst (Moves 0 a) (ok-injective _ b e) (single (answer a a.claim_verified _ (not-false begun)))

either-Moves :
    (a : HuntSlotBatch) (test : Bool) (p q : Bool × HuntSlotBatch)
    → Moves 0 a p.1
    → Moves 0 a q.1
    → Moves 0 a (if test then p else q).1
either-Moves a true p q m n = m
either-Moves a false p q m n = n

pub verify_claim_absence-Moves :
    (a b : HuntSlotBatch) (available : List ℕ) (out : Bool)
    → verify_claim_absence available a ≡ ok (out, b)
    → Moves 0 a b
unfolding verify_claim_absence
verify_claim_absence-Moves a b available out h =
    refuse_if-cases (not a.claim_attempted) _ _ h λ begun e.
      subst (λ (r : Bool × HuntSlotBatch). Moves 0 a r.1) (ok-injective _ (out, b) e)
        (either-Moves a _ _ _ (single (answer a true a.claim_error (not-false begun)))
          (single (answer a false _ (not-false begun))))
