-- ===== src/Hunt/Slots/Claimed.antt =====
-- When the rewards of a slot batch are claimed.
use mumu_autotask.Prelude.{
  ℕ, ◌≡◌, ◌⊎◌, refl, sym, ap, ◌∙◌, inl, inr, Bool, true, false, not, ◌&&◌, List, [], ◌∷◌, some,
  ◌==◌, length, arith, Bool-cases, All, ok, err, hunt_batch, refuse_if-cases, ok-injective,
  not-false, is_empty, &&-iff,
}
use mumu_autotask.Business.Select.{keep_if}
use mumu_autotask.Hunt.Target.{
  HuntBatchTarget, HuntBatchOutcome, Status, success, reconciled, failed, skipped, same_status,
  counts, has_unresolved, ids,
}
use mumu_autotask.Hunt.Slots.{
  SlotState, pending, dispatching, active, final, is_pending, is_dispatching, is_active, is_final,
  HuntSlotBatch, ids_where, pending_ids, dispatching_ids, active_ids, complete,
}
use mumu_autotask.Hunt.Slots.Claim.{reconcile_terminal_outcomes, begin_claim, can_claim}
use mumu_autotask.Hunt.Slots.Moves.{
  submit, depart, close, resolve, check, claim, answer, Moves, done, next,
}
use mumu_autotask.Hunt.Slots.Outcomes.{outcome_in, outcome_of}
use mumu_autotask.Hunt.Slots.Sound.{IsBatch, Moves-After}
use mumu_autotask.Hunt.Slots.Steps.{Step, claimed, Step-Moves, Reached, worked, Reached-IsBatch}

-- No target is in a state that the test accepts.
pub ids_where-none :
    (test : SlotState → Bool) (state : ℕ → SlotState) (ts : List HuntBatchTarget)
    → is_empty (ids (keep_if (λ t. test (state t.runtime_id)) ts)) ≡ true
    → All (λ t. test (state t.runtime_id) ≡ false) ts
unfolding keep_if
ids_where-none test state [] h = tt
ids_where-none test state (t ∷ ts) h = elim (Bool-cases (test (state t.runtime_id))) [
  | inl e ↦ absurd (cc (rw e at h))
  | inr e ↦ (e, ids_where-none test state ts (rw e at h))
]

is_final-rest :
    (s : SlotState)
    → is_pending s ≡ false
    → is_dispatching s ≡ false
    → is_active s ≡ false
    → is_final s ≡ true
is_final-rest pending p d a = cc p
is_final-rest dispatching p d a = cc d
is_final-rest active p d a = cc a
is_final-rest (final status) p d a = refl

All-final :
    (state : ℕ → SlotState) (ts : List HuntBatchTarget)
    → All (λ t. is_pending (state t.runtime_id) ≡ false) ts
    → All (λ t. is_dispatching (state t.runtime_id) ≡ false) ts
    → All (λ t. is_active (state t.runtime_id) ≡ false) ts
    → All (λ t. is_final (state t.runtime_id) ≡ true) ts
All-final state [] p d a = tt
All-final state (t ∷ ts) (p, ps) (d, ds) (a, as') =
    (is_final-rest (state t.runtime_id) p d a, All-final state ts ps ds as')

-- A batch is complete if every target has an outcome.
pub complete-final :
    (b : HuntSlotBatch)
    → complete b ≡ true
    → All (λ t. is_final (b.state t.runtime_id) ≡ true) b.targets
unfolding complete ids_where
complete-final b h =
    let waits = is_empty (pending_ids b) in
    let submits = is_empty (dispatching_ids b) in
    let marches = is_empty (active_ids b) in
    let (rest, a) = (&&-iff (waits && submits) marches).0 h in
    let (p, d) = (&&-iff waits submits).0 rest in
    All-final b.state b.targets (ids_where-none is_pending b.state b.targets p)
      (ids_where-none is_dispatching b.state b.targets d)
      (ids_where-none is_active b.state b.targets a)

counts-none :
    (s r : Status) (outcomes : List HuntBatchOutcome) (n : ℕ)
    → (counts s outcomes == 0) ≡ true
    → outcome_of outcomes n ≡ some r
    → same_status r s ≡ false
unfolding counts
counts-none s r [] n h e = cc e
counts-none s r (o ∷ outcomes) n h e = elim (Bool-cases (same_status o.status s)) [
  | inl c ↦ absurd (ground arith)
  | inr c ↦ elim (Bool-cases (o.target.runtime_id == n)) [
    | inl q ↦ let is_r : o.status ≡ r = cc (e, q) in cc (c, is_r)
    | inr q ↦ counts-none s r outcomes n (rw c at h) (cc (e, q))
  ]
]

resolved_status :
    (r : Status)
    → same_status r failed ≡ false
    → same_status r skipped ≡ false
    → (r ≡ success) ⊎ (r ≡ reconciled)
unfolding same_status
resolved_status success f s = inl refl
resolved_status reconciled f s = inr refl
resolved_status failed f s = cc f
resolved_status skipped f s = cc s

-- The id's outcome is a success, or is resolved by a check.
abbrev pub IsResolved : List HuntBatchOutcome → ℕ → Type 0
IsResolved outcomes n =
    (outcome_of outcomes n ≡ some success) ⊎ (outcome_of outcomes n ≡ some reconciled)

IsResolved-outcome :
    (outcomes : List HuntBatchOutcome) (n : ℕ) (s : SlotState)
    → has_unresolved outcomes ≡ false
    → outcome_of outcomes n ≡ outcome_in s
    → is_final s ≡ true
    → IsResolved outcomes n
unfolding has_unresolved
IsResolved-outcome outcomes n pending h e f = cc f
IsResolved-outcome outcomes n dispatching h e f = cc f
IsResolved-outcome outcomes n active h e f = cc f
IsResolved-outcome outcomes n (final r) h e f =
    let failures = counts-none failed r outcomes n (ground arith) e in
    let skips = counts-none skipped r outcomes n (ground arith) e in
    elim (resolved_status r failures skips) [
      | inl p ↦ inl (e ∙ ap some p)
      | inr p ↦ inr (e ∙ ap some p)
    ]

All-IsResolved :
    (b : HuntSlotBatch) (ts : List HuntBatchTarget)
    → IsBatch b
    → has_unresolved b.outcomes ≡ false
    → All (λ t. is_final (b.state t.runtime_id) ≡ true) ts
    → All (λ t. IsResolved b.outcomes t.runtime_id) ts
All-IsResolved b [] good h f = tt
All-IsResolved b (t ∷ ts) good h (f, fs) = (
  IsResolved-outcome b.outcomes t.runtime_id (b.state t.runtime_id) h (good.agree t.runtime_id) f,
  All-IsResolved b ts good h fs,
)

-- No change takes a claim back.
Moves-claimed :
    {n : ℕ} (a b : HuntSlotBatch)
    → Moves n a b
    → a.claim_attempted ≡ true
    → b.claim_attempted ≡ true
unfolding reconcile_terminal_outcomes
Moves-claimed a b (done _) h = h
Moves-claimed a b (next (submit _ t m s room) rest e) h = Moves-claimed _ b rest h
Moves-claimed a b (next (depart _ t m s) rest e) h = Moves-claimed _ b rest h
Moves-claimed a b (next (close _ t status detail m s) rest e) h = Moves-claimed _ b rest h
Moves-claimed a b (next (resolve _ terminal detail) rest e) h = Moves-claimed _ b rest h
Moves-claimed a b (next (check _ c) rest e) h = Moves-claimed _ b rest h
Moves-claimed a b (next (claim _ f c) rest e) h = Moves-claimed _ b rest refl
Moves-claimed a b (next (answer _ verified error c) rest e) h = Moves-claimed _ b rest h

-- What operations lead to from a batch.
pub data Works : HuntSlotBatch → HuntSlotBatch → Type 0 where
  idle : (a : HuntSlotBatch) → Works a a
  works : {m : ℕ} {a b c : HuntSlotBatch} → Step m a b → Works b c → Works a c

Works-claimed :
    (a b : HuntSlotBatch)
    → Works a b
    → IsBatch a
    → a.claim_attempted ≡ true
    → b.claim_attempted ≡ true
Works-claimed a b (idle _) good h = h
Works-claimed a b (works {b = c} step rest) good h =
    let (moves, _) = Step-Moves a c step good in
    Works-claimed c b rest (Moves-After a c moves good).0 (Moves-claimed a c moves h)

-- The rewards of a slot batch that was reached are claimed for all its targets at once, after each of
-- them has succeeded or was resolved by a check, and whatever is done with the batch from there on, no
-- second claim begins.
pub begin_claim_sound :
    (n : ℕ) (b after : HuntSlotBatch) (out : List ℕ)
    → Reached n b
    → begin_claim b ≡ ok (out, after)
    → (out ≡ ids b.targets)
      × All (λ t. IsResolved b.outcomes t.runtime_id) b.targets
      × ((last : HuntSlotBatch)
          → Works after last
          → begin_claim last ≡ err (hunt_batch "本批次已经发起过领取"))
unfolding begin_claim can_claim
begin_claim_sound n b after out r h =
    let good = Reached-IsBatch n b r in
    let done_with = complete b in
    let all_there = length b.outcomes == length b.targets in
    refuse_if-cases b.claim_attempted _ _ h λ fresh h₁.
      refuse_if-cases (not (can_claim b)) _ _ h₁ λ allowed h₂.
        let (rest, no_failure) =
          (&&-iff (done_with && all_there) (not (has_unresolved b.outcomes))).0
            (not-false allowed) in
        let (is_complete, _) = (&&-iff done_with all_there).0 rest in
        let e = ok-injective _ (out, after) h₂ in
        let step = claimed out b after h in
        (
          sym (ap (λ r. r.0) e),
          All-IsResolved b b.targets good (ground arith) (complete-final b is_complete),
          λ last w. rw (
              Works-claimed after last w (Reached-IsBatch _ after (worked r step))
                (sym (ap (λ r. r.1.claim_attempted) e))),
        )
