-- ===== src/Hunt/Slots/Selects.antt =====
-- What the loops of a dispatch select, and what they make of the batch.
use mathlib.Core.Path.{subst}
use mathlib.Core.List.{Memᴰ}
use mumu_autotask.Prelude.{
  ℕ, ◌+◌, ◌≤◌, ◌≡◌, ◌≢◌, ◌⊎◌, refl, sym, ap, ◌∙◌, inl, inr, true, false, List, [], ◌∷◌, ◌++◌,
  append_assoc, length, length-append, Option, arith, Bool-cases, All, All-append, ok, >>=-cases,
  refuse_if-cases, ok-injective,
}
use mumu_autotask.Python.Value.{Text}
use mumu_autotask.Python.Collect.{Distinct}
use mumu_autotask.Hunt.Target.{
  HuntBatchTarget, HuntBatchOutcome, Status, reconciled, is_monster, set, ids,
}
use mumu_autotask.Hunt.Slots.{
  SlotState, pending, dispatching, active, final, is_pending, is_final, HuntSlotBatch, count_of,
  marching, active_monster_count, record_outcome, recorded,
}
use mumu_autotask.Hunt.Slots.Dispatch.{
  Choice, pass, gone, take, choose, monsters_of, select_targets,
}
use mumu_autotask.Hunt.Slots.Moves.{
  Ends, vanished, Move, close, Moves, done, next, set_other, total-set,
}
use mumu_autotask.Hunt.Slots.Sound.{IsBatch, Move-After}

pub Choice-cases : (c : Choice) → (c ≡ pass) ⊎ (c ≡ gone) ⊎ (c ≡ take)
Choice-cases pass = inl refl
Choice-cases gone = inr (inl refl)
Choice-cases take = inr (inr refl)

is_pending-eq : (s : SlotState) → is_pending s ≡ true → s ≡ pending
is_pending-eq pending h = refl
is_pending-eq dispatching h = cc h
is_pending-eq active h = cc h
is_pending-eq (final status) h = cc h

-- A target that a dispatch submits or gives up was pending; a monster is submitted to a free team.
pub choose-gone :
    (available : Option (List ℕ)) (n : ℕ) (batch : HuntSlotBatch) (t : HuntBatchTarget)
    → choose available n batch t ≡ gone
    → batch.state t.runtime_id ≡ pending
unfolding choose
choose-gone available n batch t h = elim (Bool-cases (is_pending (batch.state t.runtime_id))) [
  | inl e ↦ is_pending-eq _ e
  | inr e ↦ absurd (ground arith)
]

pub choose-take :
    (available : Option (List ℕ)) (n : ℕ) (batch : HuntSlotBatch) (t : HuntBatchTarget)
    → choose available n batch t ≡ take
    → (batch.state t.runtime_id ≡ pending) × (is_monster t ≡ true → n + 1 ≤ batch.concurrency)
unfolding choose
choose-take available n batch t h = elim (Bool-cases (is_pending (batch.state t.runtime_id))) [
  | inl e ↦ (is_pending-eq _ e, λ m. ground arith)
  | inr e ↦ absurd (ground arith)
]

-- What `_record` returns, if it does not raise.
pub record_outcome-ok :
    (t : HuntBatchTarget) (status : Status) (detail : Text) (batch after : HuntSlotBatch)
    (o : HuntBatchOutcome)
    → record_outcome t status detail batch ≡ ok (o, after)
    → (is_final (batch.state t.runtime_id) ≡ false) × (recorded t status detail batch ≡ after)
unfolding record_outcome
record_outcome-ok t status detail batch after o h =
    refuse_if-cases (is_final (batch.state t.runtime_id)) _ _ h
      λ open_now h'. (open_now, ap (λ r. r.1) (ok-injective _ _ h'))

-- So many outcomes are recorded.
abbrev pub Grows : ℕ → HuntSlotBatch → HuntSlotBatch → Type 0
Grows n batch after = length after.outcomes ≡ n + length batch.outcomes

-- One outcome is recorded before the others.
pub recorded-Grows :
    (n : ℕ) (t : HuntBatchTarget) (status : Status) (detail : Text) (batch after : HuntSlotBatch)
    → Grows n (recorded t status detail batch) after
    → Grows (1 + n) batch after
recorded-Grows n t status detail batch after h =
    let o : HuntBatchOutcome = record { target = t; status = status; detail = detail } in
    omega (arith, h, length-append batch.outcomes (o ∷ []))

-- A target that waits in the batch.
abbrev pub IsWaiting : HuntSlotBatch → HuntBatchTarget → Type 0
IsWaiting batch t = Memᴰ t batch.targets × (batch.state t.runtime_id ≡ pending)

-- The targets that wait still do when another one moves on.
pub waiting-set :
    (batch : HuntSlotBatch) (n : ℕ) (s : SlotState) (ts : List HuntBatchTarget)
    → All (λ t. n ≢ t.runtime_id) ts
    → All (IsWaiting batch) ts
    → All (λ t. Memᴰ t batch.targets × (set n s batch.state t.runtime_id ≡ pending)) ts
waiting-set batch n s [] h w = tt
waiting-set batch n s (t ∷ ts) (e, h) ((m, p), w) =
    ((m, set_other n t.runtime_id s batch.state e ∙ p), waiting-set batch n s ts h w)

All-middle :
    (P : ℕ → Type 0) (xs : List HuntBatchTarget) (t : HuntBatchTarget) (ts : List HuntBatchTarget)
    → All P (ids (xs ++ t ∷ ts))
    → P t.runtime_id × All P (ids (xs ++ ts))
All-middle P [] t ts (p, h) = (p, h)
All-middle P (x ∷ xs) t ts (p, h) = let (q, hs) = All-middle P xs t ts h in (q, (p, hs))

Distinct-middle :
    (xs : List HuntBatchTarget) (t : HuntBatchTarget) (ts : List HuntBatchTarget)
    → Distinct (ids (xs ++ t ∷ ts))
    → All (λ x. t.runtime_id ≢ x.runtime_id) xs × Distinct (ids (xs ++ ts))
Distinct-middle [] t ts (u, d) = (tt, d)
Distinct-middle (x ∷ xs) t ts (u, d) =
    let (q, us) = All-middle (λ i. x.runtime_id ≢ i) xs t ts u in
    let (h, ds) = Distinct-middle xs t ts d in ((λ e. q (sym e), h), (us, ds))

monsters_of-snoc :
    (xs : List HuntBatchTarget) (t : HuntBatchTarget)
    → monsters_of (xs ++ t ∷ []) ≡ monsters_of xs + count_of (is_monster t)
unfolding monsters_of
monsters_of-snoc [] t = omega arith
monsters_of-snoc (x ∷ xs) t = omega (arith, monsters_of-snoc xs t)

-- The targets that are selected wait, differ, and have a team if they are monsters.
pub record IsSelection (selected rest : List HuntBatchTarget) (batch : HuntSlotBatch) : Type 0 where
  pub batch_lem : IsBatch batch
  pub apart : Distinct (ids (selected ++ rest))
  pub waiting : All (IsWaiting batch) selected
  pub room : active_monster_count batch + monsters_of selected ≤ batch.concurrency

module _ (available : Option (List ℕ)) where
  -- What the loop over the remaining targets returns.
  abbrev Selects : HuntSlotBatch → List HuntBatchTarget → HuntSlotBatch → Type 0
  Selects batch out after =
      (n : ℕ) × Moves n batch after × Grows n batch after × IsSelection out [] after

  passed :
      (selected : List HuntBatchTarget) (t : HuntBatchTarget) (ts : List HuntBatchTarget)
      (batch : HuntSlotBatch)
      → IsSelection selected (t ∷ ts) batch
      → IsSelection selected ts batch
  passed selected t ts batch h = record {
    batch_lem = h.batch_lem;
    apart = (Distinct-middle selected t ts h.apart).1;
    waiting = h.waiting;
    room = h.room;
  }

  given_up :
      (selected : List HuntBatchTarget) (t : HuntBatchTarget) (ts : List HuntBatchTarget)
      (detail : Text) (batch : HuntSlotBatch)
      → Memᴰ t batch.targets
      → batch.state t.runtime_id ≡ pending
      → IsSelection selected (t ∷ ts) batch
      → Move 1 batch (recorded t reconciled detail batch)
        × IsSelection selected ts (recorded t reconciled detail batch)
  unfolding active_monster_count
  given_up selected t ts detail batch m p h =
      let step =
        close batch t reconciled detail m (subst (λ s. Ends s reconciled) (sym p) vanished) in
      let (apart, rest) = Distinct-middle selected t ts h.apart in
      let sum =
        total-set marching t (final reconciled) batch.state batch.targets h.batch_lem.distinct m in
      (
        step,
        record {
          batch_lem = (Move-After batch _ step h.batch_lem).0;
          apart = rest;
          waiting = waiting-set batch t.runtime_id (final reconciled) selected apart h.waiting;
          room = omega (arith, sum, h.room);
        },
      )

  taken :
      (selected : List HuntBatchTarget) (t : HuntBatchTarget) (ts : List HuntBatchTarget)
      (batch : HuntSlotBatch)
      → Memᴰ t batch.targets
      → batch.state t.runtime_id ≡ pending
      → (is_monster t ≡ true
          → active_monster_count batch + monsters_of selected + 1 ≤ batch.concurrency)
      → IsSelection selected (t ∷ ts) batch
      → IsSelection (selected ++ t ∷ []) ts batch
  taken selected t ts batch m p free h = record {
    batch_lem = h.batch_lem;
    apart = subst (λ xs. Distinct (ids xs)) (sym (append_assoc selected (t ∷ []) ts)) h.apart;
    waiting = All-append (IsWaiting batch) selected (t ∷ []) h.waiting ((m, p), tt);
    room = elim (Bool-cases (is_monster t)) [
      | inl e ↦ omega (arith, monsters_of-snoc selected t, ap count_of e, free e)
      | inr e ↦ omega (arith, monsters_of-snoc selected t, ap count_of e, h.room)
    ];
  }

  pub select_targets-Selects :
      (ts selected out : List HuntBatchTarget) (batch after : HuntSlotBatch)
      → select_targets available ts selected batch ≡ ok (out, after)
      → All (λ t. Memᴰ t batch.targets) ts
      → IsSelection selected ts batch
      → Selects batch out after
  unfolding select_targets
  select_targets-Selects [] selected out batch after h m s =
      let e = ok-injective (selected, batch) (out, after) h in
      subst (λ r. Selects batch r.0 r.1) e (0, done batch, omega arith, s)
  select_targets-Selects (t ∷ ts) selected out batch after h (m, ms) s =
      let monsters = active_monster_count batch + monsters_of selected in
      elim (Choice-cases (choose available monsters batch t)) [
        | inl e ↦
            select_targets-Selects ts selected out batch after (rw (select_targets, e) at h) ms
              (passed selected t ts batch s)
        | inr (inl e) ↦
            let waits = choose-gone available monsters batch t e in
            >>=-cases (record_outcome t reconciled _ batch) _ (rw (select_targets, e) at h)
              λ r recorded_now rest.
                let (_, is_after) = record_outcome-ok t reconciled _ batch r.1 r.0 recorded_now in
                let (step, s') = given_up selected t ts _ batch m waits s in
                let (n, moves, grown, selection) =
                  select_targets-Selects ts selected out _ after
                    (subst (λ b. select_targets available ts selected b ≡ ok (out, after))
                      (sym is_after) rest)
                    ms s' in
                (
                  1 + n,
                  next step moves refl,
                  recorded-Grows n t reconciled _ batch after grown,
                  selection,
                )
        | inr (inr e) ↦
            let (waits, free) = choose-take available monsters batch t e in
            select_targets-Selects ts (selected ++ t ∷ []) out batch after
              (rw (select_targets, e) at h) ms (taken selected t ts batch m waits free s)
      ]
