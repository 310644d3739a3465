-- ===== src/Hunt/Slots/Sound.antt =====
-- What holds of every slot batch, as its targets move on.
use mathlib.Core.Path.{subst}
use mathlib.Core.List.{Memᴰ}
use mumu_autotask.Prelude.{
  ℕ, ◌+◌, ◌≤◌, ◌≡◌, refl, sym, ap, ◌∙◌, inl, inr, List, [], ◌∷◌, none, length, length-append, arith,
  Bool-cases,
}
use mumu_autotask.Python.Value.{Text}
use mumu_autotask.Python.Collect.{Distinct}
use mumu_autotask.Hunt.Target.{
  HuntBatchTarget, HuntBatchOutcome, Status, is_monster, set, ids, max_hunt_concurrency,
}
use mumu_autotask.Hunt.Slots.{
  SlotState, pending, dispatching, active, final, HuntSlotBatch, count_of, total, marching,
  active_monster_count, recorded, moved,
}
use mumu_autotask.Hunt.Slots.Claim.{updates_of, rewrite_state, reconcile_terminal_outcomes}
use mumu_autotask.Hunt.Slots.Moves.{
  Move, submit, depart, close, resolve, check, claim, answer, Ends, Ends-open, total-set, total-ext,
  Moves, done, next,
}
use mumu_autotask.Hunt.Slots.Outcomes.{
  outcome_in, outcome_ids, outcome_of, outcome_in-set, outcome_of-none, outcome_of-snoc,
  outcome_in-final_set, outcome_ids-snoc, length-rewrite, Distinct-snoc, outcome_ids-rewrite,
  rewrite_agrees, rewrite_state-final,
}
use mumu_autotask.Hunt.Slots.Weights.{
  undecided, ahead, AreAlike, final-AreAlike, outcome_in-none, undecided-one, Ends-ahead,
}
use mumu_autotask.Hunt.Slots.Failures.{failures, failures-snoc, failures-rewrite}

-- The targets have different ids; the monsters in flight are no more than the teams, of which there
-- are one to four; an id has an outcome if and only if its state is final, with the same status; no
-- id has two outcomes; there are as many outcomes as targets in a final state.
pub record IsConsistent (targets : List HuntBatchTarget) (concurrency : ℕ) (state : ℕ → SlotState)
    (outcomes : List HuntBatchOutcome) : Type 0 where
  pub distinct : Distinct (ids targets)
  pub teams : (1 ≤ concurrency) × (concurrency ≤ max_hunt_concurrency)
  pub capacity : total marching state targets ≤ concurrency
  pub agree : (n : ℕ) → outcome_of outcomes n ≡ outcome_in (state n)
  pub once : Distinct (outcome_ids outcomes)
  pub tally : length outcomes + total undecided state targets ≡ length targets

abbrev pub IsBatch : HuntSlotBatch → Type 0
IsBatch batch = IsConsistent batch.targets batch.concurrency batch.state batch.outcomes

-- A batch after a change, which has come closer to its outcomes.
abbrev After : ℕ → HuntSlotBatch → HuntSlotBatch → Type 0
After n a b =
    IsBatch b
    × (n + total ahead b.state b.targets + failures b.outcomes
        ≤ total ahead a.state a.targets + failures a.outcomes)
    × (b.targets ≡ a.targets)

module _ (batch : HuntSlotBatch) (h : IsBatch batch) where
  -- The sum of the weights behind a change of a target's state.
  sum_after :
      (weight : SlotState → HuntBatchTarget → ℕ) (t : HuntBatchTarget) (s : SlotState)
      → Memᴰ t batch.targets
      → total weight (set t.runtime_id s batch.state) batch.targets
          + weight (batch.state t.runtime_id) t
        ≡ total weight batch.state batch.targets + weight s t
  sum_after weight t s m = total-set weight t s batch.state batch.targets h.distinct m

  moved-After :
      (t : HuntBatchTarget) (old s : SlotState)
      → Memᴰ t batch.targets
      → batch.state t.runtime_id ≡ old
      → outcome_in s ≡ outcome_in old
      → undecided s t ≡ undecided old t
      → 1 + ahead s t ≤ ahead old t
      → total marching batch.state batch.targets + marching s t ≤ batch.concurrency + marching old t
      → After 1 batch (moved t s batch)
  moved-After t old s m is_old outcome one closer room = (
    record {
      distinct = h.distinct;
      teams = h.teams;
      capacity = omega (arith, sum_after marching t s m, ap (λ r. marching r t) is_old, room);
      agree = λ n.
          h.agree n
          ∙ sym
              (outcome_in-set t.runtime_id n s batch.state (outcome ∙ ap outcome_in (sym is_old)));
      once = h.once;
      tally =
          omega (arith, sum_after undecided t s m, ap (λ r. undecided r t) is_old, one, h.tally);
    },
    omega (arith, sum_after ahead t s m, ap (λ r. ahead r t) is_old, closer),
    refl,
  )

  recorded-After :
      (t : HuntBatchTarget) (status : Status) (detail : Text)
      → Memᴰ t batch.targets
      → Ends (batch.state t.runtime_id) status
      → After 1 batch (recorded t status detail batch)
  recorded-After t status detail m ends =
      let s = Ends-open (batch.state t.runtime_id) status ends in
      let o : HuntBatchOutcome = record { target = t; status = status; detail = detail } in
      let undecided_now : outcome_of batch.outcomes t.runtime_id ≡ none =
        h.agree t.runtime_id ∙ outcome_in-none (batch.state t.runtime_id) s in
      let state = batch.state t.runtime_id in
      (
        record {
          distinct = h.distinct;
          teams = h.teams;
          capacity = omega (arith, sum_after marching t (final status) m, h.capacity);
          agree = λ n.
              outcome_of-snoc batch.outcomes o n undecided_now
              ∙ outcome_in-final_set t.runtime_id n status batch.state batch.outcomes (h.agree n);
          once = subst Distinct (sym (outcome_ids-snoc batch.outcomes o)) (
              Distinct-snoc (outcome_ids batch.outcomes) t.runtime_id h.once
                (outcome_of-none batch.outcomes t.runtime_id undecided_now));
          tally = omega (
            arith,
            sum_after undecided t (final status) m,
            undecided-one state t s,
            h.tally,
            length-append batch.outcomes (o ∷ []),
          );
        },
        omega (
          arith,
          sum_after ahead t (final status) m,
          Ends-ahead state status t ends,
          failures-snoc batch.outcomes o,
        ),
        refl,
      )

  resolved-After :
      (terminal : List ℕ) (detail : Text)
      → After
          (length (updates_of terminal detail batch.outcomes))
          batch
          (reconcile_terminal_outcomes terminal detail batch).1
  unfolding reconcile_terminal_outcomes
  resolved-After terminal detail =
      let alike : (n : ℕ)
          → AreAlike (rewrite_state terminal batch.outcomes batch.state n) (batch.state n) =
        λ n.
          elim (rewrite_state-final terminal detail batch.outcomes batch.state n h.once
            (h.agree n)) [
              | inl e ↦ λ t. rw e (refl, refl, refl)
              | inr (f, g) ↦ final-AreAlike _ _ g f
            ] in
      let after = rewrite_state terminal batch.outcomes batch.state in
      let sums =
        λ (weight : SlotState → HuntBatchTarget → ℕ)
            (e : (t : HuntBatchTarget)
              → weight (after t.runtime_id) t ≡ weight (batch.state t.runtime_id) t).
          total-ext weight weight after batch.state batch.targets e in
      (
        record {
          distinct = h.distinct;
          teams = h.teams;
          capacity = omega (arith, sums marching (λ t. (alike t.runtime_id t).0), h.capacity);
          agree =
              λ n. rewrite_agrees terminal detail batch.outcomes batch.state n h.once (h.agree n);
          once = subst Distinct (sym (outcome_ids-rewrite terminal detail batch.outcomes)) h.once;
          tally = omega (
            arith,
            sums undecided (λ t. (alike t.runtime_id t).1),
            length-rewrite terminal detail batch.outcomes,
            h.tally,
          );
        },
        omega (
          arith,
          sums ahead (λ t. (alike t.runtime_id t).2),
          failures-rewrite terminal detail batch.outcomes,
        ),
        refl,
      )

pub Move-After : {n : ℕ} (a b : HuntSlotBatch) → Move n a b → IsBatch a → After n a b
unfolding active_monster_count
Move-After a b (submit batch t m s room) h =
    moved-After batch h t pending dispatching m s refl refl (omega arith)
      (elim (Bool-cases (is_monster t)) [
        | inl e ↦ omega (arith, ap count_of e, room e)
        | inr e ↦ omega (arith, ap count_of e, h.capacity)
      ])
Move-After a b (depart batch t m s) h =
    moved-After batch h t dispatching active m s refl refl (omega arith) (omega (arith, h.capacity))
Move-After a b (close batch t status detail m s) h = recorded-After batch h t status detail m s
Move-After a b (resolve batch terminal detail) h = resolved-After batch h terminal detail
Move-After a b (check batch c) h = (h, omega arith, refl)
Move-After a b (claim batch e c) h = (h, omega arith, refl)
Move-After a b (answer batch verified error e) h = (h, omega arith, refl)

pub Moves-After : {n : ℕ} (a b : HuntSlotBatch) → Moves n a b → IsBatch a → After n a b
Moves-After a b (done batch) h = (h, omega arith, refl)
Moves-After a b (next {b = c} step rest e) h =
    let (hc, pc, tc) = Move-After a c step h in
    let (hb, pb, tb) = Moves-After c b rest hc in (hb, omega (arith, e, pc, pb), tb ∙ tc)
