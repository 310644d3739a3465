-- ===== src/Hunt/Slots/Lives.antt =====
-- The states that a target of a slot batch goes through.
use mathlib.Core.Path.{subst}
use mumu_autotask.Prelude.{
  ℕ, ◌≡◌, ◌⊎◌, refl, sym, ◌∙◌, inl, inr, true, List, [], ◌∷◌, some, ◌==◌, ==_iff, ==_refl, arith,
  Bool-cases, ◌≢◌, All, All-imp,
}
use mumu_autotask.Python.Collect.{Distinct}
use mumu_autotask.Hunt.Target.{HuntBatchOutcome, Status, reconciled, set}
use mumu_autotask.Hunt.Slots.{SlotState, pending, dispatching, active, final, HuntSlotBatch}
use mumu_autotask.Hunt.Slots.Claim.{
  is_unresolved, is_rewritten, rewrite_state, reconcile_terminal_outcomes,
}
use mumu_autotask.Hunt.Slots.Moves.{
  Ends, Move, submit, depart, close, check, resolve, claim, answer, Moves, done, next, set_same,
  set_other,
}
use mumu_autotask.Hunt.Slots.Outcomes.{outcome_in, outcome_ids, outcome_of, rewrite_state-none}
use mumu_autotask.Hunt.Slots.Sound.{IsBatch, Move-After}

-- The edges of the diagram of a target's states.
infix 40 ◌⟶◌ ◌⟶*◌
pub data ◌⟶◌ : SlotState → SlotState → Type 0 where
  submitted : pending ⟶ dispatching
  departed : dispatching ⟶ active
  ended : {s : SlotState} {status : Status} → Ends s status → s ⟶ final status
  cleared : {status : Status} → is_unresolved status ≡ true → final status ⟶ final reconciled

-- The ways along the edges.
pub data ◌⟶*◌ : SlotState → SlotState → Type 0 where
  stay : {s : SlotState} → s ⟶* s
  go : {s t u : SlotState} → s ⟶ t → t ⟶* u → s ⟶* u

⟶*-join : {s t u : SlotState} → s ⟶* t → t ⟶* u → s ⟶* u
⟶*-join stay way = way
⟶*-join (go edge rest) way = go edge (⟶*-join rest way)

along : {s t : SlotState} → s ≡ t → s ⟶* t
along {s} e = subst (λ t. s ⟶* t) e stay

-- Only the target that moves has another state.
set-⟶* :
    (id n : ℕ) (value : SlotState) (state : ℕ → SlotState)
    → state id ⟶ value
    → state n ⟶* set id value state n
set-⟶* id n value state edge = elim (Bool-cases (id == n)) [
  | inl e ↦
      let is_n = (==_iff id n).0 e in
      subst (λ m. state m ⟶* set id value state m) is_n
        (subst (λ s. state id ⟶* s) (sym (set_same id value state)) (go edge stay))
  | inr e ↦ along (sym (set_other id n value state (λ p. cc (e, p, ==_refl n))))
]

module _ (terminal : List ℕ) where
  -- The loop over the outcomes leaves a state or clears a failure.
  rewrite_state-cases :
      (outcomes : List HuntBatchOutcome) (state : ℕ → SlotState) (n : ℕ)
      → Distinct (outcome_ids outcomes)
      → (rewrite_state terminal outcomes state n ≡ state n)
        ⊎ ((status : Status) × (outcome_of outcomes n ≡ some status)
            × (is_unresolved status ≡ true)
            × (rewrite_state terminal outcomes state n ≡ final reconciled))
  unfolding rewrite_state is_rewritten
  rewrite_state-cases [] state n d = inl refl
  rewrite_state-cases (o ∷ outcomes) state n (u, d) =
      let id = o.target.runtime_id in
      let written = set id (final reconciled) state in
      elim (Bool-cases (id == n)) [
        | inl e ↦
            let is_n : id ≡ n = (==_iff id n).0 e in
            let others : All (λ i. i ≢ n) (outcome_ids outcomes) =
              All-imp (λ i. id ≢ i) (λ i. i ≢ n) (λ i p q. p (is_n ∙ sym q)) (outcome_ids outcomes)
                u in
            elim (Bool-cases (is_rewritten terminal o)) [
              | inl w ↦
                  let at : written n ≡ final reconciled =
                    subst (λ m. written m ≡ final reconciled) is_n
                      (set_same id (final reconciled) state) in
                  inr (
                    o.status,
                    rw e refl,
                    ground arith,
                    rw w (rewrite_state-none terminal [] outcomes written n others ∙ at),
                  )
              | inr w ↦ inl (rw w (rewrite_state-none terminal [] outcomes state n others))
            ]
        | inr e ↦
            let same_n : written n ≡ state n =
              set_other id n (final reconciled) state (λ p. cc (e, p, ==_refl n)) in
            elim (Bool-cases (is_rewritten terminal o)) [
              | inl w ↦ elim (rewrite_state-cases outcomes written n d) [
                | inl same ↦ inl (rw w (same ∙ same_n))
                | inr (status, found, failure, at) ↦ inr (status, rw e found, failure, rw w at)
              ]
              | inr w ↦ elim (rewrite_state-cases outcomes state n d) [
                | inl same ↦ inl (rw w same)
                | inr (status, found, failure, at) ↦ inr (status, rw e found, failure, rw w at)
              ]
            ]
      ]

outcome_in-some : (s : SlotState) (r : Status) → outcome_in s ≡ some r → s ≡ final r
outcome_in-some pending r h = cc h
outcome_in-some dispatching r h = cc h
outcome_in-some active r h = cc h
outcome_in-some (final status) r h = ground arith

resolve-⟶* :
    (batch : HuntSlotBatch) (terminal : List ℕ) (n : ℕ)
    → IsBatch batch
    → batch.state n ⟶* rewrite_state terminal batch.outcomes batch.state n
resolve-⟶* batch terminal n h =
    elim (rewrite_state-cases terminal batch.outcomes batch.state n h.once) [
      | inl same ↦ along (sym same)
      | inr (status, found, failure, at) ↦
          let old = outcome_in-some (batch.state n) status (sym (h.agree n) ∙ found) in
          rw (old, at) (go (cleared failure) stay)
    ]

Move-⟶* : {m : ℕ} (a b : HuntSlotBatch) → Move m a b → IsBatch a → (n : ℕ) → a.state n ⟶* b.state n
unfolding reconcile_terminal_outcomes
Move-⟶* a b (submit batch t m s room) h n =
    set-⟶* t.runtime_id n dispatching batch.state (subst (λ s. s ⟶ dispatching) (sym s) submitted)
Move-⟶* a b (depart batch t m s) h n =
    set-⟶* t.runtime_id n active batch.state (subst (λ s. s ⟶ active) (sym s) departed)
Move-⟶* a b (close batch t status detail m e) h n =
    set-⟶* t.runtime_id n (final status) batch.state (ended e)
Move-⟶* a b (check batch c) h n = stay
Move-⟶* a b (resolve batch terminal detail) h n = resolve-⟶* batch terminal n h
Move-⟶* a b (claim batch e c) h n = stay
Move-⟶* a b (answer batch verified error e) h n = stay

pub Moves-⟶* :
    {m : ℕ} (a b : HuntSlotBatch) → Moves m a b → IsBatch a → (n : ℕ) → a.state n ⟶* b.state n
Moves-⟶* a b (done batch) h n = stay
Moves-⟶* a b (next {b = c} step rest e) h n =
    ⟶*-join (Move-⟶* a c step h n) (Moves-⟶* c b rest (Move-After a c step h).0 n)
