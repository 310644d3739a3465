-- ===== src/Hunt/Slots/Outcomes.antt =====
-- The outcomes of a slot batch beside the final states of its targets.
use mathlib.Core.Path.{subst}
use mumu_autotask.Prelude.{
  ℕ, suc, ◌≡◌, ◌≢◌, refl, sym, ap, ◌∙◌, inl, inr, true, false, List, [], ◌∷◌, ◌++◌, map, Option,
  none, some, ◌==◌, ==_iff, ==_refl, length, if◌then◌else◌, arith, Bool-cases, All, All-imp, ◌⊎◌,
  Option-cases,
}
use mumu_autotask.Python.Value.{Text}
use mumu_autotask.Python.Collect.{Distinct}
use mumu_autotask.Hunt.Target.{HuntBatchOutcome, Status, reconciled, set}
use mumu_autotask.Hunt.Slots.{SlotState, pending, dispatching, active, final, is_final}
use mumu_autotask.Hunt.Slots.Claim.{is_rewritten, rewrite_outcomes, rewrite_state}
use mumu_autotask.Hunt.Slots.Moves.{set_same, set_other}

-- The status that a final state stands for.
abbrev pub outcome_in : SlotState → Option Status
outcome_in pending = none
outcome_in dispatching = none
outcome_in active = none
outcome_in (final status) = some status

abbrev pub outcome_ids : List HuntBatchOutcome → List ℕ
outcome_ids outcomes = map (λ o. o.target.runtime_id) outcomes

-- The first outcome of an id.
abbrev pub outcome_of : List HuntBatchOutcome → ℕ → Option Status
outcome_of [] n = none
outcome_of (o ∷ outcomes) n =
    if o.target.runtime_id == n then some o.status else outcome_of outcomes n

pub outcome_in-final :
    (s : SlotState) (status : Status) → outcome_in s ≡ some status → is_final s ≡ true
outcome_in-final pending status h = cc h
outcome_in-final dispatching status h = cc h
outcome_in-final active status h = cc h
outcome_in-final (final s) status h = refl

pub outcome_in-set :
    (id n : ℕ) (value : SlotState) (state : ℕ → SlotState)
    → outcome_in value ≡ outcome_in (state id)
    → outcome_in (set id value state n) ≡ outcome_in (state n)
outcome_in-set id n value state h =
    unfold set in
    elim (Bool-cases (n == id)) [ inl e ↦ let p = (==_iff n id).0 e in rw (e, h, p) | inr e ↦ rw e ]

-- An id without outcome is none of the ids of the outcomes.
pub outcome_of-none :
    (outcomes : List HuntBatchOutcome) (n : ℕ)
    → outcome_of outcomes n ≡ none
    → All (λ i. i ≢ n) (outcome_ids outcomes)
outcome_of-none [] n h = tt
outcome_of-none (o ∷ outcomes) n h = elim (Bool-cases (o.target.runtime_id == n)) [
  | inl e ↦ absurd (cc (h, e))
  | inr e ↦ (λ p. cc (e, ==_refl n, p), outcome_of-none outcomes n (cc (h, e)))
]

pub Distinct-snoc :
    (xs : List ℕ) (n : ℕ) → Distinct xs → All (λ i. i ≢ n) xs → Distinct (xs ++ n ∷ [])
Distinct-snoc [] n d h = (tt, tt)
Distinct-snoc (x ∷ xs) n (u, d) (e, h) = (all xs u, Distinct-snoc xs n d h)
  where
    all : (ys : List ℕ) → All (λ y. x ≢ y) ys → All (λ y. x ≢ y) (ys ++ n ∷ [])
    all [] a = (e, tt)
    all (y ∷ ys) (a, as') = (a, all ys as')

pub outcome_of-snoc :
    (outcomes : List HuntBatchOutcome) (o : HuntBatchOutcome) (n : ℕ)
    → outcome_of outcomes o.target.runtime_id ≡ none
    → outcome_of (outcomes ++ o ∷ []) n
      ≡ (if o.target.runtime_id == n then some o.status else outcome_of outcomes n)
outcome_of-snoc [] o n h = refl
outcome_of-snoc (p ∷ outcomes) o n h =
    elim (Bool-cases (p.target.runtime_id == o.target.runtime_id)) [
      | inl e ↦ absurd (cc (h, e))
      | inr e ↦
          let ih = outcome_of-snoc outcomes o n (cc (h, e)) in
          elim (Bool-cases (p.target.runtime_id == n)) [
            | inl q ↦ let other : (o.target.runtime_id == n) ≡ false = ground arith in rw (q, other)
            | inr q ↦ rw (q, ih)
          ]
    ]

pub not_in-outcome_of :
    (outcomes : List HuntBatchOutcome) (n : ℕ)
    → All (λ i. i ≢ n) (outcome_ids outcomes)
    → outcome_of outcomes n ≡ none
not_in-outcome_of [] n h = refl
not_in-outcome_of (o ∷ outcomes) n (h, hs) = elim (Bool-cases (o.target.runtime_id == n)) [
  | inl e ↦ absurd (h ((==_iff o.target.runtime_id n).0 e))
  | inr e ↦ rw (e, not_in-outcome_of outcomes n hs)
]

pub outcome_ids-snoc :
    (outcomes : List HuntBatchOutcome) (o : HuntBatchOutcome)
    → outcome_ids (outcomes ++ o ∷ []) ≡ outcome_ids outcomes ++ o.target.runtime_id ∷ []
outcome_ids-snoc [] o = refl
outcome_ids-snoc (p ∷ outcomes) o =
    ap (λ ns. p.target.runtime_id ∷ ns) (outcome_ids-snoc outcomes o)

-- The new outcome and the new final state agree, if the old ones do.
pub outcome_in-final_set :
    (id n : ℕ) (status : Status) (state : ℕ → SlotState) (outcomes : List HuntBatchOutcome)
    → outcome_of outcomes n ≡ outcome_in (state n)
    → (if id == n then some status else outcome_of outcomes n)
      ≡ outcome_in (set id (final status) state n)
outcome_in-final_set id n status state outcomes h =
    unfold set in
    elim (Bool-cases (n == id)) [
      | inl e ↦ let e' : (id == n) ≡ true = ground arith in rw (e, e')
      | inr e ↦ let e' : (id == n) ≡ false = ground arith in rw (e, e', h)
    ]

module _ (terminal : List ℕ) (detail : Text) where
  pub outcome_ids-rewrite :
      (outcomes : List HuntBatchOutcome)
      → outcome_ids (rewrite_outcomes terminal detail outcomes) ≡ outcome_ids outcomes
  unfolding rewrite_outcomes
  outcome_ids-rewrite [] = refl
  outcome_ids-rewrite (o ∷ outcomes) = elim (Bool-cases (is_rewritten terminal o)) [
    | inl e ↦ rw (e, outcome_ids-rewrite outcomes)
    | inr e ↦ rw (e, outcome_ids-rewrite outcomes)
  ]

  pub length-rewrite :
      (outcomes : List HuntBatchOutcome)
      → length (rewrite_outcomes terminal detail outcomes) ≡ length outcomes
  unfolding rewrite_outcomes
  length-rewrite [] = refl
  length-rewrite (o ∷ outcomes) = ap suc (length-rewrite outcomes)

  -- The state of an id without outcome is left as it is.
  pub rewrite_state-none :
      (outcomes : List HuntBatchOutcome) (state : ℕ → SlotState) (n : ℕ)
      → All (λ i. i ≢ n) (outcome_ids outcomes)
      → rewrite_state terminal outcomes state n ≡ state n
  unfolding rewrite_state
  rewrite_state-none [] state n h = refl
  rewrite_state-none (o ∷ outcomes) state n (h, hs) = elim (Bool-cases (is_rewritten terminal o)) [
    | inl e ↦
        let written = set o.target.runtime_id (final reconciled) state in
        rw e (
          rewrite_state-none outcomes written n hs
          ∙ set_other o.target.runtime_id n (final reconciled) state h)
    | inr e ↦ rw e (rewrite_state-none outcomes state n hs)
  ]

  -- The outcomes and the final states of the ids are rewritten alike.
  pub rewrite_agrees :
      (outcomes : List HuntBatchOutcome) (state : ℕ → SlotState) (n : ℕ)
      → Distinct (outcome_ids outcomes)
      → outcome_of outcomes n ≡ outcome_in (state n)
      → outcome_of (rewrite_outcomes terminal detail outcomes) n
        ≡ outcome_in (rewrite_state terminal outcomes state n)
  unfolding rewrite_outcomes rewrite_state
  rewrite_agrees [] state n d h = h
  rewrite_agrees (o ∷ outcomes) state n (u, d) h =
      let id = o.target.runtime_id in
      let written = set id (final reconciled) state in
      elim (Bool-cases (id == n)) [
        | inl e ↦
            let is_n : id ≡ n = (==_iff id n).0 e in
            let others : All (λ i. i ≢ n) (outcome_ids outcomes) =
              All-imp (λ i. id ≢ i) (λ i. i ≢ n) (λ i p q. p (is_n ∙ sym q)) (outcome_ids outcomes)
                u in
            elim (Bool-cases (is_rewritten terminal o)) [
              | inl w ↦
                  let at : written n ≡ final reconciled =
                    subst (λ m. written m ≡ final reconciled) is_n
                      (set_same id (final reconciled) state) in
                  rw (w, e, rewrite_state-none outcomes written n others, at)
              | inr w ↦ rw (w, e, rewrite_state-none outcomes state n others) (cc (h, e))
            ]
        | inr e ↦
            let ne : id ≢ n = λ p. cc (e, p, ==_refl n) in
            let rest : outcome_of outcomes n ≡ outcome_in (state n) = cc (h, e) in
            elim (Bool-cases (is_rewritten terminal o)) [
              | inl w ↦
                  let same_n = set_other id n (final reconciled) state ne in
                  rw (w, e)
                    (rewrite_agrees outcomes written n d (rest ∙ ap outcome_in (sym same_n)))
              | inr w ↦ rw (w, e) (rewrite_agrees outcomes state n d rest)
            ]
      ]

  -- A state stays, or was final and is.
  pub rewrite_state-final :
      (outcomes : List HuntBatchOutcome) (state : ℕ → SlotState) (n : ℕ)
      → Distinct (outcome_ids outcomes)
      → outcome_of outcomes n ≡ outcome_in (state n)
      → (rewrite_state terminal outcomes state n ≡ state n)
        ⊎ ((is_final (state n) ≡ true)
            × (is_final (rewrite_state terminal outcomes state n) ≡ true))
  rewrite_state-final outcomes state n d h = elim (Option-cases (outcome_of outcomes n)) [
    | inl e ↦ inl (rewrite_state-none outcomes state n (outcome_of-none outcomes n e))
    | inr (status, e) ↦ inr (outcome_in-final (state n) status (sym h ∙ e), after status e)
  ]
    where
      after :
          (status : Status)
          → outcome_of outcomes n ≡ some status
          → is_final (rewrite_state terminal outcomes state n) ≡ true
      after status e = elim (Option-cases (outcome_in (rewrite_state terminal outcomes state n))) [
        | inl gone ↦
            let all =
              outcome_of-none (rewrite_outcomes terminal detail outcomes) n
                (rewrite_agrees outcomes state n d h ∙ gone) in
            let back =
              not_in-outcome_of outcomes n
                (subst (All (λ i. i ≢ n)) (outcome_ids-rewrite outcomes) all) in
            absurd (cc (back, e))
        | inr (s, e') ↦ outcome_in-final (rewrite_state terminal outcomes state n) s e'
      ]
