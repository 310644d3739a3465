-- ===== src/Hunt/Answers/Proved.antt =====
-- What the window records of an answer is proved by the answer.
use mathlib.Core.Path.{subst}
use mathlib.Core.List.{Memᴰ}
use mathlib.Core.List.Memᴰ.{head, tail}
use mumu_autotask.Prelude.{
  ℕ, ◌≡◌, ◌⊎◌, refl, sym, ap, ◌∙◌, inl, inr, true, ◌&&◌, List, [], ◌∷◌, Option, ◌==◌, ==_iff, arith,
  Bool-cases, &&-iff, All, All-imp, ok, >>=-cases, ok-injective,
}
use mumu_autotask.Python.Value.{Text}
use mumu_autotask.Python.Text.{lit}
use mumu_autotask.Business.Select.{keep_if}
use mumu_autotask.Hunt.Target.{HuntBatchOutcome, holds}
use mumu_autotask.Hunt.Slots.{HuntSlotBatch, active_ids}
use mumu_autotask.Hunt.Slots.Claim.{
  is_unresolved, is_rewritten, updates_of, reconcile_terminal_outcomes,
}
use mumu_autotask.Hunt.Slots.Outcomes.{outcome_ids}
use mumu_autotask.Hunt.Slots.Steps.{Reached}
use mumu_autotask.Hunt.Slots.Completed.{mark_completed_total}
use mumu_autotask.Hunt.Json.{Json, array, Elements, Members, get_or_else, get, to_list}
use mumu_autotask.Hunt.Receipts.{terminal_target_ids_from_status_payload}
use mumu_autotask.Hunt.Receipts.Reads.{IsStatus}
use mumu_autotask.Hunt.Receipts.Terminal.{
  AreTerminal, terminal_target_ids_from_status_payload_sound,
}
use mumu_autotask.Hunt.Answers.{slot_wait_finished, final_hunt_reconciled}

-- The targets and their statuses, one by one.
abbrev pub zip : List ℕ → List Json → List (ℕ × Json)
zip [] statuses = []
zip (id ∷ ids) [] = []
zip (id ∷ ids) (j ∷ statuses) = (id, j) ∷ zip ids statuses

-- In its place the target is reported as completed or missing.
abbrev pub HasEnded : List (ℕ × Json) → ℕ → Type 0
HasEnded reported id =
    (j : Json) × Memᴰ (id, j) reported
    × (IsStatus id (lit "COMPLETED") j ⊎ IsStatus id (lit "MISSING") j)

HasEnded-cons :
    (p : ℕ × Json) (reported : List (ℕ × Json)) (id : ℕ)
    → HasEnded reported id
    → HasEnded (p ∷ reported) id
HasEnded-cons p reported id (j, m, s) = (j, tail m, s)

AreTerminal-HasEnded :
    (ids : List ℕ) (statuses : List Json) (out : List ℕ)
    → AreTerminal ids statuses out
    → All (HasEnded (zip ids statuses)) out
AreTerminal-HasEnded [] statuses out h = subst (All (HasEnded [])) (sym h) tt
AreTerminal-HasEnded (id ∷ ids) [] out h = subst (All (HasEnded [])) (sym h) tt
AreTerminal-HasEnded (id ∷ ids) (j ∷ statuses) out (inl (ended, (rest, e, h))) =
    let reported = zip ids statuses in
    subst (All (HasEnded ((id, j) ∷ reported))) (sym e) (
      (j, head refl, ended),
      All-imp (HasEnded reported) (HasEnded ((id, j) ∷ reported)) (HasEnded-cons (id, j) reported)
          rest (AreTerminal-HasEnded ids statuses rest h),
    )
AreTerminal-HasEnded (id ∷ ids) (j ∷ statuses) out (inr (waits, h)) =
    let reported = zip ids statuses in
    All-imp (HasEnded reported) (HasEnded ((id, j) ∷ reported)) (HasEnded-cons (id, j) reported) out
      (AreTerminal-HasEnded ids statuses out h)

holds-All : (P : ℕ → Type 0) (n : ℕ) (xs : List ℕ) → All P xs → holds n xs ≡ true → P n
unfolding holds
holds-All P n [] all h = absurd (cc h)
holds-All P n (x ∷ xs) (p, all) h = elim (Bool-cases (n == x)) [
  | inl e ↦ subst P (sym ((==_iff n x).0 e)) p
  | inr e ↦ holds-All P n xs all (ground arith)
]

module _ (P : ℕ → Type 0) (terminal : List ℕ) (ended : All P terminal) where
  keep_if-ended : (ids : List ℕ) → All P (keep_if (λ i. holds i terminal) ids)
  unfolding keep_if
  keep_if-ended [] = tt
  keep_if-ended (i ∷ ids) = elim (Bool-cases (holds i terminal)) [
    | inl e ↦ rw e (holds-All P i terminal ended e, keep_if-ended ids)
    | inr e ↦ rw e (keep_if-ended ids)
  ]

  updates_of-ended :
      (detail : Text) (outcomes : List HuntBatchOutcome)
      → All P (outcome_ids (updates_of terminal detail outcomes))
  unfolding updates_of is_rewritten
  updates_of-ended detail [] = tt
  updates_of-ended detail (o ∷ outcomes) =
      elim (Bool-cases (is_unresolved o.status && holds o.target.runtime_id terminal)) [
        | inl e ↦
            let (_, held) =
              (&&-iff (is_unresolved o.status) (holds o.target.runtime_id terminal)).0 e in
            rw e (
              holds-All P o.target.runtime_id terminal ended held,
              updates_of-ended detail outcomes,
            )
        | inr e ↦ rw e (updates_of-ended detail outcomes)
      ]

-- The statuses of an answer.
abbrev pub statuses_in : Members → Json
statuses_in payload = get_or_else (lit "statuses_after") payload (get (lit "statuses") payload)

-- The outcomes that an answer to a wait makes in a slot batch that was reached are of targets that the
-- answer reports, in their place, as completed or missing.
pub slot_wait_finished_sound :
    (n : ℕ) (batch after : HuntSlotBatch) (payload : Members) (serial : Text)
    (expected_ids : List ℕ) (role : Option Text) (kingdom : Option ℕ) (out : List HuntBatchOutcome)
    → Reached n batch
    → slot_wait_finished payload serial expected_ids role kingdom batch ≡ ok (out, after)
    → (es : Elements) × (statuses_in payload ≡ array es)
      × All (HasEnded (zip expected_ids (to_list es))) (outcome_ids out)
unfolding slot_wait_finished
slot_wait_finished_sound n batch after payload serial expected_ids role kingdom out r h =
    >>=-cases (terminal_target_ids_from_status_payload payload serial expected_ids role kingdom) _ h
      λ terminal answered h₁.
        let (_, _, _, _, es, is_array, _, all) =
          terminal_target_ids_from_status_payload_sound payload serial expected_ids terminal role
            kingdom answered in
        let (out', after', runs, exact, _, _) = mark_completed_total n batch terminal _ r in
        let same_out : out' ≡ out =
          ap (λ p. p.0) (ok-injective (out', after') (out, after) (sym runs ∙ h₁)) in
        let P = HasEnded (zip expected_ids (to_list es)) in
        (
          es,
          is_array,
          subst (All P) (sym exact ∙ ap outcome_ids same_out) (
              keep_if-ended P terminal (AreTerminal-HasEnded expected_ids (to_list es) terminal all)
                (active_ids batch)),
        )

-- The outcomes that the last check of a slot batch returns as resolved are of targets that its answer
-- reports, in their place, as completed or missing.
pub final_hunt_reconciled_sound :
    (batch after : HuntSlotBatch) (payload : Members) (serial : Text) (target_ids : List ℕ)
    (role : Option Text) (kingdom : Option ℕ) (out : List HuntBatchOutcome)
    → final_hunt_reconciled payload serial target_ids role kingdom batch ≡ ok (out, after)
    → (es : Elements) × (statuses_in payload ≡ array es)
      × All (HasEnded (zip target_ids (to_list es))) (outcome_ids out)
unfolding final_hunt_reconciled reconcile_terminal_outcomes
final_hunt_reconciled_sound batch after payload serial target_ids role kingdom out h =
    >>=-cases (terminal_target_ids_from_status_payload payload serial target_ids role kingdom) _ h
      λ terminal answered h₁.
        let (_, _, _, _, es, is_array, _, all) =
          terminal_target_ids_from_status_payload_sound payload serial target_ids terminal role
            kingdom answered in
        let P = HasEnded (zip target_ids (to_list es)) in
        (
          es,
          is_array,
          subst (λ o. All P (outcome_ids o)) (ap (λ p. p.0) (ok-injective _ (out, after) h₁))
              (updates_of-ended P terminal
                (AreTerminal-HasEnded target_ids (to_list es) terminal all) _ batch.outcomes),
        )
