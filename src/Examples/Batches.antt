-- ===== src/Examples/Batches.antt =====
-- The batches of intelligence targets at concrete inputs.
use mumu_autotask.Prelude.{
  ℕ, ◌≤◌, ◌≡◌, ◌⊎◌, refl, true, false, List, [], ◌∷◌, ◌++◌, none, some, is_empty, All, arith, ok,
  err, hunt_batch,
}
use mumu_autotask.Python.Value.{int, str, pos}
use mumu_autotask.Python.Text.{lit, same}
use mumu_autotask.Python.Collect.{member}
use mumu_autotask.Business.Intel.{has_duplicate}
use mumu_autotask.Business.Select.{keep_if}
use mumu_autotask.Hunt.Target.{
  HuntBatchTarget, HuntBatchOutcome, Status, success, skipped, Item, positive_number, text_in,
  level_of, from_item, is_monster, holds, is_gone, or_default, set, check_concurrency, same_status,
  counts, has_unresolved, ids,
}
use mumu_autotask.Hunt.Slots.{
  pending, dispatching, active, HuntSlotBatch, create, ids_where, active_ids, total,
  active_monster_count, complete, record_outcome, recorded, moved,
}
use mumu_autotask.Hunt.Slots.Dispatch.{
  choose, monsters_of, select_targets, submit_all, next_dispatch_targets, by_id, require_state,
  mark_dispatched, complete_ids, mark_completed,
}
use mumu_autotask.Hunt.Slots.Claim.{can_claim, begin_claim}
use mumu_autotask.Hunt.Slots.Moves.{Moves}
use mumu_autotask.Hunt.Slots.Lives.{◌⟶*◌}
use mumu_autotask.Hunt.Slots.Outcomes.{outcome_ids}
use mumu_autotask.Hunt.Slots.Sound.{IsBatch}
use mumu_autotask.Hunt.Slots.Steps.{
  Step, dispatched_all, marched, completed, Step-Moves, Reached, created, worked, Reached-IsBatch,
  Reached-bound,
}
use mumu_autotask.Hunt.Slots.Claimed.{IsResolved, Works, begin_claim_sound}
use mumu_autotask.Hunt.Slots.Live.{next_dispatch_targets_live}
use mumu_autotask.Hunt.Slots.Completed.{IsExtended, mark_completed_total}
use mumu_autotask.Hunt.Waves.{range_from, range, is_battle, monster_waves, attach, build_hunt_waves}
use mumu_autotask.Hunt.Waves.Cut.{IsWaves, build_hunt_waves-IsWaves}
use mumu_autotask.Hunt.Target
use mumu_autotask.Hunt.Sequence.{
  HuntBatchQueue, create_queue, turn_of, append_outcome, take_turns, next_target, require_current,
  finish, block, attempt_error_or, fail_reconciliation, is_complete,
}
use mumu_autotask.Hunt.Sequence.Order.{handled, attempted, IsCautious}
use mumu_autotask.Hunt.Sequence.Worked.{Worked, taken, unsettled, Worked-order}
use mumu_autotask.Hunt.Selection.{
  is_text, in_texts, is_hunted, is_of_category, hunt_key, task_key, all_in, build_hunt_queue,
  starts_with, has_part, is_no_hunt, only_monster, monster_part, category_part, category_parts,
  build_task_queue,
}
use mumu_autotask.Hunt.Selection.Parts.{IsPart}
use mumu_autotask.Hunt.Selection.Chosen.{build_task_queue_sound}
use mumu_autotask.Python.Text
use mumu_autotask.Python.Sorting.{sorted}
use mumu_autotask.Python.Collect.{Distinct}
use mumu_autotask.Business.Tables.{lookup}

abbrev pub wolf : HuntBatchTarget
wolf = record {
  runtime_id = 11;
  quality = lit "green";
  expires_at = 900;
  level = some (pos 3);
  category = lit "monster";
}

abbrev bear : HuntBatchTarget
bear = record {
  runtime_id = 12;
  quality = lit "blue";
  expires_at = 800;
  level = none;
  category = lit "monster";
}

abbrev journey : HuntBatchTarget
journey = record {
  runtime_id = 13;
  quality = lit "green";
  expires_at = 700;
  level = none;
  category = lit "hero";
}

abbrev pub new_batch : List HuntBatchTarget → HuntSlotBatch
new_batch targets = record {
  targets = targets;
  concurrency = 1;
  state = λ _. pending;
  outcomes = [];
  claim_attempted = false;
  claim_verified = false;
  claim_error = none;
  final_reconcile_attempted = false;
}

-- With one team, one of the two monsters is submitted, and the journey.
abbrev three : HuntSlotBatch
three = new_batch (wolf ∷ bear ∷ journey ∷ [])

abbrev submitted : HuntSlotBatch
submitted = moved journey dispatching (moved wolf dispatching three)

three-Reached : Reached 0 three
unfolding create check_concurrency has_duplicate member
three-Reached = created (wolf ∷ bear ∷ journey ∷ []) (int (pos 1)) three refl

submitted-Step : Step 2 three submitted
unfolding next_dispatch_targets select_targets submit_all choose is_gone is_monster same lit
    active_monster_count total monsters_of ids_where keep_if
submitted-Step = dispatched_all none (wolf ∷ journey ∷ []) three submitted refl

Reached-IsBatch_example : IsBatch submitted
Reached-IsBatch_example = Reached-IsBatch 2 submitted (worked three-Reached submitted-Step)

Reached-bound_example : 2 ≤ 9
Reached-bound_example = Reached-bound 2 submitted (worked three-Reached submitted-Step)

Step-Moves_example : Moves 2 three submitted × ((i : ℕ) → three.state i ⟶* submitted.state i)
Step-Moves_example =
    Step-Moves three submitted submitted-Step (Reached-IsBatch 0 three three-Reached)

next_dispatch_targets_live_example :
    (out : List HuntBatchTarget) × (after : HuntSlotBatch) × (next_dispatch_targets none three
      ≡ ok (out, after))
    × ((is_empty out ≡ false) ⊎ (complete after ≡ true))
unfolding ids_where keep_if
next_dispatch_targets_live_example = next_dispatch_targets_live 0 three none three-Reached refl refl

-- One target from its dispatch to the claim.
abbrev pub one : HuntSlotBatch
one = new_batch (wolf ∷ [])

abbrev pub marching_one : HuntSlotBatch
marching_one = moved wolf active (moved wolf dispatching one)

abbrev completed_one : HuntSlotBatch
completed_one = recorded wolf success (lit "done") marching_one

pub marching_one-Reached : Reached 2 marching_one
unfolding create check_concurrency has_duplicate member next_dispatch_targets select_targets
    submit_all choose is_gone is_monster same lit active_monster_count total monsters_of ids_where
    keep_if mark_dispatched require_state by_id set
marching_one-Reached =
    worked
      (worked (created (wolf ∷ []) (int (pos 1)) one refl)
        (dispatched_all none (wolf ∷ []) one (moved wolf dispatching one) refl))
      (marched 11 (lit "sent") (moved wolf dispatching one) marching_one refl)

completed_one-Reached : Reached 3 completed_one
unfolding mark_completed complete_ids ids_where keep_if by_id set holds record_outcome
completed_one-Reached = worked marching_one-Reached (
    completed (11 ∷ 99 ∷ []) (lit "done")
      (record { target = wolf; status = success; detail = lit "done" } ∷ []) marching_one
      completed_one refl)

begin_claim_sound_example :
    (11 ∷ [] ≡ ids (wolf ∷ []))
    × All (λ t. IsResolved completed_one.outcomes t.runtime_id) (wolf ∷ [])
    × ((last : HuntSlotBatch)
        → Works (record completed_one { claim_attempted = true }) last
        → begin_claim last ≡ err (hunt_batch "本批次已经发起过领取"))
unfolding begin_claim can_claim complete ids_where keep_if set has_unresolved counts same_status
begin_claim_sound_example =
    begin_claim_sound 3 completed_one (record completed_one { claim_attempted = true }) (11 ∷ [])
      completed_one-Reached refl

mark_completed_total_example :
    (out : List HuntBatchOutcome) × (after : HuntSlotBatch) × (mark_completed
        (99 ∷ 11 ∷ [])
        (lit "done")
        marching_one
      ≡ ok (out, after))
    × (outcome_ids out ≡ keep_if (λ i. holds i (99 ∷ 11 ∷ [])) (active_ids marching_one))
    × All (λ o. (o.status ≡ success) × (o.detail ≡ lit "done")) out
    × IsExtended marching_one out after
mark_completed_total_example =
    mark_completed_total 2 marching_one (99 ∷ 11 ∷ []) (lit "done") marching_one-Reached

build_hunt_waves-IsWaves_example :
    (waves : List (List HuntBatchTarget)) × (build_hunt_waves
        (wolf ∷ journey ∷ bear ∷ [])
        (int (pos 1))
      ≡ ok waves)
    × IsWaves 1 (wolf ∷ journey ∷ bear ∷ []) waves
build_hunt_waves-IsWaves_example =
    build_hunt_waves-IsWaves (wolf ∷ journey ∷ bear ∷ []) 1 (omega arith) (omega arith)

waves_of_three :
    build_hunt_waves (wolf ∷ journey ∷ bear ∷ []) (int (pos 1))
    ≡ ok ((wolf ∷ journey ∷ []) ∷ (bear ∷ []) ∷ [])
unfolding build_hunt_waves check_concurrency monster_waves attach range range_from keep_if is_battle
    is_monster same lit
waves_of_three = refl

-- A sequential batch whose first target fails, so that the second, of the same quality, is skipped.
abbrev first_queue : HuntBatchQueue
first_queue = record {
  targets = wolf ∷ journey ∷ [];
  pending = wolf ∷ journey ∷ [];
  current = none;
  outcomes = [];
  blocked_qualities = [];
  attempt_error = none;
}

abbrev first_attempt : HuntBatchQueue
first_attempt = record first_queue {
  pending = journey ∷ [];
  current = some wolf;
  attempt_error = none;
}

abbrev failed_queue : HuntBatchQueue
failed_queue = block wolf (lit "lost") (finish wolf Target.failed (lit "出征命令失败；lost") first_attempt)

abbrev skipped_queue : HuntBatchQueue
skipped_queue = record (append_outcome journey skipped (lit "同品质后续目标已阻止：lost") failed_queue) {
  pending = [];
}

skipped_queue-Worked : Worked skipped_queue
unfolding create_queue has_duplicate member next_target take_turns turn_of lookup is_gone
    fail_reconciliation require_current attempt_error_or lit same
skipped_queue-Worked = taken none none failed_queue skipped_queue refl (
    unsettled (lit "lost")
      (record { target = wolf; status = Target.failed; detail = lit "出征命令失败；lost" }) first_attempt
      failed_queue refl
      (taken none (some wolf) first_queue first_attempt refl
        (Worked.created (wolf ∷ journey ∷ []) first_queue refl)))

Worked-order_example :
    (handled skipped_queue.outcomes ++ (attempted skipped_queue.current ++ skipped_queue.pending)
      ≡ skipped_queue.targets)
    × (is_complete skipped_queue ≡ true → handled skipped_queue.outcomes ≡ skipped_queue.targets)
    × IsCautious skipped_queue.outcomes
Worked-order_example = Worked-order skipped_queue skipped_queue-Worked

-- The list of the game: a journey, and a monster whose quality is not selected.
abbrev listed : List Item
listed =
    ((lit "runtime_id", int (pos 13))
      ∷ (lit "quality", str (lit "green"))
      ∷ (lit "expires_at", int (pos 700))
      ∷ (lit "category", str (lit "hero"))
      ∷ [])
    ∷ ((lit "runtime_id", int (pos 12))
        ∷ (lit "quality", str (lit "blue"))
        ∷ (lit "expires_at", int (pos 800))
        ∷ [])
    ∷ []

build_task_queue_sound_example :
    (is_empty (journey ∷ []) ≡ false)
    × Distinct (ids (journey ∷ []))
    × (monsters heroes rescues : List HuntBatchTarget) × (journey ∷ []
        ≡ monsters ++ (heroes ++ (rescues ++ [])))
    × IsPart true (is_hunted (lit "green" ∷ [])) hunt_key listed monsters
    × IsPart true (is_of_category (lit "hero")) task_key listed heroes
    × IsPart false (is_of_category (lit "rescue")) task_key listed rescues
unfolding build_task_queue all_in Text.member same lit monster_part category_parts category_part
    build_hunt_queue is_no_hunt has_part starts_with only_monster is_hunted is_of_category is_text
    in_texts lookup keep_if from_item positive_number text_in level_of sorted has_duplicate member
build_task_queue_sound_example =
    build_task_queue_sound listed (lit "monster" ∷ lit "hero" ∷ []) (lit "green" ∷ [])
      (journey ∷ []) refl
