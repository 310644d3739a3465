-- ===== src/Hunt/Sequence/Order.antt =====
-- What holds of every sequential batch.
use mumu_autotask.Prelude.{
  ℕ, ◌≡◌, ◌≢◌, ◌⊎◌, refl, ap, inl, inr, true, false, List, [], ◌∷◌, ◌++◌, append_assoc, map, Option,
  none, some, Bool-cases, Option-cases, All, All-append, All-imp,
}
use mumu_autotask.Python.Value.{Text}
use mumu_autotask.Python.Text.{same, same_refl}
use mumu_autotask.Business.Tables.{lookup}
use mumu_autotask.Hunt.Target.{HuntBatchTarget, HuntBatchOutcome, Status, failed, skipped}
use mumu_autotask.Hunt.Sequence.{
  HuntBatchQueue, Turn, blocked, missing, attempt, turn_of, append_outcome, take_turns, is_some,
  block,
}

-- The targets of the outcomes
abbrev pub handled : List HuntBatchOutcome → List HuntBatchTarget
handled outcomes = map (λ o. o.target) outcomes

abbrev pub attempted : Option HuntBatchTarget → List HuntBatchTarget
attempted none = []
attempted (some t) = t ∷ []

-- After a failure the later targets of the same quality are skipped.
abbrev pub IsCautious : List HuntBatchOutcome → Type 0
IsCautious [] = Unit
IsCautious (o ∷ outcomes) =
    (o.status ≡ failed
      → All (λ p. p.target.quality ≡ o.target.quality → p.status ≡ skipped) outcomes)
    × IsCautious outcomes

-- The outcomes, the target that is attempted and those that wait are the targets of the batch in
-- their order; the quality of a failure is blocked, that of the target that is attempted is not, and
-- after a failure the targets of its quality are skipped.
pub record IsSequence (queue : HuntBatchQueue) : Type 0 where
  pub order : handled queue.outcomes ++ (attempted queue.current ++ queue.pending) ≡ queue.targets
  pub blocks :
      All
        (λ o. o.status ≡ failed → is_some (lookup o.target.quality queue.blocked_qualities) ≡ true)
        queue.outcomes
  pub free :
      (t : HuntBatchTarget)
      → queue.current ≡ some t
      → is_some (lookup t.quality queue.blocked_qualities) ≡ false
  pub cautious : IsCautious queue.outcomes

handled-snoc :
    (outcomes : List HuntBatchOutcome) (o : HuntBatchOutcome)
    → handled (outcomes ++ o ∷ []) ≡ handled outcomes ++ o.target ∷ []
handled-snoc [] o = refl
handled-snoc (p ∷ outcomes) o = ap (λ ts. p.target ∷ ts) (handled-snoc outcomes o)

-- An outcome is added that is skipped, or of a quality that is not blocked.
IsCautious-snoc :
    (table : List (Text × Text)) (outcomes : List HuntBatchOutcome) (o : HuntBatchOutcome)
    → All (λ p. p.status ≡ failed → is_some (lookup p.target.quality table) ≡ true) outcomes
    → (o.status ≡ skipped) ⊎ (is_some (lookup o.target.quality table) ≡ false)
    → IsCautious outcomes
    → IsCautious (outcomes ++ o ∷ [])
IsCautious-snoc table [] o b h c = ((λ f. tt), tt)
IsCautious-snoc table (p ∷ outcomes) o (b, bs) h (c, cs) = (
  λ f.
      All-append (λ q. q.target.quality ≡ p.target.quality → q.status ≡ skipped) outcomes (o ∷ [])
        (c f)
        (
          (λ e. elim h [
            | inl s ↦ s
            | inr n ↦ absurd (cc (b f, ap (λ q. is_some (lookup q table)) e, n))
          ]),
          tt,
        ),
  IsCautious-snoc table outcomes o bs h cs,
)

-- The same between two targets; `pending` is what is left of the queue.
pub record IsBetween (pending : List HuntBatchTarget) (queue : HuntBatchQueue) : Type 0 where
  pub rest : handled queue.outcomes ++ pending ≡ queue.targets
  pub blocks :
      All
        (λ o. o.status ≡ failed → is_some (lookup o.target.quality queue.blocked_qualities) ≡ true)
        queue.outcomes
  pub cautious : IsCautious queue.outcomes

rest-snoc :
    (queue : HuntBatchQueue) (o : HuntBatchOutcome) (pending : List HuntBatchTarget)
    → handled queue.outcomes ++ o.target ∷ pending ≡ queue.targets
    → handled (queue.outcomes ++ o ∷ []) ++ pending ≡ queue.targets
rest-snoc queue o pending h =
    rw
      (handled-snoc queue.outcomes o, append_assoc (handled queue.outcomes) (o.target ∷ []) pending)
      h

-- A target is skipped, or ends without failure.
pub added-IsBetween :
    (pending : List HuntBatchTarget) (queue : HuntBatchQueue) (t : HuntBatchTarget)
    (status : Status) (detail : Text)
    → status ≢ failed
    → (status ≡ skipped) ⊎ (is_some (lookup t.quality queue.blocked_qualities) ≡ false)
    → IsBetween (t ∷ pending) queue
    → IsBetween pending (append_outcome t status detail queue)
added-IsBetween pending queue t status detail n h b =
    let o : HuntBatchOutcome = record { target = t; status = status; detail = detail } in
    record {
      rest = rest-snoc queue o pending b.rest;
      blocks =
          All-append
            (λ o.
              o.status ≡ failed → is_some (lookup o.target.quality queue.blocked_qualities) ≡ true)
            queue.outcomes (o ∷ []) b.blocks ((λ e. absurd (n e)), tt);
      cautious = IsCautious-snoc queue.blocked_qualities queue.outcomes o b.blocks h b.cautious;
    }

lookup-cons :
    (k v q : Text) (table : List (Text × Text))
    → is_some (lookup q table) ≡ true
    → is_some (lookup q ((k, v) ∷ table)) ≡ true
unfolding lookup
lookup-cons k v q table h = elim (Bool-cases (same q k)) [ inl e ↦ rw e | inr e ↦ rw e h ]

lookup-head : (k v : Text) (table : List (Text × Text)) → is_some (lookup k ((k, v) ∷ table)) ≡ true
unfolding lookup
lookup-head k v table = rw (same_refl k)

-- A target fails, and its quality is blocked.
pub failed-IsBetween :
    (pending : List HuntBatchTarget) (queue : HuntBatchQueue) (t : HuntBatchTarget)
    (detail reason : Text)
    → is_some (lookup t.quality queue.blocked_qualities) ≡ false
    → IsBetween (t ∷ pending) queue
    → IsBetween pending (block t reason (append_outcome t failed detail queue))
failed-IsBetween pending queue t detail reason free b =
    let o : HuntBatchOutcome = record { target = t; status = failed; detail = detail } in
    let table = queue.blocked_qualities in
    record {
      rest = rest-snoc queue o pending b.rest;
      blocks =
          All-append
            (λ o.
              o.status ≡ failed
              → is_some (lookup o.target.quality ((t.quality, reason) ∷ table)) ≡ true)
            queue.outcomes (o ∷ [])
            (All-imp (λ o. o.status ≡ failed → is_some (lookup o.target.quality table) ≡ true)
              (λ o.
                o.status ≡ failed
                → is_some (lookup o.target.quality ((t.quality, reason) ∷ table)) ≡ true)
              (λ o h f. lookup-cons t.quality reason o.target.quality table (h f)) queue.outcomes
              b.blocks)
            ((λ e. lookup-head t.quality reason table), tt);
      cautious = IsCautious-snoc table queue.outcomes o b.blocks (inr free) b.cautious;
    }

skipped_ne : skipped ≢ failed
skipped_ne e = cc e

turn-attempt :
    (available : Option (List ℕ)) (table : List (Text × Text)) (t : HuntBatchTarget)
    → turn_of available table t ≡ attempt
    → is_some (lookup t.quality table) ≡ false
unfolding turn_of
turn-attempt available table t h = elim (Option-cases (lookup t.quality table)) [
  | inl e ↦ rw e
  | inr (reason, e) ↦ absurd (cc (rw (turn_of, e) at h))
]

Turn-cases : (t : Turn) → ((reason : Text) × (t ≡ blocked reason)) ⊎ (t ≡ missing) ⊎ (t ≡ attempt)
Turn-cases (blocked reason) = inl (reason, refl)
Turn-cases missing = inr (inl refl)
Turn-cases attempt = inr (inr refl)

pub take_turns-IsSequence :
    (available : Option (List ℕ)) (pending : List HuntBatchTarget) (queue : HuntBatchQueue)
    → queue.current ≡ none
    → IsBetween pending queue
    → IsSequence (take_turns available pending queue).1
unfolding take_turns
take_turns-IsSequence available [] queue idle b = record {
  order = rw idle b.rest;
  blocks = b.blocks;
  free = λ t e. cc (idle, e);
  cautious = b.cautious;
}
take_turns-IsSequence available (t ∷ pending) queue idle b =
    elim (Turn-cases (turn_of available queue.blocked_qualities t)) [
      | inl (reason, e) ↦
          rw (take_turns, e)
            (take_turns-IsSequence available pending _ idle
              (added-IsBetween pending queue t skipped _ skipped_ne (inl refl) b))
      | inr (inl e) ↦
          rw (take_turns, e)
            (take_turns-IsSequence available pending _ idle
              (added-IsBetween pending queue t skipped _ skipped_ne (inl refl) b))
      | inr (inr e) ↦
          rw (take_turns, e)
            (record {
              order = b.rest;
              blocks = b.blocks;
              free = λ u p. cc (turn-attempt available queue.blocked_qualities t e, p);
              cautious = b.cautious;
            })
    ]
