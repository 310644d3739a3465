-- ===== src/Hunt/Slots/Moves.antt =====
-- The life of a target in a slot batch, and sums over the targets as one of them moves on.
use mathlib.Core.Path.{subst}
use mathlib.Core.List.{Memᴰ}
use mathlib.Core.List.Memᴰ.{head, tail}
use mumu_autotask.Prelude.{
  ℕ, ◌+◌, ◌≤◌, ◌≡◌, ◌≢◌, refl, sym, ap, inl, inr, true, false, Bool, length, Option, List, [], ◌∷◌,
  ◌==◌, ==_iff, ==_refl, arith, Bool-cases, All,
}
use mumu_autotask.Python.Value.{Text}
use mumu_autotask.Python.Collect.{Distinct}
use mumu_autotask.Hunt.Target.{
  HuntBatchTarget, Status, success, reconciled, failed, is_monster, set, ids,
}
use mumu_autotask.Hunt.Slots.{
  SlotState, pending, dispatching, active, is_final, HuntSlotBatch, total, active_monster_count,
  recorded, moved,
}
use mumu_autotask.Hunt.Slots.Claim.{
  can_claim, needs_final_reconcile, updates_of, reconcile_terminal_outcomes,
}

-- The outcomes that a target may come to: one that waits is resolved if it is no longer there, one
-- that is submitted fails, and one that marches succeeds.
pub data Ends : SlotState → Status → Type 0 where
  vanished : Ends pending reconciled
  refused : Ends dispatching failed
  returned : Ends active success

-- One change of a batch, and how many targets come closer to their last outcome by it. A target goes
-- from pending to dispatching if a team is free for it, and from there to active; it ends as above;
-- the last check begins once, in a batch that needs it, and resolves failures; the claim begins once,
-- in a batch that can be claimed, and only then has a result.
pub data Move : ℕ → HuntSlotBatch → HuntSlotBatch → Type 0 where
  submit :
      (batch : HuntSlotBatch) (t : HuntBatchTarget)
      → Memᴰ t batch.targets
      → batch.state t.runtime_id ≡ pending
      → (is_monster t ≡ true → active_monster_count batch + 1 ≤ batch.concurrency)
      → Move 1 batch (moved t dispatching batch)
  depart :
      (batch : HuntSlotBatch) (t : HuntBatchTarget)
      → Memᴰ t batch.targets
      → batch.state t.runtime_id ≡ dispatching
      → Move 1 batch (moved t active batch)
  close :
      (batch : HuntSlotBatch) (t : HuntBatchTarget) (status : Status) (detail : Text)
      → Memᴰ t batch.targets
      → Ends (batch.state t.runtime_id) status
      → Move 1 batch (recorded t status detail batch)
  check :
      (batch : HuntSlotBatch)
      → needs_final_reconcile batch ≡ true
      → Move 0 batch (record batch { final_reconcile_attempted = true })
  resolve :
      (batch : HuntSlotBatch) (terminal : List ℕ) (detail : Text)
      → Move
          (length (updates_of terminal detail batch.outcomes))
          batch
          (reconcile_terminal_outcomes terminal detail batch).1
  claim :
      (batch : HuntSlotBatch)
      → batch.claim_attempted ≡ false
      → can_claim batch ≡ true
      → Move 0 batch (record batch { claim_attempted = true })
  answer :
      (batch : HuntSlotBatch) (verified : Bool) (error : Option Text)
      → batch.claim_attempted ≡ true
      → Move 0 batch (record batch { claim_verified = verified; claim_error = error })

pub Ends-open : (s : SlotState) (status : Status) → Ends s status → is_final s ≡ false
Ends-open s status vanished = refl
Ends-open s status refused = refl
Ends-open s status returned = refl

-- Changes one after another, with the sum of their progress.
pub data Moves : ℕ → HuntSlotBatch → HuntSlotBatch → Type 0 where
  done : (batch : HuntSlotBatch) → Moves 0 batch batch
  next : {k m n : ℕ} {a b c : HuntSlotBatch} → Move m a b → Moves n b c → k ≡ m + n → Moves k a c

pub Moves-join : {m n : ℕ} {a b c : HuntSlotBatch} → Moves m a b → Moves n b c → Moves (m + n) a c
Moves-join {n} {c} (done batch) moves =
    let e : n ≡ 0 + n = omega arith in subst (λ k. Moves k batch c) e moves
Moves-join (next step rest e) moves = next step (Moves-join rest moves) (omega (arith, e))

pub single : {n : ℕ} {a b : HuntSlotBatch} → Move n a b → Moves n a b
single {n} {a} {b} step = next step (done b) (omega arith)

pub set_same {ℓ} : {S : Type ℓ} (n : ℕ) (value : S) (state : ℕ → S) → set n value state n ≡ value
unfolding set
set_same n value state = rw (==_refl n)

pub set_other {ℓ} :
    {S : Type ℓ} (id n : ℕ) (value : S) (state : ℕ → S) → id ≢ n → set id value state n ≡ state n
unfolding set
set_other id n value state h = elim (Bool-cases (n == id)) [
  | inl e ↦ absurd (h (sym ((==_iff n id).0 e)))
  | inr e ↦ rw e
]

module _ (weight : SlotState → HuntBatchTarget → ℕ) where
  total-set_other :
      (n : ℕ) (value : SlotState) (state : ℕ → SlotState) (ts : List HuntBatchTarget)
      → All (λ i. n ≢ i) (ids ts)
      → total weight (set n value state) ts ≡ total weight state ts
  unfolding total
  total-set_other n value state [] h = refl
  total-set_other n value state (t ∷ ts) (h, hs) =
      rw (set_other n t.runtime_id value state h, total-set_other n value state ts hs)

  id-All :
      (n : ℕ) (t : HuntBatchTarget) (ts : List HuntBatchTarget)
      → All (λ i. n ≢ i) (ids ts)
      → Memᴰ t ts
      → n ≢ t.runtime_id
  id-All n t [] h m = elim m [ ]
  id-All n t (u ∷ ts) (h, hs) (head e) = λ p. h (cc (p, e))
  id-All n t (u ∷ ts) (h, hs) (tail m) = id-All n t ts hs m

  -- A target that moves on changes the sum by its own weight.
  pub total-set :
      (t : HuntBatchTarget) (value : SlotState) (state : ℕ → SlotState) (ts : List HuntBatchTarget)
      → Distinct (ids ts)
      → Memᴰ t ts
      → total weight (set t.runtime_id value state) ts + weight (state t.runtime_id) t
        ≡ total weight state ts + weight value t
  unfolding total
  total-set t value state [] d m = elim m [ ]
  total-set t value state (u ∷ ts) (h, d) (head e) =
      let at : (set t.runtime_id value state u.runtime_id ≡ value) =
        cc (e, set_same t.runtime_id value state) in
      let rest =
        total-set_other t.runtime_id value state ts
          (subst (λ x. All (λ i. x.runtime_id ≢ i) (ids ts)) (sym e) h) in
      let old : weight (state t.runtime_id) t ≡ weight (state u.runtime_id) u = cc e in
      let new : weight value t ≡ weight value u = cc e in
      omega (arith, ap (λ s. weight s u) at, rest, old, new)
  total-set t value state (u ∷ ts) (h, d) (tail m) =
      let other : (t.runtime_id ≢ u.runtime_id) = λ p. id-All u.runtime_id t ts h m (sym p) in
      let at = set_other t.runtime_id u.runtime_id value state other in
      let ih = total-set t value state ts d m in omega (arith, ap (λ s. weight s u) at, ih)

  -- A sum depends on the states that it reads.
  pub total-ext :
      (other : SlotState → HuntBatchTarget → ℕ) (f g : ℕ → SlotState) (ts : List HuntBatchTarget)
      → ((t : HuntBatchTarget) → weight (f t.runtime_id) t ≡ other (g t.runtime_id) t)
      → total weight f ts ≡ total other g ts
  unfolding total
  total-ext other f g [] h = refl
  total-ext other f g (t ∷ ts) h = omega (arith, h t, total-ext other f g ts h)
