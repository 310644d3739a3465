-- ===== src/Hunt/Slots/Marching.antt =====
-- The targets of a slot batch that are on their way.
use mathlib.Core.List.{Memᴰ}
use mathlib.Core.List.Memᴰ.{head, tail}
use mumu_autotask.Prelude.{
  ℕ, ◌≡◌, ◌≢◌, refl, ap, ◌∙◌, inl, inr, Bool, true, false, List, [], ◌∷◌, some, ◌==◌, ==_refl,
  Bool-cases, All,
}
use mumu_autotask.Python.Value.{Text}
use mumu_autotask.Python.Collect.{Distinct}
use mumu_autotask.Business.Select.{keep_if}
use mumu_autotask.Hunt.Target.{HuntBatchTarget, Status, ids}
use mumu_autotask.Hunt.Slots.{
  SlotState, pending, dispatching, active, final, is_active, is_final, HuntSlotBatch, ids_where,
  active_ids, recorded,
}
use mumu_autotask.Hunt.Slots.Dispatch.{by_id}
use mumu_autotask.Hunt.Slots.Moves.{set_other}
use mumu_autotask.Hunt.Slots.Submits.{mem-All}

-- An id of the batch whose target is on its way.
abbrev pub IsMarching : HuntSlotBatch → ℕ → Type 0
IsMarching b i =
    ((t : HuntBatchTarget) × (by_id b.targets i ≡ some t)) × (is_active (b.state i) ≡ true)

pub active-open : (s : SlotState) → is_active s ≡ true → is_final s ≡ false
active-open pending h = refl
active-open dispatching h = refl
active-open active h = refl
active-open (final status) h = cc h

-- The other ids are as they were when one has its outcome.
pub recorded-IsMarching :
    (b : HuntSlotBatch) (t : HuntBatchTarget) (status : Status) (detail : Text) (rest : List ℕ)
    → All (λ i. t.runtime_id ≢ i) rest
    → All (IsMarching b) rest
    → All (IsMarching (recorded t status detail b)) rest
recorded-IsMarching b t status detail [] h m = tt
recorded-IsMarching b t status detail (i ∷ rest) (e, h) ((found, a), m) = (
  (found, ap is_active (set_other t.runtime_id i (final status) b.state e) ∙ a),
  recorded-IsMarching b t status detail rest h m,
)

-- The id of a target of the batch is found.
by_id-found :
    (ts : List HuntBatchTarget) (t : HuntBatchTarget)
    → Memᴰ t ts
    → (u : HuntBatchTarget) × (by_id ts t.runtime_id ≡ some u)
unfolding by_id
by_id-found [] t m = elim m [ ]
by_id-found (u ∷ ts) t (head e) = (u, rw (ap (λ x. x.runtime_id) e, ==_refl u.runtime_id))
by_id-found (u ∷ ts) t (tail m) =
    let (v, found) = by_id-found ts t m in
    elim (Bool-cases (u.runtime_id == t.runtime_id)) [ inl e ↦ (u, rw e) | inr e ↦ (v, rw e found) ]

active_ids-IsMarching :
    (b : HuntSlotBatch) (ts : List HuntBatchTarget)
    → All (λ t. Memᴰ t b.targets) ts
    → All (IsMarching b) (ids (keep_if (λ t. is_active (b.state t.runtime_id)) ts))
unfolding keep_if
active_ids-IsMarching b [] m = tt
active_ids-IsMarching b (t ∷ ts) (m, ms) = elim (Bool-cases (is_active (b.state t.runtime_id))) [
  | inl e ↦ rw e ((by_id-found b.targets t m, e), active_ids-IsMarching b ts ms)
  | inr e ↦ rw e (active_ids-IsMarching b ts ms)
]

module _ (p : HuntBatchTarget → Bool) where
  All-keep_if :
      (P : ℕ → Type 0) (ts : List HuntBatchTarget) → All P (ids ts) → All P (ids (keep_if p ts))
  unfolding keep_if
  All-keep_if P [] h = tt
  All-keep_if P (t ∷ ts) (h, hs) = elim (Bool-cases (p t)) [
    | inl e ↦ rw e (h, All-keep_if P ts hs)
    | inr e ↦ rw e (All-keep_if P ts hs)
  ]

  Distinct-keep_if : (ts : List HuntBatchTarget) → Distinct (ids ts) → Distinct (ids (keep_if p ts))
  unfolding keep_if
  Distinct-keep_if [] d = tt
  Distinct-keep_if (t ∷ ts) (u, d) = elim (Bool-cases (p t)) [
    | inl e ↦ rw e (All-keep_if (λ i. t.runtime_id ≢ i) ts u, Distinct-keep_if ts d)
    | inr e ↦ rw e (Distinct-keep_if ts d)
  ]

-- The ids of `mark_completed`'s loop differ and march.
pub active_ids_apart :
    (b : HuntSlotBatch)
    → Distinct (ids b.targets)
    → Distinct (active_ids b) × All (IsMarching b) (active_ids b)
unfolding ids_where
active_ids_apart b distinct = (
  Distinct-keep_if (λ t. is_active (b.state t.runtime_id)) b.targets distinct,
  active_ids-IsMarching b b.targets (mem-All b.targets),
)
