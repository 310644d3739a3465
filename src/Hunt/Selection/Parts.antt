-- ===== src/Hunt/Selection/Parts.antt =====
-- The parts of a task queue.
use mathlib.Core.Path.{subst}
use mumu_autotask.Prelude.{
  ℕ, ◌≡◌, refl, sym, ap, ◌∙◌, inl, inr, Bool, true, false, not, ◌||◌, List, [], ◌∷◌, ok, err,
  hunt_batch, >>=-cases, refuse_if-cases, ok-injective, is_empty, is_empty-nil, traverse,
  Bool-cases, Result-cases, if◌then◌else◌, arith,
}
use mumu_autotask.Python.Value.{Text, Value, none_value, bool, int, str, other}
use mumu_autotask.Python.Text.{lit, same, member}
use mumu_autotask.Python.Sorting.{sorted, IsSorted, sorted-IsSorted}
use mumu_autotask.Business.Intel.{has_duplicate}
use mumu_autotask.Business.Tables.{lookup_or}
use mumu_autotask.Business.Select.{keep_if}
use mumu_autotask.Hunt.Target.{HuntBatchTarget, Item, quality_meta, from_item, ids}
use mumu_autotask.Hunt.Selection.{
  names, is_hunted, is_of_category, hunt_key, task_key, all_in, build_hunt_queue, is_no_hunt,
  only_monster, unless_no_hunt, monster_part, category_part, in_texts, is_text, category_of,
}
use mumu_autotask.Hunt.Selection.Harmless.{build_hunt_queue-none}

-- A part of the queue: if it is asked for, the targets of all items that are wanted, sorted, and
-- otherwise nothing.
pub record IsPart (asked : Bool) (wanted : Item → Bool) (key : HuntBatchTarget → List ℕ)
    (items : List Item) (part : List HuntBatchTarget) : Type 0 where
  pub all :
      asked ≡ true
      → (found : List HuntBatchTarget) × (traverse from_item (keep_if wanted items) ≡ ok found)
        × (part ≡ sorted key found)
  pub none : asked ≡ false → part ≡ []
  pub order : IsSorted key part

pub sorted-IsPart :
    (asked : Bool) (wanted : Item → Bool) (key : HuntBatchTarget → List ℕ) (items : List Item)
    (found : List HuntBatchTarget)
    → asked ≡ true
    → traverse from_item (keep_if wanted items) ≡ ok found
    → IsPart asked wanted key items (sorted key found)
sorted-IsPart asked wanted key items found a runs = record {
  all = λ _. (found, runs, refl);
  none = λ n. absurd (cc (a, n));
  order = sorted-IsSorted key found;
}

pub empty-IsPart :
    (asked : Bool) (wanted : Item → Bool) (key : HuntBatchTarget → List ℕ) (items : List Item)
    → asked ≡ false
    → IsPart asked wanted key items []
empty-IsPart asked wanted key items n = record {
  all = λ a. absurd (cc (a, n));
  none = λ _. refl;
  order = tt;
}

pub category_part-IsPart :
    (items : List Item) (categories : List Text) (category : Text) (part : List HuntBatchTarget)
    → same category (lit "monster") ≡ false
    → category_part items categories category ≡ ok part
    → IsPart (member category categories) (is_of_category category) task_key items part
unfolding category_part
category_part-IsPart items categories category part is_other h =
    elim (Bool-cases (member category categories)) [
      | inr n ↦
          subst (IsPart _ _ _ items) (ok-injective [] part (rw (category_part, is_other, n) at h))
            (empty-IsPart _ _ _ items n)
      | inl a ↦
          >>=-cases (traverse from_item (keep_if (is_of_category category) items)) _
            (rw (category_part, is_other, a) at h)
            λ found runs e.
              subst (IsPart _ _ _ items) (ok-injective _ part e)
                (sorted-IsPart _ _ task_key items found a runs)
    ]

pub in_no_texts : (v : Value) → in_texts [] v ≡ false
unfolding in_texts member
in_no_texts none_value = refl
in_no_texts (bool b) = refl
in_no_texts (int n) = refl
in_no_texts (str s) = refl
in_no_texts other = refl

pub no_items : (items : List Item) → keep_if (is_hunted []) items ≡ []
unfolding keep_if is_hunted
no_items [] = refl
no_items (item ∷ items) = elim (Bool-cases (is_text (lit "monster") (category_of item))) [
  | inl e ↦ rw (e, in_no_texts (lookup_or (lit "quality") item none_value), no_items items)
  | inr e ↦ rw (e, no_items items)
]

pub build_hunt_queue-all :
    (items : List Item) (selected : List Text) (targets : List HuntBatchTarget)
    → build_hunt_queue items (names selected) ≡ ok targets
    → (found : List HuntBatchTarget) × (traverse from_item (keep_if (is_hunted selected) items)
        ≡ ok found)
      × (targets ≡ sorted hunt_key found)
unfolding build_hunt_queue
build_hunt_queue-all items selected targets h =
    refuse_if-cases (not (all_in selected quality_meta)) _ _ h λ _ h₁.
      refuse_if-cases (is_empty selected) _ _ h₁ λ _ h₂.
        >>=-cases (traverse from_item (keep_if (is_hunted selected) items)) _ h₂ λ found runs h₃.
          refuse_if-cases (is_empty (sorted hunt_key found)) _ _ h₃ λ _ h₄.
            refuse_if-cases (has_duplicate (ids (sorted hunt_key found))) _ _ h₄
              λ _ e. (found, runs, sym (ok-injective _ targets e))

-- The monsters that are asked for, or none where `build_hunt_queue` says that there is none.
pub tried-IsPart :
    (items : List Item) (asked alone : Bool) (selected : List Text) (part : List HuntBatchTarget)
    → asked ≡ true
    → unless_no_hunt alone (build_hunt_queue items (names selected)) ≡ ok part
    → IsPart asked (is_hunted selected) hunt_key items part
tried-IsPart items asked alone selected part a h =
    elim (Result-cases (build_hunt_queue items (names selected))) [
      | inl (ts, built) ↦
          let (found, runs, e) = build_hunt_queue-all items selected ts built in
          let is_part : sorted hunt_key found ≡ part =
            sym e ∙ ok-injective ts part (rw built at h) in
          subst (IsPart asked (is_hunted selected) hunt_key items) is_part
            (sorted-IsPart asked (is_hunted selected) hunt_key items found a runs)
      | inr (e, failed) ↦ elim (Bool-cases (alone || not (is_no_hunt e))) [
        | inl raised ↦ absurd (cc (rw (failed, raised) at h))
        | inr caught ↦
            let says : is_no_hunt e ≡ true = ground arith in
            let (found, runs, nothing) = build_hunt_queue-none items selected e failed says in
            let is_part : sorted hunt_key found ≡ part =
              is_empty-nil (sorted hunt_key found) nothing
              ∙ ok-injective [] part (rw (failed, caught) at h) in
            subst (IsPart asked (is_hunted selected) hunt_key items) is_part
              (sorted-IsPart asked (is_hunted selected) hunt_key items found a runs)
      ]
    ]

pub monster_part-IsPart :
    (items : List Item) (categories selected : List Text) (part : List HuntBatchTarget)
    → monster_part items categories (names selected) ≡ ok part
    → IsPart (member (lit "monster") categories) (is_hunted selected) hunt_key items part
unfolding monster_part sorted
monster_part-IsPart items categories selected part h =
    elim (Bool-cases (member (lit "monster") categories)) [
      | inr n ↦
          subst (IsPart _ _ _ items) (ok-injective [] part (rw (monster_part, n) at h))
            (empty-IsPart _ _ _ items n)
      | inl a ↦ asked_for selected (rw (monster_part, a) at h) a
    ]
  where
    asked_for :
        (qs : List Text)
        → (if is_empty qs
            then (if only_monster categories then err (hunt_batch "请至少选择一种骷髅品质") else ok [])
            else unless_no_hunt (only_monster categories) (build_hunt_queue items (names qs)))
          ≡ ok part
        → member (lit "monster") categories ≡ true
        → IsPart (member (lit "monster") categories) (is_hunted qs) hunt_key items part
    asked_for [] h' a = elim (Bool-cases (only_monster categories)) [
      | inl e ↦ absurd (cc (rw e at h'))
      | inr e ↦
          subst (IsPart _ _ _ items) (ok-injective [] part (rw e at h'))
            (sorted-IsPart _ _ hunt_key items [] a (ap (traverse from_item) (no_items items)))
    ]
    asked_for (q ∷ qs) h' a =
        tried-IsPart items (member (lit "monster") categories) (only_monster categories) (q ∷ qs)
          part a h'
