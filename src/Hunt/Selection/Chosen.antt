-- ===== src/Hunt/Selection/Chosen.antt =====
-- What a task queue holds.
use mumu_autotask.Prelude.{
  ◌≡◌, refl, sym, ap, ◌∙◌, false, not, List, [], ◌∷◌, ◌++◌, ok, >>=-cases, refuse_if-cases,
  ok-injective, is_empty,
}
use mumu_autotask.Python.Value.{Text}
use mumu_autotask.Python.Text.{lit, same, member}
use mumu_autotask.Python.Collect.{Distinct}
use mumu_autotask.Business.Intel.{has_duplicate}
use mumu_autotask.Business.Intel.Sound.{has_duplicate-Distinct}
use mumu_autotask.Hunt.Target.{HuntBatchTarget, Item, category_meta, ids}
use mumu_autotask.Hunt.Selection.{
  names, is_hunted, is_of_category, hunt_key, task_key, all_in, monster_part, category_part,
  category_parts, build_task_queue,
}
use mumu_autotask.Hunt.Selection.Parts.{IsPart, category_part-IsPart, monster_part-IsPart}

category_parts-cons :
    (items : List Item) (categories : List Text) (category : Text) (rest : List Text)
    (out : List HuntBatchTarget)
    → category_parts items categories (category ∷ rest) ≡ ok out
    → (first others : List HuntBatchTarget) × (category_part items categories category ≡ ok first)
      × (category_parts items categories rest ≡ ok others)
      × (out ≡ first ++ others)
unfolding category_parts
category_parts-cons items categories category rest out h =
    >>=-cases (category_part items categories category) _ h λ first runs h₁.
      >>=-cases (category_parts items categories rest) _ h₁
        λ others runs' e. (first, others, runs, runs', sym (ok-injective _ out e))

-- The loop appends the two parts; it passes the monsters.
other_parts :
    (items : List Item) (categories : List Text) (out : List HuntBatchTarget)
    → category_parts items categories category_meta ≡ ok out
    → (heroes rescues : List HuntBatchTarget) × (out ≡ heroes ++ (rescues ++ []))
      × IsPart (member (lit "hero") categories) (is_of_category (lit "hero")) task_key items heroes
      × IsPart
          (member (lit "rescue") categories)
          (is_of_category (lit "rescue"))
          task_key
          items
          rescues
unfolding category_part category_parts same lit
other_parts items categories out h =
    let (first, behind, monsters, rest, e) =
      category_parts-cons items categories (lit "monster") (lit "hero" ∷ lit "rescue" ∷ []) out h in
    let (heroes, behind', heroic, rest', e') =
      category_parts-cons items categories (lit "hero") (lit "rescue" ∷ []) behind rest in
    let (rescues, nothing, rescued, rest'', e'') =
      category_parts-cons items categories (lit "rescue") [] behind' rest' in
    let no_first : [] ≡ first = ok-injective [] first monsters in
    let no_more : [] ≡ nothing = ok-injective [] nothing rest'' in
    (
      heroes,
      rescues,
      e
          ∙ ap (λ ts. ts ++ behind) (sym no_first)
          ∙ e'
          ∙ ap (λ ts. heroes ++ ts) (e'' ∙ ap (λ ts. rescues ++ ts) (sym no_more)),
      category_part-IsPart items categories (lit "hero") heroes refl heroic,
      category_part-IsPart items categories (lit "rescue") rescues refl rescued,
    )

-- The queue of a selection of categories and qualities is not empty, its targets have different ids,
-- and it is three parts one after another: the monsters of the selected qualities by quality, expiry
-- and id, then the hero journeys and the rescues by expiry and id. A part holds the targets of all
-- items that are wanted, if its category is selected, and none otherwise.
pub build_task_queue_sound :
    (items : List Item) (categories qualities : List Text) (targets : List HuntBatchTarget)
    → build_task_queue items (names categories) (names qualities) ≡ ok targets
    → (is_empty targets ≡ false)
      × Distinct (ids targets)
      × (monsters heroes rescues : List HuntBatchTarget) × (targets
          ≡ monsters ++ (heroes ++ (rescues ++ [])))
      × IsPart (member (lit "monster") categories) (is_hunted qualities) hunt_key items monsters
      × IsPart (member (lit "hero") categories) (is_of_category (lit "hero")) task_key items heroes
      × IsPart
          (member (lit "rescue") categories)
          (is_of_category (lit "rescue"))
          task_key
          items
          rescues
unfolding build_task_queue category_parts
build_task_queue_sound items categories qualities targets h =
    refuse_if-cases (not (all_in categories category_meta)) _ _ h λ _ h₁.
      refuse_if-cases (is_empty categories) _ _ h₁ λ _ h₂.
        >>=-cases (monster_part items categories (names qualities)) _ h₂ λ ms hunted h₃.
          >>=-cases (category_parts items categories category_meta) _ h₃ λ others rest h₄.
            refuse_if-cases (is_empty (ms ++ others)) _ _ h₄ λ some h₅.
              refuse_if-cases (has_duplicate (ids (ms ++ others))) _ _ h₅ λ different h₆.
                let e = ok-injective (ms ++ others) targets h₆ in
                let (heroes, rescues, split, hs, rs) = other_parts items categories others rest in
                (
                  ap is_empty (sym e) ∙ some,
                  has_duplicate-Distinct (ids targets)
                      (ap (λ ts. has_duplicate (ids ts)) (sym e) ∙ different),
                  ms,
                  heroes,
                  rescues,
                  sym e ∙ ap (λ ts. ms ++ ts) split,
                  monster_part-IsPart items categories qualities ms hunted,
                  hs,
                  rs,
                )
