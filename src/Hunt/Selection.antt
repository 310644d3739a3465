-- ===== src/Hunt/Selection.antt =====
-- gui.py: `build_hunt_queue`, `build_category_queue` and `build_task_queue`, which make a queue of
-- targets of the intelligence list. A message is compared as it is written, without what an f-string
-- fills in.
pub mod Harmless
pub mod Parts
pub mod Chosen
use mumu_autotask.Prelude.{
  ℕ, zero, suc, ◌+◌, Bool, true, false, not, ◌&&◌, ◌||◌, List, [], ◌∷◌, ◌++◌, map, Option, none,
  some, ◌==◌, if◌then◌else◌, String, Result, ok, err, hunt_batch, Error, ◌>>=◌, ◌>>◌, refuse_if,
  is_empty, traverse,
}
use mumu_autotask.Python.Value.{Text, Value, str, none_value}
use mumu_autotask.Python.Text.{lit, same, member}
use mumu_autotask.Python.Sorting.{sorted}
use mumu_autotask.Business.Intel.{has_duplicate}
use mumu_autotask.Business.Tables.{lookup, lookup_or}
use mumu_autotask.Business.Select.{keep_if}
use mumu_autotask.Hunt.Target.{
  HuntBatchTarget, Item, quality_meta, category_meta, text_in, from_item, ids,
}

-- A selection: a text or a byte string, which is refused, or a list of texts.
pub data SelectedNames : Type 0 where
  plain : List ℕ → SelectedNames
  names : List Text → SelectedNames

-- `value == text`
unfoldable pub is_text : Text → Value → Bool
is_text t (str s) = same s t
is_text t v = false

-- `value in texts`
unfoldable pub in_texts : List Text → Value → Bool
in_texts texts (str s) = member s texts
in_texts texts v = false

-- `item.get("category", "monster")`
abbrev pub category_of : Item → Value
category_of item = lookup_or (lit "category") item (str (lit "monster"))

-- A monster of a selected quality.
unfoldable pub is_hunted : List Text → Item → Bool
unfolding is_text in_texts
is_hunted selected item =
    is_text (lit "monster") (category_of item)
    && in_texts selected (lookup_or (lit "quality") item none_value)

-- `item.get("category") == category`
unfoldable pub is_of_category : Text → Item → Bool
unfolding is_text
is_of_category category item = is_text category (lookup_or (lit "category") item none_value)

-- The position of a text in a list that holds it.
unfoldable pub index_of : Text → List Text → ℕ
index_of t [] = 0
index_of t (x ∷ xs) = let rest = index_of t xs in if same t x then 0 else suc rest

abbrev pub hunt_key : HuntBatchTarget → List ℕ
hunt_key t = index_of t.quality quality_meta ∷ t.expires_at ∷ t.runtime_id ∷ []

abbrev pub task_key : HuntBatchTarget → List ℕ
task_key t = t.expires_at ∷ t.runtime_id ∷ []

-- Whether all of the texts are among others.
unfoldable pub all_in : List Text → List Text → Bool
all_in [] texts = true
all_in (x ∷ xs) texts = member x texts && all_in xs texts

abbrev pub no_hunt : String
no_hunt = "所选品质当前没有可用野兽情报"

unfoldable pub build_hunt_queue : List Item → SelectedNames → Result (List HuntBatchTarget)
unfolding is_hunted all_in
build_hunt_queue items (plain text) = err (hunt_batch "所选品质必须是列表")
build_hunt_queue items (names selected) = do
  refuse_if (not (all_in selected quality_meta)) "包含不支持的品质：{invalid}"
  refuse_if (is_empty selected) "请至少选择一个骷髅品质"
  found ← traverse from_item (keep_if (is_hunted selected) items)
  let targets = sorted hunt_key found
  refuse_if (is_empty targets) no_hunt
  refuse_if (has_duplicate (ids targets)) "情报列表包含重复的目标 ID"
  ok targets

-- The tuple `(quality, expires_at, runtime_id)`; the 0 stands below every code point, so that a text
-- comes before the texts that it starts.
unfoldable pub category_key : HuntBatchTarget → List ℕ
category_key t = t.quality ++ 0 ∷ t.expires_at ∷ t.runtime_id ∷ []

unfoldable pub build_category_queue : List Item → Text → Result (List HuntBatchTarget)
unfolding is_of_category category_key
build_category_queue items category = do
  refuse_if (not (member category category_meta)) "不支持的情报类别：{category}"
  refuse_if (same category (lit "monster")) "野兽类别必须按品质筛选"
  found ← traverse from_item (keep_if (is_of_category category) items)
  let targets = sorted category_key found
  refuse_if (is_empty targets) "当前没有可用的{CATEGORY_META[category]}情报"
  refuse_if (has_duplicate (ids targets)) "情报列表包含重复的目标 ID"
  ok targets

unfoldable pub starts_with : Text → Text → Bool
starts_with [] s = true
starts_with (c ∷ part) [] = false
starts_with (c ∷ part) (d ∷ s) = (c == d) && starts_with part s

-- `part in s`
unfoldable pub has_part : Text → Text → Bool
unfolding starts_with
has_part part [] = is_empty part
has_part part (c ∷ s) = starts_with part (c ∷ s) || has_part part s

-- `"当前没有可用野兽情报" in str(exc)`, of a `HuntBatchError`; other errors are not caught.
unfoldable pub is_no_hunt : Error → Bool
unfolding has_part
is_no_hunt (hunt_batch message) = has_part (lit "当前没有可用野兽情报") (lit message)
is_no_hunt e = false

-- `categories == {"monster"}`, of a set that is not empty
unfoldable pub only_monster : List Text → Bool
unfolding all_in
only_monster categories = all_in categories (lit "monster" ∷ [])

-- `not selected_qualities`
abbrev pub is_empty_selection : SelectedNames → Bool
is_empty_selection (plain text) = is_empty text
is_empty_selection (names selected) = is_empty selected

-- The `try` around `build_hunt_queue`.
abbrev pub unless_no_hunt : Bool → Result (List HuntBatchTarget) → Result (List HuntBatchTarget)
unless_no_hunt alone (ok targets) = ok targets
unless_no_hunt alone (err e) = if alone || not (is_no_hunt e) then err e else ok []

-- The monsters of a task queue.
unfoldable pub monster_part : List Item → List Text → SelectedNames → Result (List HuntBatchTarget)
unfolding only_monster is_no_hunt build_hunt_queue
monster_part items categories qualities =
    if not (member (lit "monster") categories)
    then ok []
    else if is_empty_selection qualities
    then (if only_monster categories then err (hunt_batch "请至少选择一种骷髅品质") else ok [])
    else unless_no_hunt (only_monster categories) (build_hunt_queue items qualities)

-- One round of the loop over `CATEGORY_META`.
unfoldable pub category_part : List Item → List Text → Text → Result (List HuntBatchTarget)
unfolding is_of_category
category_part items categories category =
    if same category (lit "monster") || not (member category categories) then ok [] else (do
      found ← traverse from_item (keep_if (is_of_category category) items)
      ok (sorted task_key found))

-- The loop; what it appends to the targets.
unfoldable pub category_parts : List Item → List Text → List Text → Result (List HuntBatchTarget)
unfolding category_part
category_parts items categories [] = ok []
category_parts items categories (category ∷ rest) = do
  first ← category_part items categories category
  others ← category_parts items categories rest
  ok (first ++ others)

unfoldable pub build_task_queue :
    List Item → SelectedNames → SelectedNames → Result (List HuntBatchTarget)
unfolding all_in monster_part category_parts
build_task_queue items (plain text) qualities = err (hunt_batch "所选类别必须是列表")
build_task_queue items (names categories) qualities = do
  refuse_if (not (all_in categories category_meta)) "包含不支持的情报类别：{invalid_categories}"
  refuse_if (is_empty categories) "请至少选择一种情报类别"
  monsters ← monster_part items categories qualities
  others ← category_parts items categories category_meta
  let targets = monsters ++ others
  refuse_if (is_empty targets) "所选类别当前没有可用情报"
  refuse_if (has_duplicate (ids targets)) "情报列表包含重复的目标 ID"
  ok targets
