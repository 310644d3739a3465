-- ===== src/Hunt/Selection/Harmless.antt =====
-- Which errors say that no monster of the selected qualities is there.
use mumu_autotask.Prelude.{
  ℕ, ◌≡◌, refl, inl, inr, Bool, true, false, not, List, [], ◌∷◌, Option, none, some, String, Result,
  ok, err, hunt_batch, Error, ◌>>=◌, refuse_if, is_empty, traverse, Bool-cases,
}
use mumu_autotask.Python.Value.{none_value, str}
use mumu_autotask.Python.Text.{lit}
use mumu_autotask.Python.Sorting.{sorted}
use mumu_autotask.Business.Tables.{lookup_or}
use mumu_autotask.Business.Intel.{has_duplicate}
use mumu_autotask.Business.Select.{keep_if}
use mumu_autotask.Hunt.Target.{
  HuntBatchTarget, Item, quality_meta, category_meta, positive_number, text_in, or_raise, from_item,
  ids,
}
use mumu_autotask.Hunt.Selection.{
  names, is_hunted, hunt_key, all_in, build_hunt_queue, starts_with, has_part, is_no_hunt,
}

-- No error says that there is no monster.
abbrev pub IsHarmless {ℓ} : {A : Type ℓ} → Result A → Type ℓ
IsHarmless r = (e : Error) → r ≡ err e → is_no_hunt e ≡ false

pub >>=-IsHarmless {ℓ κ} :
    {A : Type ℓ} {B : Type κ} (m : Result A) (f : A → Result B)
    → IsHarmless m
    → ((a : A) → IsHarmless (f a))
    → IsHarmless (m >>= f)
>>=-IsHarmless (ok a) f h k = k a
>>=-IsHarmless (err e) f h k = λ e' p. h e' (cc p)

pub ok-IsHarmless {ℓ} : {A : Type ℓ} (a : A) → IsHarmless (ok a)
ok-IsHarmless a e h = cc h

pub refuse_if-IsHarmless :
    (test : Bool) (message : String)
    → is_no_hunt (hunt_batch message) ≡ false
    → IsHarmless (refuse_if test message)
refuse_if-IsHarmless true message h e p = cc (h, p)
refuse_if-IsHarmless false message h e p = cc p

or_raise-IsHarmless {ℓ} :
    {A : Type ℓ} (o : Option A) (message : String)
    → is_no_hunt (hunt_batch message) ≡ false
    → IsHarmless (or_raise o message)
or_raise-IsHarmless none message h e p = cc (h, p)
or_raise-IsHarmless (some a) message h e p = cc p

from_item-IsHarmless : (item : Item) → IsHarmless (from_item item)
unfolding from_item is_no_hunt has_part starts_with lit
from_item-IsHarmless item =
    let id = positive_number (lookup_or (lit "runtime_id") item none_value) in
    let quality = text_in quality_meta (lookup_or (lit "quality") item none_value) in
    let expiry = positive_number (lookup_or (lit "expires_at") item none_value) in
    let category = text_in category_meta (lookup_or (lit "category") item (str (lit "monster"))) in
    >>=-IsHarmless (or_raise id "情报目标 ID 无效") _ (or_raise-IsHarmless id _ refl) λ _.
      >>=-IsHarmless (or_raise quality "目标 {runtime_id} 的品质无效") _
        (or_raise-IsHarmless quality _ refl)
        λ _.
          >>=-IsHarmless (or_raise expiry "目标 {runtime_id} 的过期时间无效") _
            (or_raise-IsHarmless expiry _ refl)
            λ _.
              >>=-IsHarmless (or_raise category "目标 {runtime_id} 的类别无效") _
                (or_raise-IsHarmless category _ refl) λ _. ok-IsHarmless _

traverse-IsHarmless : (items : List Item) → IsHarmless (traverse from_item items)
traverse-IsHarmless [] = ok-IsHarmless []
traverse-IsHarmless (item ∷ items) =
    >>=-IsHarmless (from_item item) _ (from_item-IsHarmless item) λ t.
      >>=-IsHarmless (traverse from_item items) _ (traverse-IsHarmless items) λ ts. ok-IsHarmless _

-- What ran before the error that says it.
later {ℓ κ μ} :
    {A : Type ℓ} {B : Type κ} {C : Type μ} (m : Result A) (f : A → Result B) {e : Error}
    → IsHarmless m
    → is_no_hunt e ≡ true
    → (m >>= f) ≡ err e
    → ((a : A) → m ≡ ok a → f a ≡ err e → C)
    → C
later (ok a) f h n p k = k a refl p
later (err e) f h n p k = absurd (cc (h e refl, n, p))

-- If `build_hunt_queue` says that there is no monster, then every item is valid that it looks at, and
-- there is none.
pub build_hunt_queue-none :
    (items : List Item) (selected : List (List ℕ)) (e : Error)
    → build_hunt_queue items (names selected) ≡ err e
    → is_no_hunt e ≡ true
    → (found : List HuntBatchTarget) × (traverse from_item (keep_if (is_hunted selected) items)
        ≡ ok found)
      × (is_empty (sorted hunt_key found) ≡ true)
unfolding build_hunt_queue is_no_hunt has_part starts_with lit
build_hunt_queue-none items selected e h n =
    let unknown = not (all_in selected quality_meta) in
    later (refuse_if unknown "包含不支持的品质：{invalid}") _
      (refuse_if-IsHarmless unknown "包含不支持的品质：{invalid}" refl) n h
      λ _ _ h₁.
        later (refuse_if (is_empty selected) "请至少选择一个骷髅品质") _
          (refuse_if-IsHarmless (is_empty selected) "请至少选择一个骷髅品质" refl) n h₁
          λ _ _ h₂.
            later (traverse from_item (keep_if (is_hunted selected) items)) _
              (traverse-IsHarmless (keep_if (is_hunted selected) items)) n h₂
              λ found runs h₃. elim (Bool-cases (is_empty (sorted hunt_key found))) [
                | inl is_none ↦ (found, runs, is_none)
                | inr there ↦
                    let twice = has_duplicate (ids (sorted hunt_key found)) in
                    let message : String = "情报列表包含重复的目标 ID" in
                    let harmless =
                      >>=-IsHarmless (refuse_if twice message) _
                        (refuse_if-IsHarmless twice message refl)
                        (λ _. ok-IsHarmless (sorted hunt_key found)) e (rw there at h₃) in
                    absurd (cc (harmless, n))
              ]
