-- ===== src/Hunt/Target.antt =====
-- gui.py: `HuntBatchTarget`, `HuntBatchOutcome`, and what the batches share.
use mumu_autotask.Prelude.{
  ◌≡◌, ℕ, suc, Bool, true, false, not, ◌&&◌, ◌||◌, List, [], ◌∷◌, map, Option, none, some, ◌==◌,
  leb, if◌then◌else◌, Result, ok, err, hunt_batch, ◌>>=◌, String,
}
use mumu_autotask.Python.Value.{Text, ℤ, pos, Value, none_value, int, str}
use mumu_autotask.Python.Text.{lit, same, member}
use mumu_autotask.Business.Tables.{lookup_or}

pub record HuntBatchTarget : Type 0 where
  pub runtime_id : ℕ
  pub quality : Text
  pub expires_at : ℕ
  pub level : Option ℤ
  pub category : Text

-- The statuses of an outcome.
pub data Status : Type 0 where
  success : Status
  reconciled : Status
  failed : Status
  skipped : Status

pub record HuntBatchOutcome : Type 0 where
  pub target : HuntBatchTarget
  pub status : Status
  pub detail : Text

-- The keys of `QUALITY_META`, in their order; the labels and colours are for display.
abbrev pub quality_meta : List Text
quality_meta = lit "green" ∷ lit "blue" ∷ lit "purple" ∷ lit "yellow" ∷ []

-- The keys of `CATEGORY_META`, in their order.
abbrev pub category_meta : List Text
category_meta = lit "monster" ∷ lit "hero" ∷ lit "rescue" ∷ []

-- An item of the intelligence list: a mapping from texts to values that can be hashed.
abbrev pub Item : Type 0
Item = List (Text × Value)

-- A positive `int` that is no `bool`.
unfoldable pub positive_number : Value → Option ℕ
positive_number (int (pos (suc n))) = some (suc n)
positive_number v = none

-- `value`, if it is a text of the set.
unfoldable pub text_in : List Text → Value → Option Text
text_in texts (str s) = if member s texts then some s else none
text_in texts v = none

unfoldable pub level_of : Value → Option ℤ
level_of (int n) = some n
level_of v = none

-- `value`, where `none` raises.
abbrev pub or_raise {ℓ} : {A : Type ℓ} → Option A → String → Result A
or_raise none message = err (hunt_batch message)
or_raise (some a) message = ok a

pub or_raise-ok {ℓ} :
    {A : Type ℓ} (o : Option A) (message : String) (a : A) → or_raise o message ≡ ok a → o ≡ some a
or_raise-ok none message a h = cc h
or_raise-ok (some b) message a h = cc h

unfoldable pub from_item : Item → Result HuntBatchTarget
from_item item = do
  runtime_id ←
      or_raise (positive_number (lookup_or (lit "runtime_id") item none_value)) "情报目标 ID 无效"
  quality ←
      or_raise (text_in quality_meta (lookup_or (lit "quality") item none_value))
        "目标 {runtime_id} 的品质无效"
  expires_at ←
      or_raise (positive_number (lookup_or (lit "expires_at") item none_value))
        "目标 {runtime_id} 的过期时间无效"
  let level = level_of (lookup_or (lit "level") item none_value)
  category ←
      or_raise (text_in category_meta (lookup_or (lit "category") item (str (lit "monster"))))
        "目标 {runtime_id} 的类别无效"
  ok (record {
    runtime_id = runtime_id;
    quality = quality;
    expires_at = expires_at;
    level = level;
    category = category;
  })

-- `target.category == "monster"`
unfoldable pub is_monster : HuntBatchTarget → Bool
is_monster target = same target.category (lit "monster")

-- `n in ids`, of a set of ids
unfoldable pub holds : ℕ → List ℕ → Bool
holds n [] = false
holds n (i ∷ ids) = (n == i) || holds n ids

-- `available_runtime_ids is not None and n not in available_runtime_ids`
unfoldable pub is_gone : Option (List ℕ) → ℕ → Bool
unfolding holds
is_gone none n = false
is_gone (some available) n = not (holds n available)

-- `detail or default`
unfoldable pub or_default : Text → Text → Text
or_default [] default = default
or_default (c ∷ detail) default = c ∷ detail

-- `state[id] = value`
unfoldable pub set {ℓ} : {S : Type ℓ} → ℕ → S → (ℕ → S) → ℕ → S
set id value state n = if n == id then value else state n

-- `MIN_HUNT_CONCURRENCY`
abbrev pub min_hunt_concurrency : ℕ
min_hunt_concurrency = 1

-- `MAX_HUNT_CONCURRENCY`
abbrev pub max_hunt_concurrency : ℕ
max_hunt_concurrency = 4

unfoldable pub check_concurrency : Value → Result ℕ
check_concurrency (int (pos n)) =
    if leb min_hunt_concurrency n && leb n max_hunt_concurrency
    then ok n
    else err (hunt_batch "并发出征数必须是 {MIN_HUNT_CONCURRENCY}-{MAX_HUNT_CONCURRENCY} 的整数")
check_concurrency v = err (hunt_batch "并发出征数必须是 {MIN_HUNT_CONCURRENCY}-{MAX_HUNT_CONCURRENCY} 的整数")

unfoldable pub same_status : Status → Status → Bool
same_status success success = true
same_status reconciled reconciled = true
same_status failed failed = true
same_status skipped skipped = true
same_status a b = false

-- `counts[status]`
unfoldable pub counts : Status → List HuntBatchOutcome → ℕ
unfolding same_status
counts status [] = 0
counts status (o ∷ outcomes) =
    let rest = counts status outcomes in if same_status o.status status then suc rest else rest

-- `counts["failed"] or counts["skipped"]`
unfoldable pub has_unresolved : List HuntBatchOutcome → Bool
unfolding counts
has_unresolved outcomes = not (counts failed outcomes == 0) || not (counts skipped outcomes == 0)

abbrev pub ids : List HuntBatchTarget → List ℕ
ids targets = map (λ t. t.runtime_id) targets
