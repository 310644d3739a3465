-- ===== src/Business/Select.antt =====
-- business.py: the choice of a target from a snapshot.
pub mod Chosen
use mumu_autotask.Prelude.{
  ℕ, suc, Bool, true, false, not, ◌&&◌, List, [], ◌∷◌, Option, none, some, ◌==◌, if◌then◌else◌,
  String, Result, ok, err, ◌>>=◌, ◌>>◌, fail, raise_if,
}
use mumu_autotask.Python.Value.{Text, ℤ, pos, Value, int, none_value}
use mumu_autotask.Python.Text.{same}
use mumu_autotask.Python.Sorting.{min_by}
use mumu_autotask.Business.Tables.{normalize_quality, normalize_battle_category}
use mumu_autotask.Business.Ids.{check_positive}
use mumu_autotask.Business.Intel.{IntelItem, IntelSnapshot}
use mumu_autotask.Business.Battle.{BattleIntelItem, BattleIntelSnapshot}

-- `[x for x in xs if p(x)]`
unfoldable pub keep_if {ℓ} : {A : Type ℓ} → (A → Bool) → List A → List A
keep_if p [] = []
keep_if p (x ∷ xs) = let rest = keep_if p xs in if p x then x ∷ rest else rest

-- `min(matches, key=...)`, where an empty list raises.
unfoldable pub first_least {ℓ} : {A : Type ℓ} → (A → List ℕ) → String → List A → Result A
first_least key message [] = fail message
first_least key message (x ∷ xs) = ok (min_by key x xs)

-- `exact[0]`, where an empty list raises.
unfoldable pub first_of_exact {ℓ} : {A : Type ℓ} → String → List A → Result A
first_of_exact message [] = fail message
first_of_exact message (x ∷ xs) = ok x

abbrev pub expiry_key : IntelItem → List ℕ
expiry_key item = item.expires_at ∷ item.runtime_id ∷ []

abbrev pub battle_expiry_key : BattleIntelItem → List ℕ
battle_expiry_key item = item.expires_at ∷ item.runtime_id ∷ []

abbrev pub is_match : Text → IntelItem → Bool
is_match requested item = same item.quality requested && (item.status == 1)

abbrev pub is_battle_match : Text → BattleIntelItem → Bool
is_battle_match requested item = same item.category requested && (item.status == 1)

-- With a runtime id the target is that item or none.
unfoldable pub select_exact : List IntelItem → Text → Value → Result IntelItem
select_exact items requested runtime_id = do
  wanted ← check_positive "march target runtime id must be a positive integer" runtime_id
  target ←
      first_of_exact "requested intelligence target {runtime_id} is no longer available"
        (keep_if (λ item. item.runtime_id == wanted) items)
  raise_if (not (target.status == 1)) "requested intelligence target {runtime_id} is not available"
  raise_if (not (same target.quality requested))
      "requested intelligence target {runtime_id} is {target.quality}, not {requested}"
  ok target

unfoldable pub select_march_target : IntelSnapshot → Value → Value → Result IntelItem
select_march_target snapshot quality none_value = do
  requested ← normalize_quality quality
  first_least expiry_key "no available {requested} skull intelligence was found"
      (keep_if (is_match requested) snapshot.items)
select_march_target snapshot quality runtime_id = do
  requested ← normalize_quality quality
  select_exact snapshot.items requested runtime_id

unfoldable pub select_battle_exact : List BattleIntelItem → Text → Value → Result BattleIntelItem
select_battle_exact items requested runtime_id = do
  wanted ← check_positive "battle target runtime id must be a positive integer" runtime_id
  target ←
      first_of_exact "requested battle intelligence target {runtime_id} is no longer available"
        (keep_if (λ item. item.runtime_id == wanted) items)
  raise_if (not (target.status == 1))
      "requested battle intelligence target {runtime_id} is not available"
  raise_if (not (same target.category requested))
      "requested battle intelligence target {runtime_id} is {target.category}, not {requested}"
  ok target

unfoldable pub select_battle_target : BattleIntelSnapshot → Value → Value → Result BattleIntelItem
select_battle_target snapshot category none_value = do
  requested ← normalize_battle_category category
  first_least battle_expiry_key "no available {requested} battle intelligence was found"
      (keep_if (is_battle_match requested) snapshot.items)
select_battle_target snapshot category runtime_id = do
  requested ← normalize_battle_category category
  select_battle_exact snapshot.items requested runtime_id
