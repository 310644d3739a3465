-- ===== src/Business/Ids/Valid.antt =====
-- Which lists of ids `normalize_target_ids` and `normalize_world_monster_march_ids` accept.
use mumu_autotask.Prelude.{
  ℕ, zero, suc, ◌≤◌, ◌<◌, ◌≡◌, ◌≢◌, ◌↔◌, refl, true, false, List, [], ◌∷◌, map, length, is_empty,
  String, ok, >>=-eq-ok, traverse-map, traverse-eq-ok, arith, All, ==_iff, ==_refl,
}
use mumu_autotask.Python.Value.{pos, Value, int, items}
use mumu_autotask.Python.Collect.{collect, collect-ok, collect-eq-ok, Distinct, Fresh-iff}
use mumu_autotask.Business.Ids.{
  same_number, check_positive, normalize_target_ids, normalize_world_monster_march_ids,
}

-- A number as a Python value.
abbrev pub number : ℕ → Value
number n = int (pos n)

abbrev Positive : ℕ → Type 0
Positive n = 0 < n

check_positive_sound :
    (message : String) (v : Value) (n : ℕ)
    → check_positive message v ≡ ok n
    → (v ≡ number n) × Positive n
unfolding check_positive
check_positive_sound message (int (pos (suc m))) n h = ground arith
check_positive_sound message _ n h = cc

pub check_positive-number :
    (message : String) (n : ℕ) → 0 < n → check_positive message (number n) ≡ ok n
unfolding check_positive
check_positive-number message zero h = absurd (omega arith)
check_positive-number message (suc n) h = refl

-- One to `limit` different positive numbers.
pub record IsIds (limit : ℕ) (ids : List ℕ) : Type 0 where
  pub positive : All (λ n. 0 < n) ids
  pub distinct : Distinct ids
  pub not_empty : ids ≢ []
  pub few : length ids ≤ limit

same_number_sound : (a b : ℕ) → same_number a b ≡ true → a ≡ b
same_number_sound a b = (==_iff a b).0

module _ (message duplicated : String) where
  collected_sound :
      (vs : List Value) (ids : List ℕ)
      → collect same_number (check_positive message) duplicated vs [] [] ≡ ok ids
      → (vs ≡ map number ids) × All Positive ids × Distinct ids
  collected_sound vs ids h =
      let (found, checked, fresh, e) =
        collect-eq-ok same_number (check_positive message) duplicated vs [] [] ids h in
      let is_found : found ≡ ids = ground arith in
      let (written, positive) =
        traverse-eq-ok Positive (check_positive message) number (check_positive_sound message) vs
          ids (rw is_found at checked) in
      (
        written,
        positive,
        rw is_found at ((Fresh-iff same_number same_number_sound ==_refl found).0 fresh),
      )

  collected :
      (ids : List ℕ)
      → All Positive ids
      → Distinct ids
      → collect same_number (check_positive message) duplicated (map number ids) [] [] ≡ ok ids
  collected ids positive distinct =
      collect-ok same_number (check_positive message) duplicated (map number ids) [] [] ids
        (traverse-map Positive (check_positive message) number (check_positive-number message) ids
          positive)
        ((Fresh-iff same_number same_number_sound ==_refl ids).1 distinct)

nil-is_empty : (ids : List ℕ) → is_empty ids ≡ false → ids ≢ []
nil-is_empty ids h = ground arith

target-IsIds_sound :
    (vs : List Value) (ids : List ℕ)
    → normalize_target_ids (items vs) ≡ ok ids
    → (vs ≡ map number ids) × IsIds 128 ids
unfolding normalize_target_ids
target-IsIds_sound vs ids h =
    let (result, c, h') = >>=-eq-ok (collect _ _ _ vs [] []) _ h in
    let is_result : result ≡ ids = ground arith in
    let (written, positive, distinct) = collected_sound _ _ vs ids (rw is_result at c) in
    (
      written,
      record {
        positive = positive;
        distinct = distinct;
        not_empty = ground arith;
        few = ground arith;
      },
    )

pub normalize_target_ids-ok :
    (ids : List ℕ) → IsIds 128 ids → normalize_target_ids (items (map number ids)) ≡ ok ids
unfolding normalize_target_ids
normalize_target_ids-ok [] v = absurd (v.not_empty refl)
normalize_target_ids-ok (n ∷ ids) v =
    rw (collected _ _ (n ∷ ids) v.positive v.distinct) (ground (arith, v.few))

-- `normalize_target_ids` accepts a sequence exactly if it holds 1 to 128 different positive integers
-- (booleans do not count as such), and returns them in their order.
pub normalize_target_ids_iff :
    (vs : List Value) (ids : List ℕ)
    → (normalize_target_ids (items vs) ≡ ok ids) ↔ ((vs ≡ map number ids) × IsIds 128 ids)
normalize_target_ids_iff vs ids =
    (target-IsIds_sound vs ids, λ (e, v). rw e (normalize_target_ids-ok ids v))

march-IsIds_sound :
    (vs : List Value) (ids : List ℕ)
    → normalize_world_monster_march_ids (items vs) ≡ ok ids
    → (vs ≡ map number ids) × IsIds 16 ids
unfolding normalize_world_monster_march_ids
march-IsIds_sound vs ids h =
    let (result, c, h') = >>=-eq-ok (collect _ _ _ vs [] []) _ h in
    let is_result : result ≡ ids = ground arith in
    let (written, positive, distinct) = collected_sound _ _ vs ids (rw is_result at c) in
    (
      written,
      record {
        positive = positive;
        distinct = distinct;
        not_empty = ground arith;
        few = ground arith;
      },
    )

pub normalize_world_monster_march_ids-ok :
    (ids : List ℕ)
    → IsIds 16 ids
    → normalize_world_monster_march_ids (items (map number ids)) ≡ ok ids
unfolding normalize_world_monster_march_ids
normalize_world_monster_march_ids-ok [] v = absurd (v.not_empty refl)
normalize_world_monster_march_ids-ok (n ∷ ids) v =
    rw (collected _ _ (n ∷ ids) v.positive v.distinct) (ground (arith, v.few))

-- `normalize_world_monster_march_ids` accepts a sequence exactly if it holds 1 to 16 different
-- positive integers, and returns them in their order.
pub normalize_world_monster_march_ids_iff :
    (vs : List Value) (ids : List ℕ)
    → (normalize_world_monster_march_ids (items vs) ≡ ok ids)
      ↔ ((vs ≡ map number ids) × IsIds 16 ids)
normalize_world_monster_march_ids_iff vs ids =
    (march-IsIds_sound vs ids, λ (e, v). rw e (normalize_world_monster_march_ids-ok ids v))
