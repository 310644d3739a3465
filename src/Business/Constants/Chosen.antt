-- ===== src/Business/Constants/Chosen.antt =====
-- The targets that are chosen from an accepted snapshot have Lua constants.
use mathlib.Core.Path.{subst}
use mathlib.Core.List.{Memᴰ}
use mathlib.Core.List.Memᴰ.{head, tail}
use mumu_autotask.Prelude.{
  ℕ, zero, suc, ◌≡◌, inl, inr, sym, ◌∙◌, false, ◌||◌, List, [], ◌∷◌, map, Option, none, some, ◌==◌,
  arith, All, ok, ok-injective, >>=-cases,
}
use mumu_autotask.Python.Value.{Text, Value, str, items, none_value}
use mumu_autotask.Python.Text.{same_refl}
use mumu_autotask.Python.Collect.{Distinct}
use mumu_autotask.Business.Tables.{normalize_quality}
use mumu_autotask.Business.Tables.Canonical.{lookup-quality, normalize_quality-name}
use mumu_autotask.Business.Roles.Whitelist.{IsWhitelist}
use mumu_autotask.Business.Ids.Valid.{number}
use mumu_autotask.Business.Ids.{check_positive}
use mumu_autotask.Business.Intel.{IntelItem, IntelSnapshot, parse_intel_output}
use mumu_autotask.Business.Intel.Items.{IsItem, lookup-maps_to}
use mumu_autotask.Business.Intel.Accepted.{parse_intel_output_iff}
use mumu_autotask.Business.Select.{select_march_target, select_exact}
use mumu_autotask.Business.Select.Chosen.{select_march_target_earliest, select_march_target_exact}
use mumu_autotask.Business.Constants.{target_template, target_constants}

-- A valid item that is available has constants.
target_constants-IsItem :
    (item : IntelItem)
    → IsItem item
    → item.status ≡ 1
    → target_constants item ≡ ok (target_template item)
unfolding target_constants
target_constants-IsItem item v available =
    let found = lookup-quality item.quality item.quality_id v.quality in
    let known = lookup-maps_to item.quality item.quality_id found in
    let positive : ((item.runtime_id == 0)
          || (item.quest_id == 0)
          || (item.expires_at == 0)
          || (item.monster_id == 0)
          || (item.level == 0)
          || (item.stamina_cost == 0))
        ≡ false =
      ground (
        arith, v.runtime_id.1, v.quest_id.1, v.expires_at.1, v.monster_id.1, v.level.1,
        v.stamina_cost.1,
      ) in
    rw (
      positive,
      normalize_quality-name item.quality item.quality_id v.quality,
      same_refl item.quality,
      known,
      available,
    )

-- `None` or a runtime id, as a Python value
abbrev pub wanted_value : Option ℕ → Value
wanted_value none = none_value
wanted_value (some n) = number n

All-Mem : (xs : List IntelItem) (item : IntelItem) → All IsItem xs → Memᴰ item xs → IsItem item
All-Mem [] item v m = elim m [ ]
All-Mem (x ∷ xs) item (v, vs) (head e) = subst IsItem (sym e) v
All-Mem (x ∷ xs) item (v, vs) (tail m) = All-Mem xs item vs m

select_zero :
    (snapshot : IntelSnapshot) (quality : Value) (target : IntelItem)
    → select_march_target snapshot quality (number zero) ≡ ok target
    → ⊥
unfolding select_march_target select_exact check_positive
select_zero snapshot quality target h =
    >>=-cases (normalize_quality quality) _ h λ requested _ h'. cc h'

chosen-available :
    (snapshot : IntelSnapshot) (quality : Value) (requested : Text) (wanted : Option ℕ)
    (target : IntelItem)
    → normalize_quality quality ≡ ok requested
    → Distinct (map (λ (item : IntelItem). item.runtime_id) snapshot.items)
    → select_march_target snapshot quality (wanted_value wanted) ≡ ok target
    → Memᴰ target snapshot.items × (target.status ≡ 1)
chosen-available snapshot quality requested none target e distinct h =
    elim (select_march_target_earliest snapshot quality requested e) [
      | inl (t, found, choice) ↦
          subst (λ (u : IntelItem). Memᴰ u snapshot.items × (u.status ≡ 1))
            (ok-injective _ _ (sym found ∙ h)) (choice.listed, choice.available)
      | inr (failed, _) ↦ absurd (cc (failed, h))
    ]
chosen-available snapshot quality requested (some zero) target e distinct h =
    absurd (select_zero snapshot quality target h)
chosen-available snapshot quality requested (some (suc n)) target e distinct h =
    let (listed, _, available, _) =
      (select_march_target_exact snapshot quality requested (suc n) target e (omega arith)
          distinct).0
        h in
    (listed, available)

-- Every target that `select_march_target` chooses, with or without a runtime id, from a snapshot that
-- `parse_intel_output` returned for a valid whitelist passes the checks of `_target_constants`, which
-- writes the target's numbers into the template.
pub target_constants-select :
    (output : Text) (roles : List Text) (snapshot : IntelSnapshot) (quality : Value)
    (requested : Text) (wanted : Option ℕ) (target : IntelItem)
    → IsWhitelist roles
    → parse_intel_output (str output) (items (map str roles)) ≡ ok snapshot
    → normalize_quality quality ≡ ok requested
    → select_march_target snapshot quality (wanted_value wanted) ≡ ok target
    → target_constants target ≡ ok (target_template target)
target_constants-select output roles snapshot quality requested wanted target w parsed e chosen =
    let listing = ((parse_intel_output_iff output roles w snapshot).0 parsed).valid.listing in
    let (listed, available) =
      chosen-available snapshot quality requested wanted target e listing.distinct chosen in
    target_constants-IsItem target (All-Mem snapshot.items target listing.each listed) available
