-- ===== src/Business/Select/Chosen.antt =====
-- What `select_march_target` and `select_battle_target` choose.
mod Least
use mathlib.Core.List.{Memᴰ}
use mathlib.Core.List.Memᴰ.{head, tail}
use mumu_autotask.Prelude.{
  ℕ, zero, suc, ◌≤◌, ◌<◌, ◌≡◌, ◌≢◌, ◌↔◌, ◌⊎◌, inl, inr, refl, sym, ap, ◌∙◌, Bool, true, false, not,
  ◌&&◌, List, [], ◌∷◌, map, Option, none, some, ◌==◌, String, Result, ok, err, fail, raise_if,
  >>=-eq-ok, raise_if-eq-ok, arith, All, All-imp, Bool-cases, ◌>>◌,
}
use mumu_autotask.Python.Value.{Text, Value, int, pos, none_value}
use mumu_autotask.Python.Text.{same, same→eq, same_refl}
use mumu_autotask.Python.Sorting.{tuple_lt}
use mumu_autotask.Python.Collect.{Distinct}
use mumu_autotask.Business.Tables.{normalize_quality, normalize_battle_category}
use mumu_autotask.Business.Ids.{check_positive}
use mumu_autotask.Business.Ids.Valid.{number, check_positive-number}
use mumu_autotask.Business.Intel.{IntelItem, IntelSnapshot}
use mumu_autotask.Business.Battle.{BattleIntelItem, BattleIntelSnapshot}
use mumu_autotask.Business.Select.{
  keep_if, first_least, first_of_exact, expiry_key, battle_expiry_key, is_match, is_battle_match,
  select_exact, select_march_target, select_battle_exact, select_battle_target,
}
use Least.{Picked, picked, exact_unique}

-- The first pair stands before the second, or is the same.
abbrev pub NoLater : ℕ → ℕ → ℕ → ℕ → Type 0
NoLater expires runtime_id expires' runtime_id' =
    (expires < expires') ⊎ ((expires ≡ expires') × (runtime_id ≤ runtime_id'))

no_later : (a b c d : ℕ) → tuple_lt (c ∷ d ∷ []) (a ∷ b ∷ []) ≡ false → NoLater a b c d
unfolding tuple_lt
no_later a b c d h = ground arith

-- An available item of the requested quality, and none of these expires earlier, or at the same
-- time with a lesser runtime id.
pub record IsChoice (requested : Text) (items : List IntelItem) (target : IntelItem) : Type 0 where
  pub listed : Memᴰ target items
  pub requested_quality : target.quality ≡ requested
  pub available : target.status ≡ 1
  pub earliest :
      All
        (λ item.
          item.quality ≡ requested
          → item.status ≡ 1
          → NoLater target.expires_at target.runtime_id item.expires_at item.runtime_id)
        items

-- No item is available in the requested quality.
abbrev pub NoneAvailable : Text → List IntelItem → Type 0
NoneAvailable requested items = All (λ item. item.quality ≡ requested → item.status ≢ 1) items

match_of :
    (requested : Text) (item : IntelItem)
    → item.quality ≡ requested
    → item.status ≡ 1
    → is_match requested item ≡ true
match_of requested item q s = rw (q, s, same_refl requested)

-- With no runtime id, `select_march_target` returns the available item of the requested quality that
-- expires first, and of those that expire at one time the one with the least runtime id; it raises
-- exactly if there is no available item of that quality.
pub select_march_target_earliest :
    (snapshot : IntelSnapshot) (quality : Value) (requested : Text)
    → normalize_quality quality ≡ ok requested
    → ((target : IntelItem) × (select_march_target snapshot quality none_value ≡ ok target)
        × IsChoice requested snapshot.items target)
      ⊎ ((select_march_target snapshot quality none_value
            ≡ fail "no available {requested} skull intelligence was found")
          × NoneAvailable requested snapshot.items)
unfolding select_march_target
select_march_target_earliest snapshot quality requested e =
    rw e (read (picked (is_match requested) expiry_key _ snapshot.items))
  where
    items : List IntelItem
    items = snapshot.items

    chosen : String → Result IntelItem
    chosen message = first_least expiry_key message (keep_if (is_match requested) items)

    read :
        {message : String}
        → Picked (is_match requested) expiry_key message items (chosen message)
        → ((target : IntelItem) × (chosen message ≡ ok target) × IsChoice requested items target)
          ⊎ ((chosen message ≡ fail message) × NoneAvailable requested items)
    read (inl (t, found, mem, passes, least)) = inl (
      t,
      found,
      record {
        listed = mem;
        requested_quality = same→eq t.quality requested (ground arith);
        available = ground arith;
        earliest =
            All-imp _ _ (λ item h q s. no_later _ _ _ _ (h (match_of requested item q s))) items
              least;
      },
    )
    read (inr (fails, absent)) =
        inr (fails, All-imp _ _ (λ item h q s. cc (h, match_of requested item q s)) items absent)

-- With a runtime id, in a snapshot whose items have different runtime ids, `select_march_target`
-- returns `target` exactly if it is the item with that id, is available and has the requested
-- quality.
pub select_march_target_exact :
    (snapshot : IntelSnapshot) (quality : Value) (requested : Text) (runtime_id : ℕ)
    (target : IntelItem)
    → normalize_quality quality ≡ ok requested
    → 0 < runtime_id
    → Distinct (map (λ item. item.runtime_id) snapshot.items)
    → (select_march_target snapshot quality (number runtime_id) ≡ ok target) ↔ (
        Memᴰ target snapshot.items
        × (target.runtime_id ≡ runtime_id)
        × (target.status ≡ 1)
        × (target.quality ≡ requested))
unfolding select_march_target select_exact
select_march_target_exact snapshot quality requested runtime_id target e positive distinct =
    let unique = λ (t : IntelItem).
      exact_unique (λ (item : IntelItem). item.runtime_id) runtime_id
        "requested intelligence target {runtime_id} is no longer available" snapshot.items t
        distinct in
    let checked =
      check_positive-number "march target runtime id must be a positive integer" runtime_id
        positive in
    (
      λ h.
          let (t, found, h') = >>=-eq-ok (first_of_exact _ _) _ (rw (e, checked) at h) in
          let (status_ok, h'') = raise_if-eq-ok (not (t.status == 1)) _ _ h' in
          let (quality_ok, h''') = raise_if-eq-ok (not (same t.quality requested)) _ _ h'' in
          let is_target : t ≡ target = cc h''' in
          let (mem, id) = (unique t).0 found in
          rw is_target at (
            let all : Memᴰ t snapshot.items
                × (t.runtime_id ≡ runtime_id)
                × (t.status ≡ 1)
                × (t.quality ≡ requested) =
              (mem, id, ground arith, same→eq t.quality requested (ground arith)) in
            all),
      λ (mem, id, status, q).
          rw (e, checked, (unique target).1 (mem, id), status, q, same_refl requested),
    )
