-- ===== src/Business/Battle/Listing.antt =====
-- What an accepted list of battle targets guarantees.
use mathlib.Core.Path.{subst}
use mumu_autotask.Prelude.{
  ◌≤◌, ◌≡◌, ap, ◌∙◌, true, false, not, ◌||◌, List, [], ◌∷◌, map, All, ltb, ◌==◌, length, drop, init,
  arith, ok, >>=-cases, raise_if-cases, ok-injective, not-false, traverse, length-traverse,
}
use mumu_autotask.Python.Value.{Text, Value, Sequence}
use mumu_autotask.Python.Text.{same→eq, same_refl}
use mumu_autotask.Python.Sorting.{sorted, IsSorted, sorted-IsSorted}
use mumu_autotask.Python.Collect.{Distinct}
use mumu_autotask.Business.Tables.{normalize_battle_category}
use mumu_autotask.Business.Wire.{
  Lines, line, ◌‼◌, last_line, has_tag, parse_integer, parse_role, parse_kingdom_line,
  protocol_lines,
}
use mumu_autotask.Business.Intel.{same_list, has_duplicate}
use mumu_autotask.Business.Intel.Sound.{same_list→eq, has_duplicate-Distinct}
use mumu_autotask.Business.Battle.{
  BattleIntelItem, BattleIntelSnapshot, battle_item_key, same_battle_item, any_other_category,
  parse_battle_item, parse_battle_items, parse_battle_intel_output,
}

same_battle_item→eq : (a b : BattleIntelItem) → same_battle_item a b ≡ true → a ≡ b
unfolding same_battle_item
same_battle_item→eq a b h =
    ground (arith, same→eq a.category b.category, same→eq a.quality b.quality)

same_battle_item_refl : (a : BattleIntelItem) → same_battle_item a a ≡ true
unfolding same_battle_item
same_battle_item_refl a = ground (arith, same_refl a.category, same_refl a.quality)

only_category :
    (category : Text) (xs : List BattleIntelItem)
    → any_other_category category xs ≡ false
    → All (λ (item : BattleIntelItem). item.category ≡ category) xs
unfolding any_other_category
only_category category [] h = tt
only_category category (item ∷ xs) h =
    (same→eq item.category category (ground arith), only_category category xs (ground arith))

-- At most 128 items of one category and different runtime ids, in the order of quest type, quality,
-- expiry and runtime id.
pub record IsBattleListing (category : Text) (xs : List BattleIntelItem) : Type 0 where
  pub same_category : All (λ (item : BattleIntelItem). item.category ≡ category) xs
  pub distinct : Distinct (map (λ (item : BattleIntelItem). item.runtime_id) xs)
  pub ordered : IsSorted battle_item_key xs
  pub few : length xs ≤ 128

-- The items were read from the lines between the identity and the END line, in their order.
battle_items_sound :
    (category : Text) (lines : Lines) (xs : List BattleIntelItem)
    → parse_battle_items category lines ≡ ok xs
    → IsBattleListing category xs × (traverse parse_battle_item (init (drop 3 lines)) ≡ ok xs)
unfolding parse_battle_items
battle_items_sound category lines xs h₀ =
    raise_if-cases (not (has_tag (last_line lines) 2 "END")) _ _ h₀ λ ended h₁.
      >>=-cases (parse_integer (last_line lines ‼ 1) true) _ h₁ λ count counted h₂.
        let item_lines = init (drop 3 lines) in
        raise_if-cases (not (count == length item_lines)) _ _ h₂ λ agrees h₃.
          raise_if-cases (ltb 128 count) _ _ h₃ λ few h₄.
            >>=-cases (traverse parse_battle_item item_lines) _ h₄ λ found read h₅.
              raise_if-cases (any_other_category category found) _ _ h₅ λ one_category h₆.
                raise_if-cases (has_duplicate (map (λ item. item.runtime_id) found)) _ _ h₆
                  λ unique h₇.
                    raise_if-cases
                      (not (same_list same_battle_item found (sorted battle_item_key found))) _ _ h₇
                      λ in_order h₈.
                        let e : found ≡ xs = ok-injective _ _ h₈ in
                        let order =
                          same_list→eq same_battle_item same_battle_item→eq same_battle_item_refl
                            found (sorted battle_item_key found) (not-false in_order) in
                        let counted_items : length found ≡ length item_lines =
                          length-traverse parse_battle_item item_lines found read in
                        (
                          subst (IsBattleListing category) e (record {
                            same_category = only_category category found one_category;
                            distinct = has_duplicate-Distinct _ unique;
                            ordered = rw order (sorted-IsSorted battle_item_key found);
                            few = ground arith;
                          }),
                          read ∙ ap ok e,
                        )

-- What `parse_battle_intel_output` accepts for a category lists at most 128 items of that category,
-- of different runtime ids, in the order of quest type, quality, expiry and runtime id, each read
-- from its own line between the identity and the END line.
pub parse_battle_intel_output_sound :
    (output : Value) (allowed_roles : Sequence) (expected : Value) (r : BattleIntelSnapshot)
    → parse_battle_intel_output output allowed_roles expected ≡ ok r
    → (category : Text) × (lines : Lines) × (normalize_battle_category expected ≡ ok category)
      × (protocol_lines output "BATTLE_INTEL" ≡ ok lines)
      × IsBattleListing category r.items
      × (traverse parse_battle_item (init (drop 3 lines)) ≡ ok r.items)
unfolding parse_battle_intel_output
parse_battle_intel_output_sound output allowed_roles expected r h₀ =
    >>=-cases (normalize_battle_category expected) _ h₀ λ category normal h₁.
      >>=-cases (protocol_lines output "BATTLE_INTEL") _ h₁ λ lines read h₂.
        raise_if-cases (ltb (length lines) 4 || not (has_tag (line lines 1) 2 "ROLE")) _ _ h₂
          λ _ h₃. >>=-cases (parse_role (line lines 1 ‼ 1) allowed_roles) _ h₃ λ role _ h₄.
            >>=-cases (parse_kingdom_line (line lines 2)) _ h₄ λ kingdom _ h₅.
              >>=-cases (parse_battle_items category lines) _ h₅ λ xs listed h₆.
                let (listing, each) = battle_items_sound category lines xs listed in
                let e = ap (λ (t : BattleIntelSnapshot). t.items) (ok-injective _ _ h₆) in
                (
                  category,
                  lines,
                  normal,
                  read,
                  subst (IsBattleListing category) e listing,
                  each ∙ ap ok e,
                )
