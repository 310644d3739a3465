-- ===== src/Business/Intel/Sound.antt =====
-- Which item lines, followed by an END line, are accepted.
use mathlib.Core.Path.{subst}
use mumu_autotask.Prelude.{
  ℕ, ◌≤◌, ◌≡◌, ◌↔◌, inl, refl, ap, ◌∙◌, Bool, true, false, not, List, [], ◌∷◌, map, ltb, ◌==◌,
  ==_refl, ==_iff, length, length-map, arith, ok, >>=-cases, raise_if-cases, ok-injective,
  not-false, traverse, traverse-map, traverse-eq-ok, All,
}
use mumu_autotask.Python.Text.{lit, same→eq, same_refl}
use mumu_autotask.Python.Decimal.{str_of, length-str_of}
use mumu_autotask.Python.Sorting.{sorted, IsSorted, sorted-IsSorted, sorted_of_IsSorted}
use mumu_autotask.Python.Collect.{Distinct, not_member-All, All-not_member}
use mumu_autotask.Business.Ids.{same_number}
use mumu_autotask.Business.Wire.{Fields, Lines, ◌‼◌, last_line, has_tag, parse_integer}
use mumu_autotask.Business.Wire.Numbers.{Readable, parse_integer_sound, parse_integer-str_of}
use mumu_autotask.Business.Wire.Frame.{has_tag-pair, pair-has_tag}
use mumu_autotask.Business.Intel.{
  IntelItem, item_key, parse_item, same_item, same_list, has_duplicate, parse_items,
}
use mumu_autotask.Business.Intel.Items.{IsItem, item_fields, parse_item_sound, parse_item-fields}

same_item→eq : (a b : IntelItem) → same_item a b ≡ true → a ≡ b
unfolding same_item
same_item→eq a b h = ground (arith, same→eq a.quality b.quality)

same_item_refl : (a : IntelItem) → same_item a a ≡ true
unfolding same_item
same_item_refl a = ground (arith, same_refl a.quality)

module _ {ℓ} {A : Type ℓ} (eqb : A → A → Bool) (sound : (a b : A) → eqb a b ≡ true → a ≡ b)
    (complete : (a : A) → eqb a a ≡ true) where
  pub same_list→eq : (xs ys : List A) → same_list eqb xs ys ≡ true → xs ≡ ys
  unfolding same_list
  same_list→eq [] [] h = refl
  same_list→eq [] (y ∷ ys) h = cc h
  same_list→eq (x ∷ xs) [] h = cc h
  same_list→eq (x ∷ xs) (y ∷ ys) h = ground (arith, sound x y, same_list→eq xs ys)

  pub same_list_refl : (xs : List A) → same_list eqb xs xs ≡ true
  unfolding same_list
  same_list_refl [] = refl
  same_list_refl (x ∷ xs) = rw (complete x, same_list_refl xs)

same_number_sound : (a b : ℕ) → same_number a b ≡ true → a ≡ b
same_number_sound a b = (==_iff a b).0

pub has_duplicate-Distinct : (xs : List ℕ) → has_duplicate xs ≡ false → Distinct xs
unfolding has_duplicate
has_duplicate-Distinct [] h = tt
has_duplicate-Distinct (x ∷ xs) h = (
  not_member-All same_number same_number_sound ==_refl x xs (ground arith),
  has_duplicate-Distinct xs (ground arith),
)

pub Distinct-has_duplicate : (xs : List ℕ) → Distinct xs → has_duplicate xs ≡ false
unfolding has_duplicate
Distinct-has_duplicate [] h = refl
Distinct-has_duplicate (x ∷ xs) (n, h) =
    rw (All-not_member same_number same_number_sound ==_refl x xs n, Distinct-has_duplicate xs h)

-- At most 128 valid items with different runtime ids, in the order of quality, expiry and runtime
-- id.
pub record IsListing (items : List IntelItem) : Type 0 where
  pub each : All IsItem items
  pub distinct : Distinct (map (λ item. item.runtime_id) items)
  pub ordered : IsSorted item_key items
  pub few : length items ≤ 128

unfoldable pub end_line : ℕ → Fields
end_line count = lit "END" ∷ str_of count ∷ []

pub small_Readable : (n : ℕ) → n ≤ 4000 → Readable true n
small_Readable n h = (omega (arith, length-str_of n), inl refl)

parse_items_sound :
    (lines item_lines : Lines) (items : List IntelItem)
    → parse_items lines item_lines ≡ ok items
    → (last_line lines ≡ end_line (length items))
      × (item_lines ≡ map item_fields items)
      × IsListing items
unfolding parse_items end_line
parse_items_sound lines item_lines items h₀ =
    raise_if-cases (not (has_tag (last_line lines) 2 "END")) _ _ h₀ λ ended h₁.
      >>=-cases (parse_integer (last_line lines ‼ 1) true) _ h₁ λ count counted h₂.
        raise_if-cases (not (count == length item_lines)) _ _ h₂ λ agrees h₃.
          raise_if-cases (ltb 128 count) _ _ h₃ λ few h₄.
            >>=-cases (traverse parse_item item_lines) _ h₄ λ found read h₅.
              raise_if-cases (has_duplicate (map (λ item. item.runtime_id) found)) _ _ h₅
                λ unique h₆.
                  raise_if-cases (not (same_list same_item found (sorted item_key found))) _ _ h₆
                    λ in_order h₇.
                      let (written, each) =
                        traverse-eq-ok IsItem parse_item item_fields parse_item_sound item_lines
                          found read in
                      let e : found ≡ items = ok-injective _ _ h₇ in
                      let counted_items : length item_lines ≡ length found =
                        ap length written ∙ length-map item_fields found in
                      let count_items : count ≡ length items = ground (arith, ap length e) in
                      let (number, _) =
                        parse_integer_sound (last_line lines ‼ 1) true count counted in
                      let order =
                        same_list→eq same_item same_item→eq same_item_refl found
                          (sorted item_key found) (not-false in_order) in
                      (
                        has_tag-pair (last_line lines) "END" (not-false ended)
                            ∙ ap (λ t. lit "END" ∷ t ∷ []) (number ∙ ap str_of count_items),
                        written ∙ ap (map item_fields) e,
                        subst IsListing e (record {
                          each = each;
                          distinct = has_duplicate-Distinct _ unique;
                          ordered = rw order (sorted-IsSorted item_key found);
                          few = ground arith;
                        }),
                      )

pub parse_items-ok :
    (lines : Lines) (items : List IntelItem)
    → last_line lines ≡ end_line (length items)
    → IsListing items
    → parse_items lines (map item_fields items) ≡ ok items
unfolding parse_items end_line
parse_items-ok lines items ended v =
    let few : ltb 128 (length items) ≡ false = ground (arith, v.few) in
    rw (
      ended,
      pair-has_tag "END" (str_of (length items)),
      parse_integer-str_of (length items) true
          (small_Readable (length items) (omega (arith, v.few))),
      length-map item_fields items,
      ==_refl (length items),
      few,
      traverse-map IsItem parse_item item_fields parse_item-fields items v.each,
      Distinct-has_duplicate _ v.distinct,
      sorted_of_IsSorted item_key items v.ordered,
      same_list_refl same_item same_item→eq same_item_refl items,
    )

pub parse_items_iff :
    (lines item_lines : Lines) (items : List IntelItem)
    → (parse_items lines item_lines ≡ ok items) ↔ (
        (last_line lines ≡ end_line (length items))
        × (item_lines ≡ map item_fields items)
        × IsListing items)
parse_items_iff lines item_lines items =
    (parse_items_sound lines item_lines items, λ (e, w, v). rw w (parse_items-ok lines items e v))
