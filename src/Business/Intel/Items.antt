-- ===== src/Business/Intel/Items.antt =====
-- Which ITEM lines `_parse_item` accepts.
use mathlib.Core.Path.{subst}
use mumu_autotask.Prelude.{
  ℕ, ◌≡◌, ◌≢◌, ◌↔◌, true, false, not, [], ◌∷◌, some, length, arith, ok, >>=-cases, raise_if-cases,
  ok-injective, not-false,
}
use mumu_autotask.Python.Value.{Text, str}
use mumu_autotask.Python.Text.{lit, same, same→eq, same_refl}
use mumu_autotask.Python.Decimal.{str_of}
use mumu_autotask.Business.Tables.{quality_ids, lookup, maps_to, normalize_quality}
use mumu_autotask.Business.Tables.Canonical.{
  IsQuality, IsQuality-lookup, lookup-quality, normalize_quality-name,
}
use mumu_autotask.Business.Wire.{Fields, has_tag, parse_integer}
use mumu_autotask.Business.Wire.Numbers.{Readable, parse_integer_sound, parse_integer-str_of}
use mumu_autotask.Business.Intel.{IntelItem, parse_item}

-- The fields that the script writes for an item.
unfoldable pub item_fields : IntelItem → Fields
item_fields item =
    lit "ITEM"
    ∷ str_of item.runtime_id
    ∷ str_of item.quest_id
    ∷ str_of item.status
    ∷ str_of item.world_x
    ∷ str_of item.world_y
    ∷ str_of item.expires_at
    ∷ item.quality
    ∷ str_of item.quality_id
    ∷ str_of item.monster_id
    ∷ str_of item.level
    ∷ str_of item.stamina_cost
    ∷ str_of item.recommended_power
    ∷ []

-- The quality is one of the game's, and all numbers but the status and the coordinates are positive.
pub record IsItem (item : IntelItem) : Type 0 where
  pub runtime_id : Readable false item.runtime_id
  pub quest_id : Readable false item.quest_id
  pub status : Readable true item.status
  pub world_x : Readable true item.world_x
  pub world_y : Readable true item.world_y
  pub expires_at : Readable false item.expires_at
  pub quality : IsQuality item.quality item.quality_id
  pub quality_id : Readable false item.quality_id
  pub monster_id : Readable false item.monster_id
  pub level : Readable false item.level
  pub stamina_cost : Readable false item.stamina_cost
  pub recommended_power : Readable false item.recommended_power

maps_to-lookup :
    (q : Text) (n : ℕ) → not (maps_to q quality_ids n) ≡ false → lookup q quality_ids ≡ some n
maps_to-lookup q n h = ground arith

pub lookup-maps_to :
    (q : Text) (n : ℕ) → lookup q quality_ids ≡ some n → maps_to q quality_ids n ≡ true
lookup-maps_to q n h = ground arith

pub parse_item-fields : (item : IntelItem) → IsItem item → parse_item (item_fields item) ≡ ok item
unfolding parse_item item_fields has_tag
parse_item-fields item v =
    let found = lookup-quality item.quality item.quality_id v.quality in
    let known = lookup-maps_to item.quality item.quality_id found in
    rw (
      same_refl (lit "ITEM"),
      normalize_quality-name item.quality item.quality_id v.quality,
      same_refl item.quality,
      parse_integer-str_of item.quality_id false v.quality_id,
      known,
      parse_integer-str_of item.runtime_id false v.runtime_id,
      parse_integer-str_of item.quest_id false v.quest_id,
      parse_integer-str_of item.status true v.status,
      parse_integer-str_of item.world_x true v.world_x,
      parse_integer-str_of item.world_y true v.world_y,
      parse_integer-str_of item.expires_at false v.expires_at,
      parse_integer-str_of item.monster_id false v.monster_id,
      parse_integer-str_of item.level false v.level,
      parse_integer-str_of item.stamina_cost false v.stamina_cost,
      parse_integer-str_of item.recommended_power false v.recommended_power,
    )

wrong_length :
    (fields : Fields) (item : IntelItem) → parse_item fields ≡ ok item → length fields ≢ 13 → ⊥
unfolding parse_item has_tag
wrong_length fields item h n = ground arith

-- Fields that are read as `item` are those that the script writes for it.
parse_item-sound_13 :
    (f₀ f₁ f₂ f₃ f₄ f₅ f₆ f₇ f₈ f₉ f₁₀ f₁₁ f₁₂ : Text) (item : IntelItem)
    → parse_item (f₀ ∷ f₁ ∷ f₂ ∷ f₃ ∷ f₄ ∷ f₅ ∷ f₆ ∷ f₇ ∷ f₈ ∷ f₉ ∷ f₁₀ ∷ f₁₁ ∷ f₁₂ ∷ []) ≡ ok item
    → ((f₀ ∷ f₁ ∷ f₂ ∷ f₃ ∷ f₄ ∷ f₅ ∷ f₆ ∷ f₇ ∷ f₈ ∷ f₉ ∷ f₁₀ ∷ f₁₁ ∷ f₁₂ ∷ []) ≡ item_fields item)
      × IsItem item
unfolding parse_item item_fields has_tag
parse_item-sound_13 f₀ f₁ f₂ f₃ f₄ f₅ f₆ f₇ f₈ f₉ f₁₀ f₁₁ f₁₂ item h₀ =
    raise_if-cases (not (same f₀ (lit "ITEM"))) _ _ h₀ λ tagged h₁.
      >>=-cases (normalize_quality (str f₇)) _ h₁ λ quality _ h₂.
        raise_if-cases (not (same quality f₇)) _ _ h₂ λ canonical h₃.
          >>=-cases (parse_integer f₈ false) _ h₃ λ quality_id r₈ h₄.
            raise_if-cases (not (maps_to quality quality_ids quality_id)) _ _ h₄ λ agree h₅.
              >>=-cases (parse_integer f₁ false) _ h₅ λ runtime_id r₁ h₆.
                >>=-cases (parse_integer f₂ false) _ h₆ λ quest_id r₂ h₇.
                  >>=-cases (parse_integer f₃ true) _ h₇ λ status r₃ h₈.
                    >>=-cases (parse_integer f₄ true) _ h₈ λ world_x r₄ h₉.
                      >>=-cases (parse_integer f₅ true) _ h₉ λ world_y r₅ h₁₀.
                        >>=-cases (parse_integer f₆ false) _ h₁₀ λ expires_at r₆ h₁₁.
                          >>=-cases (parse_integer f₉ false) _ h₁₁ λ monster_id r₉ h₁₂.
                            >>=-cases (parse_integer f₁₀ false) _ h₁₂ λ level r₁₀ h₁₃.
                              >>=-cases (parse_integer f₁₁ false) _ h₁₃ λ stamina_cost r₁₁ h₁₄.
                                >>=-cases (parse_integer f₁₂ false) _ h₁₄ λ power r₁₂ h₁₅.
                                  let (e₁, v₁) = parse_integer_sound f₁ false runtime_id r₁ in
                                  let (e₂, v₂) = parse_integer_sound f₂ false quest_id r₂ in
                                  let (e₃, v₃) = parse_integer_sound f₃ true status r₃ in
                                  let (e₄, v₄) = parse_integer_sound f₄ true world_x r₄ in
                                  let (e₅, v₅) = parse_integer_sound f₅ true world_y r₅ in
                                  let (e₆, v₆) = parse_integer_sound f₆ false expires_at r₆ in
                                  let (e₈, v₈) = parse_integer_sound f₈ false quality_id r₈ in
                                  let (e₉, v₉) = parse_integer_sound f₉ false monster_id r₉ in
                                  let (e₁₀, v₁₀) = parse_integer_sound f₁₀ false level r₁₀ in
                                  let (e₁₁, v₁₁) = parse_integer_sound f₁₁ false stamina_cost r₁₁ in
                                  let (e₁₂, v₁₂) = parse_integer_sound f₁₂ false power r₁₂ in
                                  let e₀ = same→eq f₀ (lit "ITEM") (not-false tagged) in
                                  let e₇ = same→eq quality f₇ (not-false canonical) in
                                  let quality_v =
                                    IsQuality-lookup quality quality_id
                                      (maps_to-lookup quality quality_id agree) in
                                  subst
                                    (λ t.
                                      ((f₀ ∷ f₁ ∷ f₂ ∷ f₃ ∷ f₄ ∷ f₅ ∷ f₆ ∷ f₇ ∷ f₈ ∷ f₉ ∷ f₁₀ ∷ f₁₁
                                          ∷ f₁₂ ∷ [])
                                        ≡ item_fields t)
                                      × IsItem t)
                                    (ok-injective _ _ h₁₅)
                                    (
                                      cc,
                                      record {
                                        runtime_id = v₁;
                                        quest_id = v₂;
                                        status = v₃;
                                        world_x = v₄;
                                        world_y = v₅;
                                        expires_at = v₆;
                                        quality = quality_v;
                                        quality_id = v₈;
                                        monster_id = v₉;
                                        level = v₁₀;
                                        stamina_cost = v₁₁;
                                        recommended_power = v₁₂;
                                      },
                                    )

pub parse_item_sound :
    (fields : Fields) (item : IntelItem)
    → parse_item fields ≡ ok item
    → (fields ≡ item_fields item) × IsItem item
parse_item_sound (f₀ ∷ f₁ ∷ f₂ ∷ f₃ ∷ f₄ ∷ f₅ ∷ f₆ ∷ f₇ ∷ f₈ ∷ f₉ ∷ f₁₀ ∷ f₁₁ ∷ f₁₂ ∷ []) item h =
    parse_item-sound_13 f₀ f₁ f₂ f₃ f₄ f₅ f₆ f₇ f₈ f₉ f₁₀ f₁₁ f₁₂ item h
parse_item_sound fields item h = absurd (wrong_length fields item h (λ e. ground arith))

-- `_parse_item` returns `item` exactly on the 13 fields that the script writes for it, if its
-- quality is one of the game's four with its number, and all its numbers but the status and the
-- coordinates are positive.
pub parse_item_iff :
    (fields : Fields) (item : IntelItem)
    → (parse_item fields ≡ ok item) ↔ ((fields ≡ item_fields item) × IsItem item)
parse_item_iff fields item =
    (parse_item_sound fields item, λ (e, v). rw e (parse_item-fields item v))
