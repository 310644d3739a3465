-- ===== src/Business/Intel/Render.antt =====
-- The answer that the INTEL script writes for a snapshot.
use mumu_autotask.Prelude.{
  ℕ, inl, inr, List, [], ◌∷◌, ◌++◌, map, Option, none, some, true, false, length, arith, All,
}
use mumu_autotask.Python.Value.{Text}
use mumu_autotask.Python.Text.{lit, join}
use mumu_autotask.Python.Decimal.{str_of}
use mumu_autotask.Business.Tables.Canonical.{IsQuality}
use mumu_autotask.Business.Wire.{Lines, header}
use mumu_autotask.Business.Wire.Numbers.{Readable}
use mumu_autotask.Business.Wire.Lines.{IsClean, IsLine}
use mumu_autotask.Business.Wire.Identity.{Names}
use mumu_autotask.Business.Intel.{IntelItem, IntelSnapshot}
use mumu_autotask.Business.Intel.Items.{IsItem, item_fields}
use mumu_autotask.Business.Wire.Frame.{role_line, kingdom_line, IsClean-number}
use mumu_autotask.Business.Intel.Sound.{IsListing, end_line}

-- The STAMINA line, which older scripts leave out.
abbrev pub stamina_lines : Option ℕ → Lines
stamina_lines none = []
stamina_lines (some stamina) = (lit "STAMINA" ∷ str_of stamina ∷ []) ∷ []

-- What stands behind the header and the identity.
abbrev pub intel_body : IntelSnapshot → Lines
intel_body snapshot =
    stamina_lines snapshot.current_stamina
    ++ (map item_fields snapshot.items ++ (end_line (length snapshot.items) ∷ []))

-- The lines for a snapshot whose role is written as `value`.
unfoldable pub intel_lines : Text → IntelSnapshot → Lines
intel_lines value snapshot =
    header "INTEL" ∷ role_line value ∷ kingdom_line snapshot.kingdom ∷ intel_body snapshot

abbrev pub IsStamina : Option ℕ → Type 0
IsStamina none = Unit
IsStamina (some stamina) = Readable true stamina

-- A role that is allowed, a positive kingdom, and a valid listing.
pub record IsSnapshot (roles : List Text) (value : Text) (snapshot : IntelSnapshot) : Type 0 where
  pub named : Names roles snapshot.role value
  pub kingdom : Readable false snapshot.kingdom
  pub stamina : IsStamina snapshot.current_stamina
  pub listing : IsListing snapshot.items

IsClean-quality : (q : Text) (n : ℕ) → IsQuality q n → IsClean q
unfolding lit
IsClean-quality q n (inl (e, k)) = rw e (omega arith)
IsClean-quality q n (inr (inl (e, k))) = rw e (omega arith)
IsClean-quality q n (inr (inr (inl (e, k)))) = rw e (omega arith)
IsClean-quality q n (inr (inr (inr (e, k)))) = rw e (omega arith)

IsClean-item : (item : IntelItem) → IsItem item → All IsClean (item_fields item)
unfolding item_fields lit
IsClean-item item v = (
  omega arith,
  (
    IsClean-number item.runtime_id,
    (
      IsClean-number item.quest_id,
      (
        IsClean-number item.status,
        (
          IsClean-number item.world_x,
          (
            IsClean-number item.world_y,
            (
              IsClean-number item.expires_at,
              (
                IsClean-quality item.quality item.quality_id v.quality,
                (
                  IsClean-number item.quality_id,
                  (
                    IsClean-number item.monster_id,
                    (
                      IsClean-number item.level,
                      (
                        IsClean-number item.stamina_cost,
                        (IsClean-number item.recommended_power, tt),
                      ),
                    ),
                  ),
                ),
              ),
            ),
          ),
        ),
      ),
    ),
  ),
)

pub IsLine-item : (item : IntelItem) → IsItem item → IsLine (item_fields item)
IsLine-item item v = (
  (unfold item_fields in λ e. cc e),
  (unfold item_fields lit join in λ e. cc e),
  IsClean-item item v,
)
