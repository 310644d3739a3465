-- ===== src/Business/Monster/Found.antt =====
-- What an accepted search for a world monster guarantees.
use mathlib.Core.Path.{subst}
use mumu_autotask.Prelude.{
  ℕ, ◌≤◌, ◌<◌, ◌≡◌, ◌⊎◌, inl, inr, refl, Bool, true, false, not, ◌&&◌, ◌||◌, none, some, ◌==◌, [],
  ◌∷◌, sym, ap, ◌∙◌, drop, Bool-cases, length, arith, String, ok, >>=-cases, raise_if-cases,
  ok-injective,
}
use mumu_autotask.Python.Value.{Text, pos, negsuc, Value, int, bool, str, none_value, other}
use mumu_autotask.Python.Text.{lit, same, same_fields→eq}
use mumu_autotask.Python.Decimal.{str_of, value_from}
use mumu_autotask.Python.Decimal.Canonical.{str_of-value}
use mumu_autotask.Business.Ids.{check_range, normalize_world_monster_level}
use mumu_autotask.Business.Ids.Valid.{number}
use mumu_autotask.Business.Wire.{
  Fields, Lines, line, ◌‼◌, has_tag, is_pair, is_flag, parse_integer, protocol_lines,
}
use mumu_autotask.Business.Wire.Frame.{has_tag-pair, has_tag-triple, is_pair→eq}
use mumu_autotask.Business.March.Reports.{bit, is_flag→eq}
use mumu_autotask.Business.Wire.Numbers.{parse_integer_sound}
use mumu_autotask.Business.Monster.{
  WorldMonsterSearchReceipt, parse_world_monster_identity, both_missing, any_not_canonical,
  parse_search_result, parse_world_monster_search_output,
}

range_number :
    (low high : ℕ) (message : String) (v : Value) (n : ℕ)
    → check_range low high message v ≡ ok n
    → (v ≡ number n) × (low ≤ n) × (n ≤ high)
unfolding check_range
range_number low high message (int (pos m)) n h = ground arith
range_number low high message (int (negsuc m)) n h = cc h
range_number low high message (bool b) n h = cc h
range_number low high message (str s) n h = cc h
range_number low high message none_value n h = cc h
range_number low high message other n h = cc h

-- No point, or one of canonical numbers.
abbrev pub IsPendingPoint : Fields → Type 0
IsPendingPoint point =
    (point ≡ lit "POINT" ∷ lit "missing" ∷ lit "missing" ∷ [])
    ⊎ ((x : ℕ) × (y : ℕ) × (point ≡ lit "POINT" ∷ str_of x ∷ str_of y ∷ []))

-- What a search found, by its POINT and MONSTER lines.
abbrev pub Names : Bool → Fields → Fields → WorldMonsterSearchReceipt → Type 0
Names true point monster r =
    (x : ℕ) × (y : ℕ) × (id : ℕ) × (power : ℕ) × (point ≡ lit "POINT" ∷ str_of x ∷ str_of y ∷ [])
    × (monster ≡ lit "MONSTER" ∷ str_of id ∷ str_of power ∷ [])
    × (0 < id)
    × (0 < power)
    × (r.world_x ≡ some x)
    × (r.world_y ≡ some y)
    × (r.monster_id ≡ some id)
    × (r.recommended_power ≡ some power)
Names false point monster r =
    (monster ≡ lit "MONSTER" ∷ lit "missing" ∷ lit "missing" ∷ [])
    × IsPendingPoint point
    × (r.world_x ≡ none)
    × (r.world_y ≡ none)
    × (r.monster_id ≡ none)
    × (r.recommended_power ≡ none)

has_tag-missing :
    (fields : Fields) (tag : String)
    → has_tag fields 3 tag ≡ true
    → both_missing fields ≡ true
    → fields ≡ lit tag ∷ lit "missing" ∷ lit "missing" ∷ []
unfolding both_missing
has_tag-missing fields tag h missing =
    let e = has_tag-triple fields tag h in
    let rest = same_fields→eq (drop 1 fields) (lit "missing" ∷ lit "missing" ∷ []) missing in
    e ∙ ap (λ f. lit tag ∷ f) (ap (drop 1) (sym e) ∙ rest)

canonical_point :
    (point : Fields)
    → has_tag point 3 "POINT" ≡ true
    → any_not_canonical (drop 1 point) ≡ false
    → (x : ℕ) × (y : ℕ) × (point ≡ lit "POINT" ∷ str_of x ∷ str_of y ∷ [])
unfolding any_not_canonical
canonical_point point h canonical =
    let e = has_tag-triple point "POINT" h in
    let both : any_not_canonical ((point ‼ 1) ∷ (point ‼ 2) ∷ []) ≡ false =
      subst (λ f. any_not_canonical (drop 1 f) ≡ false) e canonical in
    let x = str_of-value (point ‼ 1) (ground arith) in
    let y = str_of-value (point ‼ 2) (ground arith) in
    (value_from 0 (point ‼ 1), value_from 0 (point ‼ 2), e ∙ cc (x, y))

-- The receipt was read from these lines. A ready search names the monster, its point and its power
-- that the lines print; a pending one names nothing, and its lines have no monster, with no point or
-- a canonical one.
pub record IsFound (lines : Lines) (r : WorldMonsterSearchReceipt) : Type 0 where
  pub level_line : line lines 3 ≡ lit "LEVEL" ∷ str_of r.level ∷ []
  pub ready_line : line lines 4 ≡ lit "READY" ∷ bit r.ready ∷ []
  pub result : Names r.ready (line lines 5) (line lines 6) r
  pub stamina_line : line lines 7 ≡ lit "STAMINA" ∷ str_of r.current_stamina ∷ []

search_result-Names :
    (ready : Bool) (point monster : Fields) (role : Text) (kingdom level stamina : ℕ)
    (r : WorldMonsterSearchReceipt)
    → has_tag point 3 "POINT" ≡ true
    → has_tag monster 3 "MONSTER" ≡ true
    → parse_search_result ready point monster role kingdom level stamina ≡ ok r
    → Names ready point monster r
      × (r.level ≡ level)
      × (r.ready ≡ ready)
      × (r.current_stamina ≡ stamina)
unfolding parse_search_result
search_result-Names false point monster role kingdom level stamina r tp tm h₀ =
    raise_if-cases (not (both_missing monster) || (not (both_missing point) && any_not_canonical _))
      _ _ h₀
      λ agrees h₁.
        let none_found = has_tag-missing monster "MONSTER" tm (ground arith) in
        let point_read : IsPendingPoint point = elim (Bool-cases (both_missing point)) [
          | inl e ↦ inl (has_tag-missing point "POINT" tp e)
          | inr e ↦ inr (canonical_point point tp (ground arith))
        ] in
        subst
          (λ (t : WorldMonsterSearchReceipt).
            Names false point monster t
            × (t.level ≡ level)
            × (t.ready ≡ false)
            × (t.current_stamina ≡ stamina))
          (ok-injective _ _ h₁) ((none_found, point_read, refl, refl, refl, refl), refl, refl, refl)
search_result-Names true point monster role kingdom level stamina r tp tm h₀ =
    >>=-cases (parse_integer (point ‼ 1) true) _ h₀ λ x x_read h₁.
      >>=-cases (parse_integer (point ‼ 2) true) _ h₁ λ y y_read h₂.
        >>=-cases (parse_integer (monster ‼ 1) false) _ h₂ λ id id_read h₃.
          >>=-cases (parse_integer (monster ‼ 2) false) _ h₃ λ power power_read h₄.
            let (is_x, _) = parse_integer_sound (point ‼ 1) true x x_read in
            let (is_y, _) = parse_integer_sound (point ‼ 2) true y y_read in
            let (is_id, some_id) = parse_integer_sound (monster ‼ 1) false id id_read in
            let (is_power, some_power) = parse_integer_sound (monster ‼ 2) false power power_read in
            subst
              (λ (t : WorldMonsterSearchReceipt).
                Names true point monster t
                × (t.level ≡ level)
                × (t.ready ≡ true)
                × (t.current_stamina ≡ stamina))
              (ok-injective _ _ h₄)
              (
                (
                  x,
                  y,
                  id,
                  power,
                  has_tag-triple point "POINT" tp ∙ cc (is_x, is_y),
                  has_tag-triple monster "MONSTER" tm ∙ cc (is_id, is_power),
                  ground arith,
                  ground arith,
                  refl,
                  refl,
                  refl,
                  refl,
                ),
                refl,
                refl,
                refl,
              )

-- What `parse_world_monster_search_output` accepts was for the requested level, a number from 1 to 20,
-- which its LEVEL line prints. If its READY line says 1, then the receipt is ready and names the
-- numbers that the POINT and MONSTER lines print, with a positive monster and power; if it says 0, then
-- the receipt is pending and names nothing, and the lines have no monster, with no point or a canonical
-- one.
pub parse_world_monster_search_output-IsFound :
    (output : Value) (level : Value) (r : WorldMonsterSearchReceipt)
    → parse_world_monster_search_output output level ≡ ok r
    → (lines : Lines) × (protocol_lines output "WORLD_MONSTER_SEARCH" ≡ ok lines)
      × (level ≡ number r.level)
      × (1 ≤ r.level)
      × (r.level ≤ 20)
      × IsFound lines r
unfolding parse_world_monster_search_output normalize_world_monster_level
parse_world_monster_search_output-IsFound output level r h₀ =
    >>=-cases (check_range 1 20 _ level) _ h₀ λ requested normal h₁.
      >>=-cases (protocol_lines output "WORLD_MONSTER_SEARCH") _ h₁ λ lines read h₂.
        >>=-cases (parse_world_monster_identity lines) _ h₂ λ (role, kingdom) identified h₃.
          raise_if-cases
            (not (length lines == 9)
              || not (is_pair (line lines 3) "LEVEL" (str_of requested))
              || not (is_flag (line lines 4) "READY")
              || not (has_tag (line lines 5) 3 "POINT")
              || not (has_tag (line lines 6) 3 "MONSTER")
              || not (has_tag (line lines 7) 2 "STAMINA")
              || not (is_pair (line lines 8) "END" (lit "1")))
            _ _ h₃
            λ checked h₄. >>=-cases (parse_integer (line lines 7 ‼ 1) true) _ h₄ λ stamina left h₅.
              let ready = same (line lines 4 ‼ 1) (lit "1") in
              let (result, is_level, is_ready, is_stamina) =
                search_result-Names ready (line lines 5) (line lines 6) role kingdom requested
                  stamina r (ground arith) (ground arith) h₅ in
              let (written, low, high) = range_number 1 20 _ level requested normal in
              let leveled = is_pair→eq (line lines 3) "LEVEL" (str_of requested) (ground arith) in
              let flagged = is_flag→eq (line lines 4) "READY" (ground arith) in
              let (printed, _) = parse_integer_sound (line lines 7 ‼ 1) true stamina left in
              (
                lines,
                read,
                rw is_level written,
                rw is_level low,
                rw is_level high,
                record {
                  level_line = rw is_level leveled;
                  ready_line = rw is_ready flagged;
                  result =
                      subst (λ b. Names b (line lines 5) (line lines 6) r) (sym is_ready) result;
                  stamina_line =
                      has_tag-pair (line lines 7) "STAMINA" (ground arith)
                      ∙ cc (printed, is_stamina);
                },
              )
