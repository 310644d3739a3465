-- ===== src/Business/Monster/Dispatch.antt =====
-- When a world-monster hunt counts as dispatched, and when as blocked.
use mathlib.Core.Path.{subst}
use mumu_autotask.Prelude.{
  ℕ, ◌≤◌, ◌<◌, ◌≡◌, ◌⊎◌, inl, inr, refl, sym, ap, Bool, true, false, not, ◌||◌, [], ◌∷◌, Option,
  none, some, ltb, ◌==◌, length, arith, ok, >>=-cases, raise_if-cases, ok-injective, not-false,
}
use mumu_autotask.Python.Value.{Text, Value}
use mumu_autotask.Python.Text.{lit, same, same→eq, same_fields}
use mumu_autotask.Python.Decimal.{str_of}
use mumu_autotask.Business.Wire.{
  line, ◌‼◌, has_tag, is_pair, is_flag, parse_integer, protocol_lines,
}
use mumu_autotask.Business.Wire.Numbers.{parse_integer_sound}
use mumu_autotask.Business.Monster.{
  WorldMonsterSearchReceipt, WorldMonsterHuntReceipt, str_of_option, int_of_option,
  parse_world_monster_identity, dispatch_outcome, parse_world_monster_commit_output,
}

-- A dispatched hunt has enough stamina and a free march; a blocked one says which of them was missing,
-- and a lack of stamina is checked.
abbrev pub HuntDecision : Bool → ℕ → ℕ → ℕ → ℕ → Option Text → Type 0
HuntDecision dispatched current required current_marches max_marches reason =
    ((dispatched ≡ true) × (required ≤ current) × (current_marches < max_marches) × (reason ≡ none))
    ⊎ ((dispatched ≡ false) × (current < required) × (reason ≡ some (lit "insufficient_stamina")))
    ⊎ ((dispatched ≡ false) × (reason ≡ some (lit "no_idle_march_queue")))

dispatch_outcome_sound :
    (dispatched : Bool) (word : Text) (current required current_marches max_marches : ℕ)
    (reason : Option Text)
    → dispatch_outcome dispatched word current required current_marches max_marches ≡ ok reason
    → HuntDecision dispatched current required current_marches max_marches reason
unfolding dispatch_outcome
dispatch_outcome_sound true word current required current_marches max_marches reason h =
    inl (ground arith)
dispatch_outcome_sound false word current required current_marches max_marches reason h =
    inr (ground arith)

-- The receipt repeats the search, agrees with itself, and fits the queue.
pub record IsHunt (search : WorldMonsterSearchReceipt) (r : WorldMonsterHuntReceipt) : Type 0 where
  pub role : r.role ≡ search.role
  pub kingdom : r.kingdom ≡ search.kingdom
  pub level : r.level ≡ search.level
  pub monster : some r.monster_id ≡ search.monster_id
  pub world_x : some r.world_x ≡ search.world_x
  pub world_y : some r.world_y ≡ search.world_y
  pub base : 0 < r.base_stamina
  pub queue : r.current_marches ≤ r.max_marches
  pub decision :
      HuntDecision r.request_dispatched r.current_stamina r.required_stamina r.current_marches
        r.max_marches r.blocked_reason

int_of_option_sound : (o : Option ℕ) (n : ℕ) → int_of_option o ≡ ok n → some n ≡ o
unfolding int_of_option
int_of_option_sound none n h = cc h
int_of_option_sound (some m) n h = ap some (sym (ok-injective m n h))

-- What `parse_world_monster_commit_output` accepts was for a ready search, and the receipt repeats
-- the search's role, kingdom, level, monster and point; the queue holds at most its maximum; and the
-- receipt is dispatched with enough stamina and a free march, or blocked by a lack of stamina, or
-- blocked by the queue.
pub parse_world_monster_commit_output_sound :
    (output : Value) (search : WorldMonsterSearchReceipt) (r : WorldMonsterHuntReceipt)
    → parse_world_monster_commit_output output search ≡ ok r
    → (search.ready ≡ true) × IsHunt search r
unfolding parse_world_monster_commit_output
parse_world_monster_commit_output_sound output search r h₀ =
    raise_if-cases (not search.ready) _ _ h₀ λ ready h₁.
      >>=-cases (protocol_lines output "WORLD_MONSTER_COMMIT") _ h₁ λ lines read h₂.
        >>=-cases (parse_world_monster_identity lines) _ h₂ λ (role, kingdom) identified h₃.
          raise_if-cases
            (not (length lines == 12)
              || not (same role search.role)
              || not (kingdom == search.kingdom)
              || not (is_pair (line lines 3) "LEVEL" (str_of search.level))
              || not (is_pair (line lines 4) "MONSTER" (str_of_option search.monster_id))
              || not (
                  same_fields (line lines 5) (
                    lit "POINT" ∷ str_of_option search.world_x ∷ str_of_option search.world_y ∷ []))
              || not (is_pair (line lines 6) "AVERAGE" (lit "1"))
              || not (has_tag (line lines 7) 4 "STAMINA")
              || not (has_tag (line lines 8) 3 "QUEUE")
              || not (is_flag (line lines 9) "SENT")
              || not (has_tag (line lines 10) 2 "REASON")
              || not (is_pair (line lines 11) "END" (lit "1")))
            _ _ h₃
            λ checked h₄. >>=-cases (parse_integer (line lines 7 ‼ 1) true) _ h₄ λ current r₁ h₅.
              >>=-cases (parse_integer (line lines 7 ‼ 2) true) _ h₅ λ required r₂ h₆.
                >>=-cases (parse_integer (line lines 7 ‼ 3) false) _ h₆ λ base r₃ h₇.
                  >>=-cases (parse_integer (line lines 8 ‼ 1) true) _ h₇ λ marches r₄ h₈.
                    >>=-cases (parse_integer (line lines 8 ‼ 2) false) _ h₈ λ max_marches r₅ h₉.
                      raise_if-cases (ltb max_marches marches) _ _ h₉ λ queue h₁₀.
                        let dispatched = same (line lines 9 ‼ 1) (lit "1") in
                        let word = line lines 10 ‼ 1 in
                        >>=-cases
                          (dispatch_outcome dispatched word current required marches max_marches) _
                          h₁₀
                          λ reason agreed h₁₁.
                            >>=-cases (int_of_option search.monster_id) _ h₁₁ λ monster m₁ h₁₂.
                              >>=-cases (int_of_option search.world_x) _ h₁₂ λ x m₂ h₁₃.
                                >>=-cases (int_of_option search.world_y) _ h₁₃ λ y m₃ h₁₄.
                                  let (_, positive) =
                                    parse_integer_sound (line lines 7 ‼ 3) false base r₃ in
                                  (
                                    not-false ready,
                                    subst (IsHunt search) (ok-injective _ _ h₁₄) (record {
                                      role = same→eq role search.role (ground arith);
                                      kingdom = ground arith;
                                      level = refl;
                                      monster = int_of_option_sound search.monster_id monster m₁;
                                      world_x = int_of_option_sound search.world_x x m₂;
                                      world_y = int_of_option_sound search.world_y y m₃;
                                      base = ground arith;
                                      queue = ground arith;
                                      decision =
                                          dispatch_outcome_sound dispatched word current required
                                            marches max_marches reason agreed;
                                    }),
                                  )
