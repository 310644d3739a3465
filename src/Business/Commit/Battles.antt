-- ===== src/Business/Commit/Battles.antt =====
-- What the answers on a battle target's start and end guarantee.
use mathlib.Core.Path.{subst}
use mumu_autotask.Prelude.{
  ℕ, suc, ◌≡◌, ◌≢◌, ◌⊎◌, inl, inr, refl, ap, ◌∙◌, Bool, true, false, not, ◌&&◌, ◌||◌, List, [], ◌∷◌,
  All, ltb, ◌==◌, length, is_empty, drop, init, arith, ok, >>=-cases, raise_if-cases, ok-injective,
  not-false,
}
use mumu_autotask.Python.Value.{Text, Value, str, Sequence}
use mumu_autotask.Python.Text.{lit, same, same→eq, member}
use mumu_autotask.Python.Decimal.{str_of}
use mumu_autotask.Business.Tables.{normalize_battle_category}
use mumu_autotask.Business.Wire.{
  Lines, line, ◌‼◌, last_line, has_tag, is_pair, is_bit, parse_integer, parse_role,
  parse_kingdom_line, protocol_lines,
}
use mumu_autotask.Business.Wire.Numbers.{Readable, parse_integer_sound}
use mumu_autotask.Business.Wire.Frame.{has_tag-triple, is_pair→eq}
use mumu_autotask.Business.Battle.{BattleIntelItem}
use mumu_autotask.Business.Verify.{check_quest_status}
use mumu_autotask.Business.Verify.Accepted.{IsQuestStatus, check_quest_status_sound}
use mumu_autotask.Business.Commit.{
  parse_heroes, parse_battle_commit_output, parse_battle_verify_output,
}

-- The lines of heroes numbered from `index`.
unfoldable pub hero_lines : ℕ → List ℕ → Lines
hero_lines index [] = []
hero_lines index (hero ∷ heroes) =
    (lit "HERO" ∷ str_of index ∷ str_of hero ∷ []) ∷ hero_lines (suc index) heroes

pub parse_heroes_sound :
    (index : ℕ) (lines : Lines) (heroes : List ℕ)
    → parse_heroes index lines ≡ ok heroes
    → (lines ≡ hero_lines index heroes) × All (λ n. Readable false n) heroes
unfolding parse_heroes hero_lines
parse_heroes_sound index [] heroes h =
    subst (λ hs. ([] ≡ hero_lines index hs) × All (λ n. Readable false n) hs) (ok-injective _ _ h)
      (refl, tt)
parse_heroes_sound index (fields ∷ lines) heroes h₀ =
    raise_if-cases (not (has_tag fields 3 "HERO") || not (same (fields ‼ 1) (str_of index))) _ _ h₀
      λ tagged h₁. >>=-cases (parse_integer (fields ‼ 2) false) _ h₁ λ hero read h₂.
        >>=-cases (parse_heroes (suc index) lines) _ h₂ λ rest read_rest h₃.
          let (number, positive) = parse_integer_sound (fields ‼ 2) false hero read in
          let (written, all) = parse_heroes_sound (suc index) lines rest read_rest in
          let e = has_tag-triple fields "HERO" (ground arith) in
          let numbered = same→eq (fields ‼ 1) (str_of index) (ground arith) in
          subst (λ hs. (fields ∷ lines ≡ hero_lines index hs) × All (λ n. Readable false n) hs)
            (ok-injective _ _ h₃) (cc (e, numbered, number, written), (positive, all))

-- What `parse_battle_commit_output` accepts is for a target of category hero, and lists at least one
-- hero, in lines numbered from 1 between the first six lines and the last, each with a positive id.
pub parse_battle_commit_output_sound :
    (output : Value) (allowed_roles : Sequence) (target : BattleIntelItem) (heroes : List ℕ)
    → parse_battle_commit_output output allowed_roles target ≡ ok heroes
    → (normalize_battle_category (str target.category) ≡ ok (lit "hero"))
      × (heroes ≢ [])
      × All (λ n. Readable false n) heroes
      × ((lines : Lines) × (protocol_lines output "BATTLE_COMMIT" ≡ ok lines)
          × (line lines 3 ≡ lit "TARGET" ∷ str_of target.runtime_id ∷ [])
          × (init (drop 6 lines) ≡ hero_lines 1 heroes))
unfolding parse_battle_commit_output
parse_battle_commit_output_sound output allowed_roles target heroes h₀ =
    >>=-cases (protocol_lines output "BATTLE_COMMIT") _ h₀ λ lines read h₁.
      raise_if-cases (ltb (length lines) 7) _ _ h₁ λ _ h₂.
        raise_if-cases (not (has_tag (line lines 1) 2 "ROLE")) _ _ h₂ λ _ h₃.
          >>=-cases (parse_role (line lines 1 ‼ 1) allowed_roles) _ h₃ λ _ _ h₄.
            >>=-cases (parse_kingdom_line (line lines 2)) _ h₄ λ _ _ h₅.
              raise_if-cases (not (is_pair (line lines 3) "TARGET" (str_of target.runtime_id))) _ _
                h₅
                λ targeted h₆.
                  raise_if-cases (not (is_pair (line lines 4) "START" (lit "1"))) _ _ h₆ λ _ h₇.
                    raise_if-cases
                      (not (has_tag (line lines 5) 2 "END_REQUEST")
                        || not (is_bit (line lines 5 ‼ 1)))
                      _ _ h₇
                      λ _ h₈.
                        >>=-cases (normalize_battle_category (str target.category)) _ h₈
                          λ category normal h₉.
                            raise_if-cases (not (same category (lit "hero"))) _ _ h₉ λ is_hero h₁₀.
                              raise_if-cases (not (same (line lines 5 ‼ 1) (lit "1"))) _ _ h₁₀
                                λ _ h₁₁.
                                  raise_if-cases (not (is_pair (last_line lines) "END" (lit "1"))) _
                                    _ h₁₁
                                    λ _ h₁₂.
                                      >>=-cases (parse_heroes 1 (init (drop 6 lines))) _ h₁₂
                                        λ hs listed h₁₃.
                                          raise_if-cases (is_empty hs) _ _ h₁₃ λ some_hero h₁₄.
                                            let e = ok-injective _ _ h₁₄ in
                                            let (written, positive) =
                                              parse_heroes_sound 1 (init (drop 6 lines)) hs
                                                listed in
                                            let hero =
                                              same→eq category (lit "hero") (not-false is_hero) in
                                            (
                                              normal ∙ ap ok hero,
                                              λ none_given. ground (arith, e),
                                              subst (All (λ n. Readable false n)) e positive,
                                              (
                                                lines,
                                                read,
                                                is_pair→eq (line lines 3) "TARGET"
                                                    (str_of target.runtime_id) (not-false targeted),
                                                written ∙ ap (hero_lines 1) e,
                                              ),
                                            )

terminal_state :
    (found : Bool) (state : Text)
    → (found && not (member state (lit "2" ∷ lit "3" ∷ lit "missing" ∷ []))) ≡ false
    → (found ≡ false) ⊎ (state ≢ lit "1")
unfolding member same lit
terminal_state false state h = inl refl
terminal_state true state h =
    inr (λ e. cc (ap (λ s. member s (lit "2" ∷ lit "3" ∷ lit "missing" ∷ [])) e, h))

-- What `parse_battle_verify_output` accepts as ended has the quest status 2 or 3, or none; the status
-- is one of the game's in any case.
pub parse_battle_verify_output_sound :
    (output : Value) (allowed_roles : Sequence) (target : BattleIntelItem) (accepted : Bool)
    (status : Text)
    → parse_battle_verify_output output allowed_roles target ≡ ok (accepted, status)
    → IsQuestStatus status × ((accepted ≡ false) ⊎ (status ≢ lit "1"))
unfolding parse_battle_verify_output
parse_battle_verify_output_sound output allowed_roles target accepted status h₀ =
    >>=-cases (protocol_lines output "BATTLE_VERIFY") _ h₀ λ lines read h₁.
      raise_if-cases (not (length lines == 6)) _ _ h₁ λ _ h₂.
        raise_if-cases (not (has_tag (line lines 1) 2 "ROLE")) _ _ h₂ λ _ h₃.
          >>=-cases (parse_role (line lines 1 ‼ 1) allowed_roles) _ h₃ λ _ _ h₄.
            >>=-cases (parse_kingdom_line (line lines 2)) _ h₄ λ _ _ h₅.
              raise_if-cases (not (is_pair (line lines 3) "TARGET" (str_of target.runtime_id))) _ _
                h₅
                λ targeted h₆.
                  raise_if-cases
                    (not (has_tag (line lines 4) 4 "ACCEPTED")
                      || not (is_bit (line lines 4 ‼ 1))
                      || not (same (line lines 4 ‼ 2) (lit "STATUS")))
                    _ _ h₆
                    λ _ h₇.
                      raise_if-cases (not (is_pair (line lines 5) "END" (lit "1"))) _ _ h₇ λ _ h₈.
                        let state = line lines 4 ‼ 3 in
                        >>=-cases (check_quest_status _ state) _ h₈ λ _ known h₉.
                          let found = same (line lines 4 ‼ 1) (lit "1") in
                          raise_if-cases
                            (found && not (member state (lit "2" ∷ lit "3" ∷ lit "missing" ∷ []))) _
                            _ h₉
                            λ terminal h₁₀.
                              subst (λ t. IsQuestStatus t.1 × ((t.0 ≡ false) ⊎ (t.1 ≢ lit "1")))
                                (ok-injective _ _ h₁₀)
                                (
                                  check_quest_status_sound _ state known,
                                  terminal_state found state terminal,
                                )
