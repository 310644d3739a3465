-- ===== src/Business/Queue/Observed.antt =====
-- What the answers on the march queue and the marches on their way guarantee.
use mathlib.Core.Path.{subst}
use mumu_autotask.Prelude.{
  ℕ, ◌+◌, ◌≤◌, ◌<◌, ◌≡◌, ◌⊎◌, sym, ap, ◌∙◌, true, false, not, ◌||◌, List, [], ◌∷◌, map, ltb, ◌==◌,
  length, drop, init, length-between, arith, ok, >>=-cases, raise_if-cases, ok-injective,
}
use mumu_autotask.Python.Value.{Text, Value, items}
use mumu_autotask.Python.Text.{lit, same, same→eq, member}
use mumu_autotask.Python.Decimal.{str_of}
use mumu_autotask.Business.Ids.{normalize_world_monster_march_ids}
use mumu_autotask.Business.Ids.Valid.{number, IsIds, normalize_world_monster_march_ids_iff}
use mumu_autotask.Business.Wire.{
  Fields, Lines, line, ◌‼◌, last_line, has_tag, is_pair, parse_integer, protocol_lines,
}
use mumu_autotask.Business.Wire.Frame.{has_tag-pair, has_tag-triple, is_pair→eq}
use mumu_autotask.Business.Wire.Numbers.{parse_integer_sound}
use mumu_autotask.Business.Monster.{
  WorldMonsterMarchStatus, WorldMarchCapacity, WorldMonsterStatusSnapshot,
  parse_world_monster_identity,
}
use mumu_autotask.Business.Queue.{
  parse_world_march_capacity_output, parse_march_line, parse_march_lines,
  parse_world_monster_status_output,
}

-- The queue holds at most its maximum, which is positive.
abbrev pub IsQueue : ℕ → ℕ → Type 0
IsQueue current maximum = (current ≤ maximum) × (0 < maximum)

-- What `parse_world_march_capacity_output` accepts is a queue of at most its positive maximum.
pub parse_world_march_capacity_output_sound :
    (output : Value) (r : WorldMarchCapacity)
    → parse_world_march_capacity_output output ≡ ok r
    → IsQueue r.current_marches r.max_marches
unfolding parse_world_march_capacity_output
parse_world_march_capacity_output_sound output r h₀ =
    >>=-cases (protocol_lines output "WORLD_MARCH_CAPACITY") _ h₀ λ lines read h₁.
      >>=-cases (parse_world_monster_identity lines) _ h₁ λ (role, kingdom) identified h₂.
        raise_if-cases
          (not (length lines == 6)
            || not (has_tag (line lines 3) 3 "QUEUE")
            || not (has_tag (line lines 4) 2 "STAMINA")
            || not (is_pair (line lines 5) "END" (lit "1")))
          _ _ h₂
          λ checked h₃. >>=-cases (parse_integer (line lines 3 ‼ 1) true) _ h₃ λ current r₁ h₄.
            >>=-cases (parse_integer (line lines 3 ‼ 2) false) _ h₄ λ maximum r₂ h₅.
              >>=-cases (parse_integer (line lines 4 ‼ 1) true) _ h₅ λ stamina r₃ h₆.
                raise_if-cases (ltb maximum current) _ _ h₆ λ queue h₇.
                  let (_, positive) = parse_integer_sound (line lines 3 ‼ 2) false maximum r₂ in
                  subst (λ (t : WorldMarchCapacity). IsQueue t.current_marches t.max_marches)
                    (ok-injective _ _ h₇) (ground arith, ground arith)

abbrev pub IsMarchState : Text → Type 0
IsMarchState state = (state ≡ lit "ACTIVE") ⊎ (state ≡ lit "RETURNED")

march_line_sound :
    (march_id : ℕ) (fields : Fields) (s : WorldMonsterMarchStatus)
    → parse_march_line march_id fields ≡ ok s
    → (s.march_id ≡ march_id)
      × IsMarchState s.state
      × (fields ≡ lit "MARCH" ∷ str_of march_id ∷ s.state ∷ [])
unfolding parse_march_line
march_line_sound march_id fields s h₀ =
    raise_if-cases (not (has_tag fields 3 "MARCH") || not (same (fields ‼ 1) (str_of march_id))) _ _
      h₀
      λ tagged h₁. raise_if-cases (same (fields ‼ 2) (lit "UNKNOWN")) _ _ h₁ λ observed h₂.
        raise_if-cases (not (member (fields ‼ 2) (lit "ACTIVE" ∷ lit "RETURNED" ∷ []))) _ _ h₂
          λ known h₃.
            let e = ok-injective _ _ h₃ in
            let state : fields ‼ 2 ≡ s.state = ap (λ (t : WorldMonsterMarchStatus). t.state) e in
            let states : IsMarchState (fields ‼ 2) =
              unfold member in
              ground (
                arith,
                same→eq (fields ‼ 2) (lit "ACTIVE"),
                same→eq (fields ‼ 2) (lit "RETURNED"),
              ) in
            (
              sym (ap (λ (t : WorldMonsterMarchStatus). t.march_id) e),
              rw state at states,
              has_tag-triple fields "MARCH" (ground arith)
                  ∙ ap (λ f. lit "MARCH" ∷ f ∷ (fields ‼ 2) ∷ [])
                      (same→eq (fields ‼ 1) (str_of march_id) (ground arith))
                  ∙ ap (λ f. lit "MARCH" ∷ str_of march_id ∷ f ∷ []) state,
            )

-- Each march has a line of its own with its id and its state, and there are no other lines.
abbrev pub AreReported : List ℕ → Lines → List WorldMonsterMarchStatus → Type 0
AreReported [] [] [] = Unit
AreReported (n ∷ ids) (fields ∷ lines) (s ∷ ss) =
    (fields ≡ lit "MARCH" ∷ str_of n ∷ s.state ∷ [])
    × (s.march_id ≡ n)
    × IsMarchState s.state
    × AreReported ids lines ss
AreReported ids lines ss = ⊥

march_lines_sound :
    (ids : List ℕ) (lines : Lines) (ss : List WorldMonsterMarchStatus)
    → length lines ≡ length ids
    → parse_march_lines ids lines ≡ ok ss
    → AreReported ids lines ss
unfolding parse_march_lines
march_lines_sound [] [] [] fits h = tt
march_lines_sound [] [] (s ∷ ss) fits h = absurd (cc h)
march_lines_sound [] (fields ∷ lines) ss fits h = absurd (omega (arith, fits))
march_lines_sound (n ∷ ids) [] ss fits h = absurd (omega (arith, fits))
march_lines_sound (n ∷ ids) (fields ∷ lines) ss fits h₀ =
    >>=-cases (parse_march_line n fields) _ h₀ λ s read h₁.
      >>=-cases (parse_march_lines ids lines) _ h₁ λ rest read_rest h₂.
        subst (AreReported (n ∷ ids) (fields ∷ lines)) (ok-injective _ _ h₂) (
          let (named, state, written) = march_line_sound n fields s read in
          (written, named, state, march_lines_sound ids lines rest (omega (arith, fits)) read_rest))

-- The snapshot reports the marches `ids` as the lines between the stamina and the END line do, each
-- active or returned, and a possible queue, which is that of the QUEUE line.
pub record IsObserved (ids : List ℕ) (lines : Lines) (r : WorldMonsterStatusSnapshot) : Type 0 where
  pub valid_ids : IsIds 16 ids
  pub reported : AreReported ids (init (drop 5 lines)) r.statuses
  pub queue_line : line lines 3 ≡ lit "QUEUE" ∷ str_of r.current_marches ∷ str_of r.max_marches ∷ []
  pub queue : IsQueue r.current_marches r.max_marches
  pub stamina_line : line lines 4 ≡ lit "STAMINA" ∷ str_of r.current_stamina ∷ []
  pub end_line : last_line lines ≡ lit "END" ∷ str_of (length ids) ∷ []

-- What `parse_world_monster_status_output` accepts for a sequence has a line for each of the sequence's
-- march ids, which are 1 to 16 different positive integers, in their order, and no other line between
-- STAMINA and END; each line prints its id and the state that the snapshot gives to it, active or
-- returned. Queue and stamina are those of the lines, the queue is at most its positive maximum, and
-- the END line prints the number of the marches.
pub parse_world_monster_status_output_sound :
    (output : Value) (march_ids : List Value) (r : WorldMonsterStatusSnapshot)
    → parse_world_monster_status_output output (items march_ids) ≡ ok r
    → (ids : List ℕ) × (lines : Lines) × (march_ids ≡ map number ids)
      × (protocol_lines output "WORLD_MONSTER_STATUS" ≡ ok lines)
      × IsObserved ids lines r
unfolding parse_world_monster_status_output
parse_world_monster_status_output_sound output march_ids r h₀ =
    >>=-cases (normalize_world_monster_march_ids (items march_ids)) _ h₀ λ ids normal h₁.
      >>=-cases (protocol_lines output "WORLD_MONSTER_STATUS") _ h₁ λ lines read h₂.
        >>=-cases (parse_world_monster_identity lines) _ h₂ λ (role, kingdom) identified h₃.
          raise_if-cases
            (not (length lines == length ids + 6)
              || not (has_tag (line lines 3) 3 "QUEUE")
              || not (has_tag (line lines 4) 2 "STAMINA")
              || not (is_pair (last_line lines) "END" (str_of (length ids))))
            _ _ h₃
            λ checked h₄. >>=-cases (parse_integer (line lines 4 ‼ 1) true) _ h₄ λ stamina r₁ h₅.
              >>=-cases (parse_integer (line lines 3 ‼ 1) true) _ h₅ λ current r₂ h₆.
                >>=-cases (parse_integer (line lines 3 ‼ 2) false) _ h₆ λ maximum r₃ h₇.
                  raise_if-cases (ltb maximum current) _ _ h₇ λ queue h₈.
                    >>=-cases (parse_march_lines ids (init (drop 5 lines))) _ h₈ λ ss listed h₉.
                      let (written, valid) =
                        (normalize_world_monster_march_ids_iff march_ids ids).0 normal in
                      let (at_most, positive) =
                        parse_integer_sound (line lines 3 ‼ 2) false maximum r₃ in
                      let (in_use, _) = parse_integer_sound (line lines 3 ‼ 1) true current r₂ in
                      let (left, _) = parse_integer_sound (line lines 4 ‼ 1) true stamina r₁ in
                      let count : length lines ≡ length ids + 6 = ground arith in
                      let between = length-between 5 lines (omega arith) in
                      (
                        ids,
                        lines,
                        written,
                        read,
                        subst (IsObserved ids lines) (ok-injective _ _ h₉) (record {
                          valid_ids = valid;
                          reported =
                              march_lines_sound ids (init (drop 5 lines)) ss
                                (omega (arith, between, count)) listed;
                          queue_line =
                              has_tag-triple (line lines 3) "QUEUE" (ground arith)
                              ∙ cc (at_most, in_use);
                          queue = (ground arith, ground arith);
                          stamina_line =
                              has_tag-pair (line lines 4) "STAMINA" (ground arith) ∙ cc left;
                          end_line =
                              is_pair→eq (last_line lines) "END" (str_of (length ids))
                                (ground arith);
                        }),
                      )
