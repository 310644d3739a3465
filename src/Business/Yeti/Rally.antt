-- ===== src/Business/Yeti/Rally.antt =====
-- When a yeti rally counts as started, and when as blocked.
use mathlib.Core.Path.{subst}
use mathlib.Core.List.{Memᴰ}
use mathlib.Core.List.Memᴰ.{head, tail}
use mumu_autotask.Prelude.{
  ℕ, ◌≤◌, ◌<◌, ◌≡◌, ◌⊎◌, inl, inr, refl, sym, ap, Bool, true, false, not, ◌||◌, List, [], ◌∷◌, map,
  Option, none, some, ltb, ◌==◌, length, arith, if◌then◌else◌, String, ok, >>=-cases,
  raise_if-cases, ok-injective, Bool-cases, Option-cases,
}
use mumu_autotask.Python.Value.{Text, Value}
use mumu_autotask.Python.Text.{lit, same, same→eq}
use mumu_autotask.Business.Tables.{lookup}
use mumu_autotask.Business.Wire.{
  Fields, line, ◌‼◌, has_tag, is_pair, is_flag, parse_integer, protocol_lines,
}
use mumu_autotask.Business.Wire.Numbers.{parse_integer_sound}
use mumu_autotask.Business.Monster.{parse_world_monster_identity}
use mumu_autotask.Business.Yeti.{
  YetiTarget, YetiCommitReceipt, no_target, all_missing, parse_yeti_target, commit_reasons,
  blocked_by, rally_outcome, parse_yeti_commit_output,
}

-- The reason is one of the table's.
abbrev pub IsReason : List (Text × Text) → Text → Type 0
IsReason table reason = Memᴰ reason (map (λ t. t.1) table)

lookup-IsReason :
    (table : List (Text × Text)) (word reason : Text)
    → lookup word table ≡ some reason
    → IsReason table reason
unfolding lookup
lookup-IsReason [] word reason h = cc h
lookup-IsReason ((a, b) ∷ table) word reason h = elim (Bool-cases (same word a)) [
  | inl e ↦ head (ground arith)
  | inr e ↦ tail (lookup-IsReason table word reason (ground arith))
]

pub blocked_by_sound :
    (table : List (Text × Text)) (message : String) (word : Text) (blocked : Option Text)
    → blocked_by table message word ≡ ok blocked
    → (reason : Text) × (blocked ≡ some reason) × IsReason table reason
unfolding blocked_by
blocked_by_sound table message word blocked h = elim (Option-cases (lookup word table)) [
  | inl e ↦ absurd (ground arith)
  | inr (reason, e) ↦ (reason, ground arith, lookup-IsReason table word reason e)
]

lookup-row :
    (table : List (Text × Text)) (word reason : Text)
    → lookup word table ≡ some reason
    → Memᴰ (word, reason) table
unfolding lookup
lookup-row [] word reason h = cc h
lookup-row ((a, b) ∷ table) word reason h = elim (Bool-cases (same word a)) [
  | inl e ↦
      let is_word = same→eq word a e in
      let is_reason : b ≡ reason = ground arith in head (cc (is_word, is_reason))
  | inr e ↦ tail (lookup-row table word reason (ground arith))
]

-- The reason is the one that the table has for the word.
pub blocked_by_row :
    (table : List (Text × Text)) (message : String) (word : Text) (blocked : Option Text)
    → blocked_by table message word ≡ ok blocked
    → (reason : Text) × (blocked ≡ some reason) × Memᴰ (word, reason) table
unfolding blocked_by
blocked_by_row table message word blocked h = elim (Option-cases (lookup word table)) [
  | inl e ↦ absurd (ground arith)
  | inr (reason, e) ↦ (reason, ground arith, lookup-row table word reason e)
]

-- A started rally has enough stamina, a free march and no other rally; a blocked one has a known
-- reason.
abbrev pub RallyDecision : Bool → ℕ → ℕ → ℕ → ℕ → ℕ → Option Text → Type 0
RallyDecision dispatched current maximum stamina required active blocked =
    ((dispatched ≡ true)
      × (current < maximum)
      × (required ≤ stamina)
      × (active ≡ 0)
      × (blocked ≡ none))
    ⊎ ((dispatched ≡ false)
        × ((reason : Text) × (blocked ≡ some reason) × IsReason commit_reasons reason))

rally_outcome_sound :
    (dispatched : Bool) (word : Text) (current maximum stamina required active : ℕ)
    (blocked : Option Text)
    → rally_outcome dispatched word current maximum stamina required active ≡ ok blocked
    → RallyDecision dispatched current maximum stamina required active blocked
unfolding rally_outcome
rally_outcome_sound true word current maximum stamina required active blocked h = inl (ground arith)
rally_outcome_sound false word current maximum stamina required active blocked h =
    inr (refl, blocked_by_sound commit_reasons _ word blocked h)

-- The monster and its point are given together, or all missing.
abbrev pub IsYetiTarget : Option ℕ → Option ℕ → Option ℕ → Type 0
IsYetiTarget monster x y =
    ((monster ≡ none) × (x ≡ none) × (y ≡ none))
    ⊎ ((m : ℕ) × (a : ℕ) × (b : ℕ) × (0 < m) × (monster ≡ some m) × (x ≡ some a) × (y ≡ some b))

pub given_target :
    (fields : Fields) (t : YetiTarget)
    → parse_yeti_target fields ≡ ok t
    → (m : ℕ) × (a : ℕ) × (b : ℕ) × (0 < m)
      × (t.monster_id ≡ some m)
      × (t.world_x ≡ some a)
      × (t.world_y ≡ some b)
unfolding parse_yeti_target
given_target fields t h₀ = >>=-cases (parse_integer (fields ‼ 1) false) _ h₀ λ m read h₁.
    >>=-cases (parse_integer (fields ‼ 2) true) _ h₁ λ a _ h₂.
      >>=-cases (parse_integer (fields ‼ 3) true) _ h₂ λ b _ h₃.
        let (_, positive) = parse_integer_sound (fields ‼ 1) false m read in
        let e = ok-injective _ _ h₃ in
        (
          m,
          a,
          b,
          ground arith,
          sym (ap (λ (u : YetiTarget). u.monster_id) e),
          sym (ap (λ (u : YetiTarget). u.world_x) e),
          sym (ap (λ (u : YetiTarget). u.world_y) e),
        )

-- The receipt agrees with itself and with the limits of the queue.
pub record IsRally (r : YetiCommitReceipt) : Type 0 where
  pub queue : r.current_marches ≤ r.max_marches
  pub room : 0 < r.max_marches
  pub one_rally : r.active_rallies ≤ 1
  pub target : IsYetiTarget r.monster_id r.world_x r.world_y
  pub decision :
      RallyDecision r.request_dispatched r.current_marches r.max_marches r.current_stamina
        r.required_stamina r.active_rallies r.blocked_reason

commit_target :
    (fields : Fields) (t : YetiTarget)
    → (if all_missing fields then ok no_target else parse_yeti_target fields) ≡ ok t
    → IsYetiTarget t.monster_id t.world_x t.world_y
commit_target fields t h = elim (Bool-cases (all_missing fields)) [
  | inl e ↦
      let h' : ok no_target ≡ ok t = rw e at h in
      let same_target = ok-injective _ _ h' in
      inl (
        sym (ap (λ (u : YetiTarget). u.monster_id) same_target),
        sym (ap (λ (u : YetiTarget). u.world_x) same_target),
        sym (ap (λ (u : YetiTarget). u.world_y) same_target),
      )
  | inr e ↦ let h' : parse_yeti_target fields ≡ ok t = rw e at h in inr (given_target fields t h')
]

-- What `parse_yeti_commit_output` accepts has at most one active rally and at most the maximal number
-- of marches, names a monster with its point or neither, and is dispatched with a free march, enough
-- stamina and no active rally, or blocked by one of the five reasons.
pub parse_yeti_commit_output_sound :
    (output : Value) (r : YetiCommitReceipt) → parse_yeti_commit_output output ≡ ok r → IsRally r
unfolding parse_yeti_commit_output
parse_yeti_commit_output_sound output r h₀ =
    >>=-cases (protocol_lines output "YETI_COMMIT") _ h₀ λ lines read h₁.
      >>=-cases (parse_world_monster_identity lines) _ h₁ λ (role, kingdom) identified h₂.
        raise_if-cases
          (not (length lines == 10)
            || not (has_tag (line lines 3) 4 "TARGET")
            || not (has_tag (line lines 4) 3 "QUEUE")
            || not (has_tag (line lines 5) 3 "STAMINA")
            || not (has_tag (line lines 6) 2 "ACTIVE_RALLIES")
            || not (is_flag (line lines 7) "SENT")
            || not (has_tag (line lines 8) 2 "REASON")
            || not (is_pair (line lines 9) "END" (lit "1")))
          _ _ h₂
          λ checked h₃. >>=-cases (parse_integer (line lines 4 ‼ 1) true) _ h₃ λ current r₁ h₄.
            >>=-cases (parse_integer (line lines 4 ‼ 2) false) _ h₄ λ maximum r₂ h₅.
              >>=-cases (parse_integer (line lines 5 ‼ 1) true) _ h₅ λ stamina r₃ h₆.
                >>=-cases (parse_integer (line lines 5 ‼ 2) true) _ h₆ λ required r₄ h₇.
                  >>=-cases (parse_integer (line lines 6 ‼ 1) true) _ h₇ λ active r₅ h₈.
                    raise_if-cases (ltb maximum current || ltb 1 active) _ _ h₈ λ queue h₉.
                      >>=-cases
                        (if all_missing (line lines 3)
                          then ok no_target
                          else parse_yeti_target (line lines 3))
                        _ h₉
                        λ t targeted h₁₀.
                          let dispatched = same (line lines 7 ‼ 1) (lit "1") in
                          >>=-cases
                            (rally_outcome dispatched (line lines 8 ‼ 1) current maximum stamina
                              required active)
                            _ h₁₀
                            λ blocked agreed h₁₁.
                              let (_, positive) =
                                parse_integer_sound (line lines 4 ‼ 2) false maximum r₂ in
                              subst IsRally (ok-injective _ _ h₁₁) (record {
                                queue = ground arith;
                                room = ground arith;
                                one_rally = ground arith;
                                target = commit_target (line lines 3) t targeted;
                                decision =
                                    rally_outcome_sound dispatched (line lines 8 ‼ 1) current
                                      maximum stamina required active blocked agreed;
                              })
