-- ===== src/Business/March/Stamina.antt =====
-- Which PREPARE and COMMIT answers are accepted, and what they say about stamina.
use mathlib.Core.Path.{subst}
use mumu_autotask.Prelude.{
  ℕ, ◌≤◌, ◌<◌, ◌≡◌, ◌↔◌, ◌⊎◌, inl, inr, refl, sym, ap, ◌∙◌, Bool, true, false, not, ◌||◌, List, [],
  ◌∷◌, map, Option, none, some, ltb, ◌==◌, ==_iff, length, arith, String, ok, >>=-cases,
  raise_if-cases, ok-injective, not-false,
}
use mumu_autotask.Python.Value.{Text, str, items}
use mumu_autotask.Python.Text.{lit, same, same→eq, same_refl}
use mumu_autotask.Python.Decimal.{str_of}
use mumu_autotask.Business.Roles.Whitelist.{IsWhitelist}
use mumu_autotask.Business.Wire.{Lines, line, ◌‼◌, has_tag, is_pair, is_bit, parse_integer}
use mumu_autotask.Business.Wire.Numbers.{Readable, parse_integer_sound, parse_integer-str_of}
use mumu_autotask.Business.Wire.Frame.{
  has_tag-pair, has_tag-quadruple, pair-has_tag, quadruple-has_tag, is_pair→eq, is_pair_refl,
}
use mumu_autotask.Business.Intel.{IntelItem}
use mumu_autotask.Business.March.{
  StaminaStage, MarchPrepareReceipt, MarchCommitReceipt, parse_target_stage, stamina_outcome,
  parse_stamina_stage, parse_prepare_output, parse_commit_output,
}
use mumu_autotask.Business.March.Stages.{stage_lines, IsStage, parse_target_stage_iff}
use mumu_autotask.Business.March.Reports.{bit, bit-is_one, is_bit-bit, is_bit→eq, four_reports}

-- The step succeeds if the stamina is enough, and is blocked if it is not.
abbrev pub Decision : Bool → ℕ → ℕ → Option Text → Type 0
Decision succeeded current required blocked_reason =
    ((succeeded ≡ true) × (required ≤ current) × (blocked_reason ≡ none))
    ⊎ ((succeeded ≡ false)
        × (current < required)
        × (blocked_reason ≡ some (lit "insufficient_stamina")))

abbrev pub reason_text : Bool → Text
reason_text true = lit "NONE"
reason_text false = lit "INSUFFICIENT_STAMINA"

abbrev pub stamina_report : String → StaminaStage → Lines
stamina_report action_name s =
    (lit "AVERAGE" ∷ lit "1" ∷ [])
    ∷ (lit "STAMINA"
        ∷ str_of s.current_stamina
        ∷ str_of s.required_stamina
        ∷ str_of s.base_stamina
        ∷ [])
    ∷ (lit action_name ∷ bit s.succeeded ∷ [])
    ∷ (lit "REASON" ∷ reason_text s.succeeded ∷ [])
    ∷ []

stamina_outcome_sound :
    (succeeded : Bool) (reason : Text) (current required : ℕ) (blocked : Option Text)
    → stamina_outcome succeeded reason current required ≡ ok blocked
    → (reason ≡ reason_text succeeded) × Decision succeeded current required blocked
unfolding stamina_outcome
stamina_outcome_sound true reason current required blocked h₀ =
    raise_if-cases (not (same reason (lit "NONE")) || ltb current required) _ _ h₀ λ agree h₁. (
      same→eq reason (lit "NONE") (ground arith),
      inl (refl, ground arith, sym (ok-injective _ _ h₁)),
    )
stamina_outcome_sound false reason current required blocked h₀ =
    raise_if-cases (not (same reason (lit "INSUFFICIENT_STAMINA")) || not (ltb current required)) _
      _ h₀
      λ agree h₁. (
        same→eq reason (lit "INSUFFICIENT_STAMINA") (ground arith),
        inr (refl, ground arith, sym (ok-injective _ _ h₁)),
      )

stamina_outcome-ok :
    (succeeded : Bool) (current required : ℕ) (blocked : Option Text)
    → Decision succeeded current required blocked
    → stamina_outcome succeeded (reason_text succeeded) current required ≡ ok blocked
unfolding stamina_outcome
stamina_outcome-ok succeeded current required blocked (inl (e, enough, b)) =
    let pass : ltb current required ≡ false = ground arith in
    rw (e, b) (rw (same_refl (lit "NONE"), pass))
stamina_outcome-ok succeeded current required blocked (inr (e, little, b)) =
    let pass : ltb current required ≡ true = ground arith in
    rw (e, b) (rw (same_refl (lit "INSUFFICIENT_STAMINA"), pass))

-- `output` is the answer of a stage that reports `s`, and `s` agrees with itself and the target.
pub record IsStaminaAnswer (kind : String) (action_name : String) (roles : List Text)
    (target : IntelItem) (output : Text) (s : StaminaStage) : Type 0 where
  pub lines : Lines
  pub stage : IsStage kind roles target output lines
  pub report : stage.body ≡ stamina_report action_name s
  pub current : Readable true s.current_stamina
  pub required : Readable true s.required_stamina
  pub base : Readable false s.base_stamina
  pub cost : s.base_stamina ≡ target.stamina_cost
  pub decision : Decision s.succeeded s.current_stamina s.required_stamina s.blocked_reason

abbrev pub prepared_stage : MarchPrepareReceipt → StaminaStage
prepared_stage r = record {
  succeeded = r.ready_to_commit;
  current_stamina = r.current_stamina;
  required_stamina = r.required_stamina;
  base_stamina = r.base_stamina;
  blocked_reason = r.blocked_reason;
}

abbrev pub committed_stage : MarchCommitReceipt → StaminaStage
committed_stage r = record {
  succeeded = r.request_dispatched;
  current_stamina = r.current_stamina;
  required_stamina = r.required_stamina;
  base_stamina = r.base_stamina;
  blocked_reason = r.blocked_reason;
}

module _ (output : Text) (roles : List Text) (target : IntelItem) (w : IsWhitelist roles) where
  parse_stamina_stage_sound :
      (kind action_name : String) (s : StaminaStage)
      → parse_stamina_stage (str output) kind action_name (items (map str roles)) target ≡ ok s
      → IsStaminaAnswer kind action_name roles target output s
  unfolding parse_stamina_stage
  parse_stamina_stage_sound kind action_name s h₀ =
      >>=-cases (parse_target_stage (str output) kind _ target) _ h₀ λ lines read h₁.
        raise_if-cases
          (not (length lines == 9)
            || not (is_pair (line lines 4) "AVERAGE" (lit "1"))
            || not (has_tag (line lines 5) 4 "STAMINA")
            || not (has_tag (line lines 6) 2 action_name)
            || not (is_bit (line lines 6 ‼ 1))
            || not (has_tag (line lines 7) 2 "REASON"))
          _ _ h₁
          λ checked h₂. >>=-cases (parse_integer (line lines 5 ‼ 1) true) _ h₂ λ current r₁ h₃.
            >>=-cases (parse_integer (line lines 5 ‼ 2) true) _ h₃ λ required r₂ h₄.
              >>=-cases (parse_integer (line lines 5 ‼ 3) false) _ h₄ λ base r₃ h₅.
                raise_if-cases (not (base == target.stamina_cost)) _ _ h₅ λ cost h₆.
                  let succeeded = same (line lines 6 ‼ 1) (lit "1") in
                  >>=-cases (stamina_outcome succeeded (line lines 7 ‼ 1) current required) _ h₆
                    λ blocked agreed h₇.
                      let stage =
                        (parse_target_stage_iff output kind roles target w lines).0 read in
                      let (e₁, v₁) = parse_integer_sound (line lines 5 ‼ 1) true current r₁ in
                      let (e₂, v₂) = parse_integer_sound (line lines 5 ‼ 2) true required r₂ in
                      let (e₃, v₃) = parse_integer_sound (line lines 5 ‼ 3) false base r₃ in
                      let (reason, decision) =
                        stamina_outcome_sound succeeded (line lines 7 ‼ 1) current required blocked
                          agreed in
                      let nine : (length lines == 9) ≡ true = ground arith in
                      let f₄ = is_pair→eq (line lines 4) "AVERAGE" (lit "1") (ground arith) in
                      let f₅ = has_tag-quadruple (line lines 5) "STAMINA" (ground arith) in
                      let f₆ = has_tag-pair (line lines 6) action_name (ground arith) in
                      let f₇ = has_tag-pair (line lines 7) "REASON" (ground arith) in
                      let flag = is_bit→eq (line lines 6 ‼ 1) (ground arith) in
                      let body =
                        four_reports kind stage.value stage.kingdom target.runtime_id stage.body
                          lines stage.written nine in
                      subst (IsStaminaAnswer kind action_name roles target output)
                        (ok-injective _ _ h₇)
                        (record {
                          lines = lines;
                          stage = stage;
                          report = cc (body, f₄, f₅, f₆, f₇, flag, e₁, e₂, e₃, reason);
                          current = v₁;
                          required = v₂;
                          base = v₃;
                          cost = (==_iff base target.stamina_cost).0 (not-false cost);
                          decision = decision;
                        })

  parse_stamina_stage-ok :
      (kind action_name : String) (s : StaminaStage)
      → IsStaminaAnswer kind action_name roles target output s
      → parse_stamina_stage (str output) kind action_name (items (map str roles)) target ≡ ok s
  unfolding parse_stamina_stage
  parse_stamina_stage-ok kind action_name s a =
      let written =
        a.stage.written
        ∙ ap (stage_lines kind a.stage.value a.stage.kingdom target.runtime_id) a.report in
      let lines = a.lines in
      let nine : (length lines == 9) ≡ true = ap (λ l. length l == 9) written in
      let f₄ : line lines 4 ≡ lit "AVERAGE" ∷ lit "1" ∷ [] = ap (λ l. line l 4) written in
      let f₅ : line lines 5
          ≡ lit "STAMINA"
            ∷ str_of s.current_stamina
            ∷ str_of s.required_stamina
            ∷ str_of s.base_stamina
            ∷ [] =
        ap (λ l. line l 5) written in
      let f₆ : line lines 6 ≡ lit action_name ∷ bit s.succeeded ∷ [] = ap (λ l. line l 6) written in
      let f₇ : line lines 7 ≡ lit "REASON" ∷ reason_text s.succeeded ∷ [] =
        ap (λ l. line l 7) written in
      let cost : (s.base_stamina == target.stamina_cost) ≡ true = (==_iff _ _).1 a.cost in
      rw (
        (parse_target_stage_iff output kind roles target w lines).1 a.stage,
        nine,
        f₄,
        is_pair_refl "AVERAGE" (lit "1"),
        f₅,
        quadruple-has_tag "STAMINA" (str_of s.current_stamina) (str_of s.required_stamina)
            (str_of s.base_stamina),
        f₆,
        pair-has_tag action_name (bit s.succeeded),
        is_bit-bit s.succeeded,
        f₇,
        pair-has_tag "REASON" (reason_text s.succeeded),
        parse_integer-str_of s.current_stamina true a.current,
        parse_integer-str_of s.required_stamina true a.required,
        parse_integer-str_of s.base_stamina false a.base,
        cost,
        bit-is_one s.succeeded,
        stamina_outcome-ok s.succeeded s.current_stamina s.required_stamina s.blocked_reason
            a.decision,
      )

  parse_stamina_stage_iff :
      (kind action_name : String) (s : StaminaStage)
      → (parse_stamina_stage (str output) kind action_name (items (map str roles)) target ≡ ok s)
        ↔ IsStaminaAnswer kind action_name roles target output s
  parse_stamina_stage_iff kind action_name s =
      (parse_stamina_stage_sound kind action_name s, parse_stamina_stage-ok kind action_name s)

  -- For a valid whitelist, `parse_prepare_output` returns a receipt exactly on the PREPARE answers for
  -- the target that report it, if the base cost is the target's and the receipt says ready with enough
  -- stamina, or blocked by insufficient stamina with too little.
  pub parse_prepare_output_iff :
      (r : MarchPrepareReceipt)
      → (parse_prepare_output (str output) (items (map str roles)) target ≡ ok r)
        ↔ IsStaminaAnswer "PREPARE" "READY" roles target output (prepared_stage r)
  unfolding parse_prepare_output
  parse_prepare_output_iff r = (
    λ h₀. >>=-cases (parse_stamina_stage (str output) "PREPARE" "READY" _ target) _ h₀ λ s read h₁.
        subst (λ t. IsStaminaAnswer "PREPARE" "READY" roles target output (prepared_stage t))
          (ok-injective _ _ h₁) ((parse_stamina_stage_iff "PREPARE" "READY" s).0 read),
    λ a. rw ((parse_stamina_stage_iff "PREPARE" "READY" _).1 a),
  )

  -- For a valid whitelist, `parse_commit_output` returns a receipt exactly on the COMMIT answers for
  -- the target that report it, if the base cost is the target's and the receipt says dispatched with
  -- enough stamina, or blocked by insufficient stamina with too little.
  pub parse_commit_output_iff :
      (r : MarchCommitReceipt)
      → (parse_commit_output (str output) (items (map str roles)) target ≡ ok r)
        ↔ IsStaminaAnswer "COMMIT" "GO" roles target output (committed_stage r)
  unfolding parse_commit_output
  parse_commit_output_iff r = (
    λ h₀. >>=-cases (parse_stamina_stage (str output) "COMMIT" "GO" _ target) _ h₀ λ s read h₁.
        subst (λ t. IsStaminaAnswer "COMMIT" "GO" roles target output (committed_stage t))
          (ok-injective _ _ h₁) ((parse_stamina_stage_iff "COMMIT" "GO" s).0 read),
    λ a. rw ((parse_stamina_stage_iff "COMMIT" "GO" _).1 a),
  )
