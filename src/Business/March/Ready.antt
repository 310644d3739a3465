-- ===== src/Business/March/Ready.antt =====
-- What the OPEN and READY answers say.
use mumu_autotask.Prelude.{
  ◌≡◌, ◌↔◌, ap, ◌∙◌, Bool, true, not, ◌||◌, List, [], ◌∷◌, map, ◌==◌, length, arith, String, ok,
  >>=-cases, raise_if-cases, ok-injective,
}
use mumu_autotask.Python.Value.{Text, str, items}
use mumu_autotask.Python.Text.{lit}
use mumu_autotask.Business.Roles.Whitelist.{IsWhitelist}
use mumu_autotask.Business.Wire.{Fields, Lines, line, is_flag}
use mumu_autotask.Business.Wire.Frame.{is_pair→eq, is_pair_refl}
use mumu_autotask.Business.Intel.{IntelItem}
use mumu_autotask.Business.March.{parse_target_stage, parse_open_output, parse_ready_output}
use mumu_autotask.Business.March.Stages.{stage_lines, IsStage, parse_target_stage_iff}
use mumu_autotask.Business.March.Reports.{bit, bit-is_one, is_flag→eq, is_flag-bit, one_report}

abbrev pub opened_line : Fields
opened_line = lit "OPENED" ∷ lit "1" ∷ []

abbrev pub ready_line : Bool → Fields
ready_line ready = lit "READY" ∷ bit ready ∷ []

-- `output` is an answer whose report is the one line `report`.
abbrev pub Reports : String → List Text → IntelItem → Text → Fields → Type 0
Reports kind roles target output report =
    (lines : Lines) × (stage : IsStage kind roles target output lines) × (stage.body ≡ report ∷ [])

reported :
    (kind : String) (roles : List Text) (target : IntelItem) (output : Text) (report : Fields)
    (lines : Lines) (stage : IsStage kind roles target output lines)
    → stage.body ≡ report ∷ []
    → (line lines 4 ≡ report) × ((length lines == 6) ≡ true)
reported kind roles target output report lines stage e =
    let written =
      stage.written ∙ ap (stage_lines kind stage.value stage.kingdom target.runtime_id) e in
    (ap (λ l. line l 4) written, ap (λ l. length l == 6) written)

module _ (output : Text) (roles : List Text) (target : IntelItem) (w : IsWhitelist roles) where
  parse_open_output_sound :
      parse_open_output (str output) (items (map str roles)) target ≡ ok tt
      → Reports "OPEN" roles target output opened_line
  unfolding parse_open_output
  parse_open_output_sound h₀ =
      >>=-cases (parse_target_stage (str output) "OPEN" _ target) _ h₀ λ lines read h₁.
        let stage = (parse_target_stage_iff output "OPEN" roles target w lines).0 read in
        let one : (length lines == 6) ≡ true = ground arith in
        let opened = is_pair→eq (line lines 4) "OPENED" (lit "1") (ground arith) in
        let body =
          one_report "OPEN" stage.value stage.kingdom target.runtime_id stage.body lines
            stage.written one in
        (lines, stage, body ∙ ap (λ t. t ∷ []) opened)

  parse_open_output-ok :
      Reports "OPEN" roles target output opened_line
      → parse_open_output (str output) (items (map str roles)) target ≡ ok tt
  unfolding parse_open_output
  parse_open_output-ok (lines, stage, e) =
      let (opened, one) = reported "OPEN" roles target output opened_line lines stage e in
      rw (
        (parse_target_stage_iff output "OPEN" roles target w lines).1 stage,
        one,
        opened,
        is_pair_refl "OPENED" (lit "1"),
      )

  -- For a valid whitelist, `parse_open_output` accepts exactly the answers of stage OPEN for the
  -- target that report OPENED 1 and nothing else.
  pub parse_open_output_iff :
      (parse_open_output (str output) (items (map str roles)) target ≡ ok tt)
      ↔ Reports "OPEN" roles target output opened_line
  parse_open_output_iff = (parse_open_output_sound, parse_open_output-ok)

  parse_ready_output_sound :
      (ready : Bool)
      → parse_ready_output (str output) (items (map str roles)) target ≡ ok ready
      → Reports "READY" roles target output (ready_line ready)
  unfolding parse_ready_output
  parse_ready_output_sound ready h₀ =
      >>=-cases (parse_target_stage (str output) "READY" _ target) _ h₀ λ lines read h₁.
        raise_if-cases (not (length lines == 6) || not (is_flag (line lines 4) "READY")) _ _ h₁
          λ checked h₂.
            let stage = (parse_target_stage_iff output "READY" roles target w lines).0 read in
            let one : (length lines == 6) ≡ true = ground arith in
            let flag = is_flag→eq (line lines 4) "READY" (ground arith) in
            let body =
              one_report "READY" stage.value stage.kingdom target.runtime_id stage.body lines
                stage.written one in
            (
              lines,
              stage,
              body ∙ ap (λ t. t ∷ []) flag ∙ ap (λ b. ready_line b ∷ []) (ok-injective _ _ h₂),
            )

  parse_ready_output-ok :
      (ready : Bool)
      → Reports "READY" roles target output (ready_line ready)
      → parse_ready_output (str output) (items (map str roles)) target ≡ ok ready
  unfolding parse_ready_output
  parse_ready_output-ok ready (lines, stage, e) =
      let (flag, one) = reported "READY" roles target output (ready_line ready) lines stage e in
      rw (
        (parse_target_stage_iff output "READY" roles target w lines).1 stage,
        one,
        flag,
        is_flag-bit "READY" ready,
        bit-is_one ready,
      )

  -- For a valid whitelist, `parse_ready_output` returns `ready` exactly on the answers of stage READY
  -- for the target that report READY with the bit of `ready` and nothing else.
  pub parse_ready_output_iff :
      (ready : Bool)
      → (parse_ready_output (str output) (items (map str roles)) target ≡ ok ready)
        ↔ Reports "READY" roles target output (ready_line ready)
  parse_ready_output_iff ready = (parse_ready_output_sound ready, parse_ready_output-ok ready)
