-- ===== src/Business/March/Stages.antt =====
-- Which answers of a stage are accepted, and what the OPEN and READY answers say.
use mathlib.Core.Path.{subst}
use mumu_autotask.Prelude.{
  ℕ, ◌≤◌, ◌≡◌, ◌≢◌, ◌↔◌, refl, ap, ◌∙◌, false, not, List, [], ◌∷◌, ◌++◌, map, ltb, length,
  length-append, drop, init, get_last_or-snoc, arith, String, ok, >>=-cases, raise_if-cases,
  ok-injective, not-false,
}
use mumu_autotask.Python.Value.{Text, str, items}
use mumu_autotask.Python.Text.{lit}
use mumu_autotask.Python.Decimal.{str_of}
use mumu_autotask.Business.Roles.Whitelist.{IsWhitelist}
use mumu_autotask.Business.Wire.{
  Fields, Lines, line, ◌‼◌, last_line, has_tag, is_pair, header, parse_role, parse_kingdom_line,
  protocol_lines,
}
use mumu_autotask.Business.Wire.Numbers.{Readable}
use mumu_autotask.Business.Wire.Lines.{render, IsAnswer, protocol_lines_iff}
use mumu_autotask.Business.Wire.Identity.{Names, parse_role_iff, parse_kingdom_line-ok}
use mumu_autotask.Business.Wire.Frame.{
  role_line, kingdom_line, has_tag-pair, pair-has_tag, is_pair→eq, is_pair_refl,
  parse_kingdom_line_sound, frame_4,
}
use mumu_autotask.Business.Intel.{IntelItem}
use mumu_autotask.Business.March.{parse_target_stage}

abbrev pub target_line : ℕ → Fields
target_line runtime_id = lit "TARGET" ∷ str_of runtime_id ∷ []

abbrev pub end_one : Fields
end_one = lit "END" ∷ lit "1" ∷ []

-- The lines of a stage: the header, the identity, the target, what the stage reports, and the end.
abbrev pub stage_lines : String → Text → ℕ → ℕ → Lines → Lines
stage_lines kind value kingdom runtime_id body =
    header kind
    ∷ role_line value
    ∷ kingdom_line kingdom
    ∷ target_line runtime_id
    ∷ (body ++ end_one ∷ [])

-- `output` is the answer of one stage for `target`, with the report `body`.
pub record IsStage (kind : String) (roles : List Text) (target : IntelItem) (output : Text)
    (lines : Lines) : Type 0 where
  pub role : Text
  pub value : Text
  pub kingdom : ℕ
  pub body : Lines
  pub named : Names roles role value
  pub positive : Readable false kingdom
  pub reports : body ≢ []
  pub written : lines ≡ stage_lines kind value kingdom target.runtime_id body
  pub printed : output ≡ render lines
  pub answer : IsAnswer kind lines

four_of_six : (lines : Lines) → ltb (length lines) 6 ≡ false → 5 ≤ length lines
four_of_six lines h = ground arith

body_reports : (lines : Lines) → ltb (length lines) 6 ≡ false → init (drop 4 lines) ≢ []
body_reports (_ ∷ _ ∷ _ ∷ _ ∷ _ ∷ _ ∷ lines) h e = cc e
body_reports [] h e = ground arith
body_reports (_ ∷ []) h e = ground arith
body_reports (_ ∷ _ ∷ []) h e = ground arith
body_reports (_ ∷ _ ∷ _ ∷ []) h e = ground arith
body_reports (_ ∷ _ ∷ _ ∷ _ ∷ []) h e = ground arith
body_reports (_ ∷ _ ∷ _ ∷ _ ∷ _ ∷ []) h e = ground arith

stage_long :
    (kind : String) (runtime_id : ℕ) (value : Text) (kingdom : ℕ) (body lines : Lines)
    → body ≢ []
    → lines ≡ stage_lines kind value kingdom runtime_id body
    → ltb (length lines) 6 ≡ false
stage_long kind runtime_id value kingdom [] lines n e = absurd (n refl)
stage_long kind runtime_id value kingdom (b ∷ body) lines n e =
    rw e (ground (arith, length-append body (end_one ∷ [])))

module _ (output : Text) (kind : String) (roles : List Text) (target : IntelItem)
    (w : IsWhitelist roles) where
  parse_target_stage_sound :
      (lines : Lines)
      → parse_target_stage (str output) kind (items (map str roles)) target ≡ ok lines
      → IsStage kind roles target output lines
  unfolding parse_target_stage
  parse_target_stage_sound lines h₀ =
      >>=-cases (protocol_lines (str output) kind) _ h₀ λ found read h₁.
        raise_if-cases (ltb (length found) 6) _ _ h₁ λ long h₂.
          raise_if-cases (not (has_tag (line found 1) 2 "ROLE")) _ _ h₂ λ tagged h₃.
            >>=-cases (parse_role (line found 1 ‼ 1) _) _ h₃ λ role named h₄.
              >>=-cases (parse_kingdom_line (line found 2)) _ h₄ λ kingdom numbered h₅.
                raise_if-cases (not (is_pair (line found 3) "TARGET" (str_of target.runtime_id))) _
                  _ h₅
                  λ targeted h₆.
                    raise_if-cases (not (is_pair (last_line found) "END" (lit "1"))) _ _ h₆
                      λ ended h₇.
                        let (printed, answer) = (protocol_lines_iff output kind found).0 read in
                        let (e₂, positive) =
                          parse_kingdom_line_sound (line found 2) kingdom numbered in
                        let e₀ = answer.headed in
                        let e₁ = has_tag-pair (line found 1) "ROLE" (not-false tagged) in
                        let e₃ =
                          is_pair→eq (line found 3) "TARGET" (str_of target.runtime_id)
                            (not-false targeted) in
                        let e₄ = is_pair→eq (last_line found) "END" (lit "1") (not-false ended) in
                        let framed = frame_4 found (four_of_six found long) in
                        subst (IsStage kind roles target output) (ok-injective _ _ h₇) (record {
                          role = role;
                          value = line found 1 ‼ 1;
                          kingdom = kingdom;
                          body = init (drop 4 found);
                          named = (parse_role_iff (line found 1 ‼ 1) roles role w).0 named;
                          positive = positive;
                          reports = body_reports found long;
                          written = cc (framed, e₀, e₁, e₂, e₃, e₄);
                          printed = printed;
                          answer = answer;
                        })

  parse_target_stage-ok :
      (lines : Lines)
      → IsStage kind roles target output lines
      → parse_target_stage (str output) kind (items (map str roles)) target ≡ ok lines
  unfolding parse_target_stage
  parse_target_stage-ok lines s =
      let long : ltb (length lines) 6 ≡ false =
        stage_long kind target.runtime_id s.value s.kingdom s.body lines s.reports s.written in
      let e₁ : line lines 1 ≡ role_line s.value = ap (λ l. line l 1) s.written in
      let e₂ : line lines 2 ≡ kingdom_line s.kingdom = ap (λ l. line l 2) s.written in
      let e₃ : line lines 3 ≡ target_line target.runtime_id = ap (λ l. line l 3) s.written in
      let e₄ : last_line lines ≡ end_one =
        ap last_line s.written ∙ get_last_or-snoc s.body end_one (target_line target.runtime_id) in
      rw (
        (protocol_lines_iff output kind lines).1 (s.printed, s.answer),
        long,
        e₁,
        pair-has_tag "ROLE" s.value,
        (parse_role_iff s.value roles s.role w).1 s.named,
        e₂,
        parse_kingdom_line-ok s.kingdom s.positive,
        e₃,
        is_pair_refl "TARGET" (str_of target.runtime_id),
        e₄,
        is_pair_refl "END" (lit "1"),
      )

  -- For a valid whitelist, `_parse_target_stage` returns lines exactly if the text is their print, it
  -- has at most 15000 bytes, and the lines are the header of the kind, an allowed role in
  -- hexadecimal, a positive kingdom, the target's id, at least one further line, and END 1.
  pub parse_target_stage_iff :
      (lines : Lines)
      → (parse_target_stage (str output) kind (items (map str roles)) target ≡ ok lines)
        ↔ IsStage kind roles target output lines
  parse_target_stage_iff lines = (parse_target_stage_sound lines, parse_target_stage-ok lines)
