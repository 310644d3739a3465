-- ===== src/Business/March/Sent.antt =====
-- What the MARCH answer says about the march that was sent.
use mathlib.Core.Path.{subst}
use mumu_autotask.Prelude.{
  ◌≡◌, refl, true, false, not, ◌||◌, List, [], ◌∷◌, map, ◌==◌, length, arith, ok, >>=-cases,
  raise_if-cases, ok-injective, not-false,
}
use mumu_autotask.Python.Value.{Text, Value, str, items}
use mumu_autotask.Python.Text.{lit, same, same→eq, same_fields, same_fields→eq}
use mumu_autotask.Python.Decimal.{str_of}
use mumu_autotask.Business.Tables.{quality_ids, lookup_or, normalize_quality}
use mumu_autotask.Business.Roles.Whitelist.{IsWhitelist}
use mumu_autotask.Business.Wire.{
  Lines, line, ◌‼◌, has_tag, is_pair, parse_role, parse_kingdom_line, protocol_lines,
}
use mumu_autotask.Business.Wire.Numbers.{Readable}
use mumu_autotask.Business.Wire.Lines.{render, protocol_lines_iff}
use mumu_autotask.Business.Wire.Identity.{Names, parse_role_iff}
use mumu_autotask.Business.Wire.Frame.{parse_kingdom_line_sound}
use mumu_autotask.Business.Intel.{parse_item}
use mumu_autotask.Business.Intel.Items.{IsItem, item_fields, parse_item_sound}
use mumu_autotask.Business.March.{MarchReceipt, as_item, parse_march_output}

-- The receipt is for the requested quality and an allowed role, and its target is a valid item of that
-- quality, written in the TARGET line.
pub record IsSent (roles : List Text) (expected : Value) (output : Text) (r : MarchReceipt)
    : Type 0 where
  pub lines : Lines
  pub value : Text
  pub printed : output ≡ render lines
  pub named : Names roles r.role value
  pub kingdom : Readable false r.kingdom
  pub requested : normalize_quality expected ≡ ok r.quality
  pub quality_line : line lines 3 ≡ lit "QUALITY" ∷ r.quality ∷ str_of r.quality_id ∷ []
  pub tagged : line lines 4 ‼ 0 ≡ lit "TARGET"
  pub target_line : as_item (line lines 4) ≡ item_fields r.target
  pub target : IsItem r.target
  pub same_quality : r.target.quality ≡ r.quality
  pub dispatched : r.request_dispatched ≡ true

-- For a valid whitelist, what `parse_march_output` accepts has an allowed role and a positive kingdom,
-- is for the requested quality, and names a valid target of that quality, which the TARGET line writes.
pub parse_march_output-IsSent :
    (output : Text) (roles : List Text) (expected : Value) (r : MarchReceipt)
    → IsWhitelist roles
    → parse_march_output (str output) (items (map str roles)) expected ≡ ok r
    → IsSent roles expected output r
unfolding parse_march_output
parse_march_output-IsSent output roles expected r w h₀ =
    >>=-cases (normalize_quality expected) _ h₀ λ quality normal h₁.
      let quality_id = lookup_or quality quality_ids 0 in
      >>=-cases (protocol_lines (str output) "MARCH") _ h₁ λ lines read h₂.
        raise_if-cases (not (length lines == 8)) _ _ h₂ λ _ h₃.
          raise_if-cases (not (has_tag (line lines 1) 2 "ROLE")) _ _ h₃ λ tagged h₄.
            >>=-cases (parse_role (line lines 1 ‼ 1) _) _ h₄ λ role named h₅.
              >>=-cases (parse_kingdom_line (line lines 2)) _ h₅ λ kingdom numbered h₆.
                let quality_line = lit "QUALITY" ∷ quality ∷ str_of quality_id ∷ [] in
                raise_if-cases (not (same_fields (line lines 3) quality_line)) _ _ h₆
                  λ quality_ok h₇.
                    raise_if-cases
                      ((length (line lines 4) == 0) || not (same (line lines 4 ‼ 0) (lit "TARGET")))
                      _ _ h₇
                      λ target_ok h₈.
                        >>=-cases (parse_item (as_item (line lines 4))) _ h₈
                          λ target target_read h₉.
                            raise_if-cases (not (same target.quality quality)) _ _ h₉
                              λ one_quality h₁₀.
                                raise_if-cases (not (is_pair (line lines 5) "AVERAGE" (lit "1"))) _
                                  _ h₁₀
                                  λ _ h₁₁.
                                    raise_if-cases (not (is_pair (line lines 6) "SENT" (lit "1"))) _
                                      _ h₁₁
                                      λ _ h₁₂.
                                        raise_if-cases
                                          (not (is_pair (line lines 7) "END" (lit "1"))) _ _ h₁₂
                                          λ _ h₁₃.
                                            let (printed, _) =
                                              (protocol_lines_iff output "MARCH" lines).0 read in
                                            let (_, positive) =
                                              parse_kingdom_line_sound (line lines 2) kingdom
                                                numbered in
                                            let (written, valid) =
                                              parse_item_sound (as_item (line lines 4)) target
                                                target_read in
                                            subst (IsSent roles expected output)
                                              (ok-injective _ _ h₁₃)
                                              (record {
                                                lines = lines;
                                                value = line lines 1 ‼ 1;
                                                printed = printed;
                                                named =
                                                    (parse_role_iff (line lines 1 ‼ 1) roles role
                                                        w).0
                                                      named;
                                                kingdom = positive;
                                                requested = normal;
                                                quality_line =
                                                    same_fields→eq (line lines 3) quality_line
                                                      (not-false quality_ok);
                                                tagged =
                                                    same→eq (line lines 4 ‼ 0) (lit "TARGET")
                                                      (ground arith);
                                                target_line = written;
                                                target = valid;
                                                same_quality =
                                                    same→eq target.quality quality
                                                      (not-false one_quality);
                                                dispatched = refl;
                                              })
