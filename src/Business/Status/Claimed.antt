-- ===== src/Business/Status/Claimed.antt =====
-- What an answer on claimed intelligence guarantees.
use mathlib.Core.Path.{subst}
use mumu_autotask.Prelude.{
  ℕ, ◌≡◌, refl, ap, ◌∙◌, Bool, true, false, not, ◌&&◌, ◌||◌, List, [], ◌∷◌, map, ◌==◌, length,
  arith, ok, >>=-cases, raise_if-cases, ok-injective, not-false,
}
use mumu_autotask.Python.Value.{Text, Value, str, items}
use mumu_autotask.Python.Text.{lit, same, same_fields, same_fields→eq}
use mumu_autotask.Python.Decimal.{str_of}
use mumu_autotask.Business.Roles.Whitelist.{IsWhitelist}
use mumu_autotask.Business.Ids.{normalize_target_ids}
use mumu_autotask.Business.Ids.Valid.{number, IsIds, normalize_target_ids_iff}
use mumu_autotask.Business.Wire.{
  Lines, line, ◌‼◌, has_tag, is_pair, is_flag, header, parse_role, parse_kingdom_line,
  protocol_lines,
}
use mumu_autotask.Business.Wire.Numbers.{Readable}
use mumu_autotask.Business.Wire.Lines.{render, protocol_lines_iff}
use mumu_autotask.Business.Wire.Identity.{Names, parse_role_iff}
use mumu_autotask.Business.Wire.Frame.{
  role_line, kingdom_line, has_tag-pair, is_pair→eq, parse_kingdom_line_sound,
}
use mumu_autotask.Business.March.Stages.{end_one}
use mumu_autotask.Business.March.Reports.{bit, is_flag→eq}
use mumu_autotask.Business.Status.{ClaimReceipt, parse_claim_intel_output}

-- The lines that the script writes for a receipt.
unfoldable pub claim_lines : Text → ClaimReceipt → Lines
claim_lines value r =
    header "CLAIM_INTEL"
    ∷ role_line value
    ∷ kingdom_line r.kingdom
    ∷ (lit "TARGETS" ∷ str_of (length r.target_ids) ∷ map str_of r.target_ids)
    ∷ (lit "SENT" ∷ bit r.request_dispatched ∷ [])
    ∷ (lit "IDEMPOTENT" ∷ bit r.idempotent ∷ [])
    ∷ end_one
    ∷ []

-- `output` prints the receipt for `ids`, which was either sent or idempotent.
pub record IsClaim (roles : List Text) (ids : List ℕ) (output : Text) (r : ClaimReceipt)
    : Type 0 where
  pub value : Text
  pub named : Names roles r.role value
  pub positive : Readable false r.kingdom
  pub valid_ids : IsIds 128 ids
  pub same_ids : r.target_ids ≡ ids
  pub printed : output ≡ render (claim_lines value r)
  pub either : r.request_dispatched ≡ not r.idempotent

seven :
    (lines : Lines)
    → (length lines == 7) ≡ true
    → lines
      ≡ line lines 0
        ∷ line lines 1
        ∷ line lines 2
        ∷ line lines 3
        ∷ line lines 4
        ∷ line lines 5
        ∷ line lines 6
        ∷ []
seven (_ ∷ _ ∷ _ ∷ _ ∷ _ ∷ _ ∷ _ ∷ []) h = refl
seven [] h = ground arith
seven (_ ∷ []) h = ground arith
seven (_ ∷ _ ∷ []) h = ground arith
seven (_ ∷ _ ∷ _ ∷ []) h = ground arith
seven (_ ∷ _ ∷ _ ∷ _ ∷ []) h = ground arith
seven (_ ∷ _ ∷ _ ∷ _ ∷ _ ∷ []) h = ground arith
seven (_ ∷ _ ∷ _ ∷ _ ∷ _ ∷ _ ∷ []) h = ground arith
seven (_ ∷ _ ∷ _ ∷ _ ∷ _ ∷ _ ∷ _ ∷ _ ∷ lines) h = ground arith

one_of_both : (a b : Bool) → ((a && b) || (not a && not b)) ≡ false → a ≡ not b
one_of_both a b h = ground arith

-- For a valid whitelist, `parse_claim_intel_output` accepts only the print of its receipt: the target
-- ids are those of the request in their order, 1 to 128 different positive integers, the role is
-- allowed, the kingdom is positive, and the claim was either sent or found to be done before.
pub parse_claim_intel_output_sound :
    (output : Text) (roles : List Text) (target_ids : List Value) (r : ClaimReceipt)
    → IsWhitelist roles
    → parse_claim_intel_output (str output) (items (map str roles)) (items target_ids) ≡ ok r
    → (ids : List ℕ) × (target_ids ≡ map number ids) × IsClaim roles ids output r
unfolding parse_claim_intel_output claim_lines
parse_claim_intel_output_sound output roles target_ids r w h₀ =
    >>=-cases (normalize_target_ids (items target_ids)) _ h₀ λ ids normal h₁.
      >>=-cases (protocol_lines (str output) "CLAIM_INTEL") _ h₁ λ lines read h₂.
        raise_if-cases (not (length lines == 7)) _ _ h₂ λ counted h₃.
          raise_if-cases (not (has_tag (line lines 1) 2 "ROLE")) _ _ h₃ λ tagged h₄.
            >>=-cases (parse_role (line lines 1 ‼ 1) _) _ h₄ λ role named h₅.
              >>=-cases (parse_kingdom_line (line lines 2)) _ h₅ λ kingdom numbered h₆.
                let expected = lit "TARGETS" ∷ str_of (length ids) ∷ map str_of ids in
                raise_if-cases (not (same_fields (line lines 3) expected)) _ _ h₆ λ targets h₇.
                  raise_if-cases (not (is_flag (line lines 4) "SENT")) _ _ h₇ λ sent_ok h₈.
                    raise_if-cases (not (is_flag (line lines 5) "IDEMPOTENT")) _ _ h₈
                      λ idempotent_ok h₉.
                        let sent = same (line lines 4 ‼ 1) (lit "1") in
                        let idempotent = same (line lines 5 ‼ 1) (lit "1") in
                        raise_if-cases ((sent && idempotent) || (not sent && not idempotent)) _ _ h₉
                          λ either h₁₀.
                            raise_if-cases (not (is_pair (line lines 6) "END" (lit "1"))) _ _ h₁₀
                              λ ended h₁₁.
                                let (printed, answer) =
                                  (protocol_lines_iff output "CLAIM_INTEL" lines).0 read in
                                let (written, valid) =
                                  (normalize_target_ids_iff target_ids ids).0 normal in
                                let (e₂, positive) =
                                  parse_kingdom_line_sound (line lines 2) kingdom numbered in
                                let e₀ = answer.headed in
                                let e₁ = has_tag-pair (line lines 1) "ROLE" (not-false tagged) in
                                let e₃ =
                                  same_fields→eq (line lines 3) expected (not-false targets) in
                                let e₄ = is_flag→eq (line lines 4) "SENT" (not-false sent_ok) in
                                let e₅ =
                                  is_flag→eq (line lines 5) "IDEMPOTENT"
                                    (not-false idempotent_ok) in
                                let e₆ =
                                  is_pair→eq (line lines 6) "END" (lit "1") (not-false ended) in
                                let all = seven lines (not-false counted) in
                                (
                                  ids,
                                  written,
                                  subst (IsClaim roles ids output) (ok-injective _ _ h₁₁) (record {
                                    value = line lines 1 ‼ 1;
                                    named =
                                        (parse_role_iff (line lines 1 ‼ 1) roles role w).0 named;
                                    positive = positive;
                                    valid_ids = valid;
                                    same_ids = refl;
                                    printed =
                                        printed ∙ ap render (all ∙ cc (e₀, e₁, e₂, e₃, e₄, e₅, e₆));
                                    either = one_of_both sent idempotent either;
                                  }),
                                )
