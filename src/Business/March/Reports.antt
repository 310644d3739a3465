-- ===== src/Business/March/Reports.antt =====
-- The reports of the stages: how many lines there are, and the bits that they hold.
use mumu_autotask.Prelude.{
  ℕ, ◌+◌, ◌≡◌, inl, inr, refl, sym, ap, Bool, true, false, [], ◌∷◌, ◌==◌, length, length-append,
  arith, String, Bool-cases,
}
use mumu_autotask.Python.Value.{Text}
use mumu_autotask.Python.Text.{lit, same, same→eq}
use mumu_autotask.Business.Wire.{Fields, Lines, line, ◌‼◌, is_pair, is_flag, is_bit}
use mumu_autotask.Business.Wire.Frame.{is_pair→eq, is_pair_refl}
use mumu_autotask.Business.March.Stages.{stage_lines, end_one}

abbrev pub bit : Bool → Text
bit true = lit "1"
bit false = lit "0"

pub bit-is_one : (b : Bool) → same (bit b) (lit "1") ≡ b
unfolding same lit
bit-is_one true = refl
bit-is_one false = refl

pub is_bit-bit : (b : Bool) → is_bit (bit b) ≡ true
unfolding is_bit same lit
is_bit-bit true = refl
is_bit-bit false = refl

pub is_bit→eq : (value : Text) → is_bit value ≡ true → value ≡ bit (same value (lit "1"))
unfolding is_bit
is_bit→eq value h = elim (Bool-cases (same value (lit "1"))) [
  | inl e ↦ rw e (same→eq value (lit "1") e)
  | inr e ↦ rw e (same→eq value (lit "0") (ground arith))
]

pub is_flag→eq :
    (fields : Fields) (tag : String)
    → is_flag fields tag ≡ true
    → fields ≡ lit tag ∷ bit (same (fields ‼ 1) (lit "1")) ∷ []
unfolding is_flag
is_flag→eq fields tag h = elim (Bool-cases (is_pair fields tag (lit "1"))) [
  | inl e ↦ let f = is_pair→eq fields tag (lit "1") e in rw f (rw (bit-is_one true) refl)
  | inr e ↦
      let f = is_pair→eq fields tag (lit "0") (ground arith) in rw f (rw (bit-is_one false) refl)
]

pub is_flag-bit : (tag : String) (b : Bool) → is_flag (lit tag ∷ bit b ∷ []) tag ≡ true
unfolding is_flag
is_flag-bit tag true = ground (arith, is_pair_refl tag (lit "1"))
is_flag-bit tag false = ground (arith, is_pair_refl tag (lit "0"))

module _ (kind : String) (value : Text) (kingdom runtime_id : ℕ) where
  length-stage :
      (body : Lines) → length (stage_lines kind value kingdom runtime_id body) ≡ length body + 5
  length-stage body = omega (arith, length-append body (end_one ∷ []))

  pub one_report :
      (body lines : Lines)
      → lines ≡ stage_lines kind value kingdom runtime_id body
      → (length lines == 6) ≡ true
      → body ≡ line lines 4 ∷ []
  one_report (a ∷ []) lines e h = ap (λ l. line l 4 ∷ []) (sym e)
  one_report [] lines e h = ground (arith, ap length e, length-stage [])
  one_report (a ∷ b ∷ body) lines e h = ground (arith, ap length e, length-stage (a ∷ b ∷ body))

  pub four_reports :
      (body lines : Lines)
      → lines ≡ stage_lines kind value kingdom runtime_id body
      → (length lines == 9) ≡ true
      → body ≡ line lines 4 ∷ line lines 5 ∷ line lines 6 ∷ line lines 7 ∷ []
  four_reports (a ∷ b ∷ c ∷ d ∷ []) lines e h =
      ap (λ l. line l 4 ∷ line l 5 ∷ line l 6 ∷ line l 7 ∷ []) (sym e)
  four_reports [] lines e h = ground (arith, ap length e, length-stage [])
  four_reports (a ∷ []) lines e h = ground (arith, ap length e, length-stage (a ∷ []))
  four_reports (a ∷ b ∷ []) lines e h = ground (arith, ap length e, length-stage (a ∷ b ∷ []))
  four_reports (a ∷ b ∷ c ∷ []) lines e h =
      ground (arith, ap length e, length-stage (a ∷ b ∷ c ∷ []))
  four_reports (a ∷ b ∷ c ∷ d ∷ f ∷ body) lines e h =
      ground (arith, ap length e, length-stage (a ∷ b ∷ c ∷ d ∷ f ∷ body))
