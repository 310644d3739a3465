-- ===== src/Business/Status/Tracked.antt =====
-- What the answers on the state of intelligence targets guarantee.
use mathlib.Core.Path.{subst}
use mumu_autotask.Prelude.{
  ℕ, ◌+◌, ◌≡◌, ◌⊎◌, inl, inr, refl, sym, ap, ◌∙◌, not-false, true, false, not, ◌||◌, List, [], ◌∷◌,
  map, none, some, ◌==◌, length, drop, init, length-between, arith, if◌then◌else◌, ok, >>=-cases,
  raise_if-cases, ok-injective, Bool-cases, ◌>>=◌, ◌>>◌, raise_if,
}
use mumu_autotask.Python.Value.{Text, Value, Sequence, items}
use mumu_autotask.Python.Text.{lit, same, same→eq, member}
use mumu_autotask.Python.Decimal.{str_of}
use mumu_autotask.Business.Ids.{normalize_target_ids}
use mumu_autotask.Business.Ids.Valid.{number, IsIds, normalize_target_ids_iff}
use mumu_autotask.Business.Wire.{
  Fields, Lines, line, ◌‼◌, last_line, has_tag, is_pair, parse_integer, parse_role,
  parse_kingdom_line, protocol_lines,
}
use mumu_autotask.Business.Wire.Frame.{
  kingdom_line, has_tag-quadruple, is_pair→eq, parse_kingdom_line_sound,
}
use mumu_autotask.Business.Wire.Numbers.{parse_integer_sound}
use mumu_autotask.Business.Status.{
  IntelTargetStatus, IntelStatusSnapshot, intel_missing, intel_states, intel_pending,
  intel_completed, parse_target_line, parse_target_lines, parse_intel_status_output,
}

known_state :
    (state : Text)
    → member state intel_states ≡ true
    → same state intel_missing ≡ false
    → (state ≡ intel_pending) ⊎ (state ≡ intel_completed)
unfolding member
known_state state h e = ground (arith, same→eq state intel_pending, same→eq state intel_completed)

-- A line of the target's id and state, with its quest status or the word for none.
abbrev pub Prints : Fields → IntelTargetStatus → Type 0
Prints fields t =
    (s : Text) × (fields ≡ lit "TARGET" ∷ str_of t.runtime_id ∷ t.state ∷ s ∷ [])
    × ((((t.state ≡ intel_pending) ⊎ (t.state ≡ intel_completed))
          × ((n : ℕ) × (t.quest_status ≡ some n) × (s ≡ str_of n)))
        ⊎ ((t.state ≡ intel_missing) × (t.quest_status ≡ none) × (s ≡ lit "missing")))

target_line_sound :
    (runtime_id : ℕ) (fields : Fields) (t : IntelTargetStatus)
    → parse_target_line runtime_id fields ≡ ok t
    → (t.runtime_id ≡ runtime_id) × Prints fields t
unfolding parse_target_line
target_line_sound runtime_id fields t h₀ =
    raise_if-cases
      (not (length fields == 4)
        || not (same (fields ‼ 0) (lit "TARGET"))
        || not (same (fields ‼ 1) (str_of runtime_id))
        || not (member (fields ‼ 2) intel_states))
      _ _ h₀
      λ checked h₁.
        >>=-cases
          (if same (fields ‼ 2) intel_missing
            then (do
              raise_if (not (same (fields ‼ 3) (lit "missing")))
                  "INTEL_STATUS TARGET[{index}] missing state is inconsistent"
              ok none)
            else (do status ← parse_integer (fields ‼ 3) true; ok (some status)))
          _ h₁
          λ quest_status read h₂.
            let id_field : fields ‼ 1 ≡ str_of runtime_id =
              same→eq (fields ‼ 1) (str_of runtime_id) (ground arith) in
            let written : fields
                ≡ lit "TARGET" ∷ str_of runtime_id ∷ (fields ‼ 2) ∷ (fields ‼ 3) ∷ [] =
              has_tag-quadruple fields "TARGET" (unfold has_tag in ground arith)
              ∙ ap (λ f. lit "TARGET" ∷ f ∷ (fields ‼ 2) ∷ (fields ‼ 3) ∷ []) id_field in
            subst (λ (u : IntelTargetStatus). (u.runtime_id ≡ runtime_id) × Prints fields u)
              (ok-injective _ _ h₂)
              (
                refl,
                (
                  fields ‼ 3,
                  written,
                  elim (Bool-cases (same (fields ‼ 2) intel_missing)) [
                    | inl e ↦
                        raise_if-cases (not (same (fields ‼ 3) (lit "missing"))) _ _ (rw e at read)
                          λ word h₃. inr (
                            same→eq (fields ‼ 2) intel_missing e,
                            sym (ok-injective _ _ h₃),
                            same→eq (fields ‼ 3) (lit "missing") (not-false word),
                          )
                    | inr e ↦
                        >>=-cases (parse_integer (fields ‼ 3) true) _ (rw e at read) λ n number h₃.
                          inl (
                            known_state (fields ‼ 2) (ground arith) e,
                            (
                              n,
                              sym (ok-injective _ _ h₃),
                              (parse_integer_sound (fields ‼ 3) true n number).0,
                            ),
                          )
                  ],
                ),
              )

-- Each target is read from a line of its own, and there are no other lines.
abbrev pub ArePrinted : List ℕ → Lines → List IntelTargetStatus → Type 0
ArePrinted [] [] [] = Unit
ArePrinted (n ∷ ids) (fields ∷ lines) (t ∷ ts) =
    (t.runtime_id ≡ n) × Prints fields t × ArePrinted ids lines ts
ArePrinted ids lines ts = ⊥

target_lines_sound :
    (ids : List ℕ) (lines : Lines) (ts : List IntelTargetStatus)
    → length lines ≡ length ids
    → parse_target_lines ids lines ≡ ok ts
    → ArePrinted ids lines ts
unfolding parse_target_lines
target_lines_sound [] [] [] fits h = tt
target_lines_sound [] [] (t ∷ ts) fits h = absurd (cc h)
target_lines_sound [] (fields ∷ lines) ts fits h = absurd (omega (arith, fits))
target_lines_sound (n ∷ ids) [] ts fits h = absurd (omega (arith, fits))
target_lines_sound (n ∷ ids) (fields ∷ lines) ts fits h₀ =
    >>=-cases (parse_target_line n fields) _ h₀ λ t read h₁.
      >>=-cases (parse_target_lines ids lines) _ h₁ λ rest read_rest h₂.
        subst (ArePrinted (n ∷ ids) (fields ∷ lines)) (ok-injective _ _ h₂) (
          let (named, written) = target_line_sound n fields t read in
          (named, written, target_lines_sound ids lines rest (omega (arith, fits)) read_rest))

-- The snapshot reports exactly the targets `ids`, each as its own line between the identity and the
-- END line does.
pub record IsTracked (ids : List ℕ) (lines : Lines) (r : IntelStatusSnapshot) : Type 0 where
  pub valid_ids : IsIds 128 ids
  pub reported : ArePrinted ids (init (drop 3 lines)) r.targets
  pub kingdom_read : line lines 2 ≡ kingdom_line r.kingdom
  pub end_line : last_line lines ≡ lit "END" ∷ str_of (length ids) ∷ []

-- What `parse_intel_status_output` accepts for a sequence has a line for each of the sequence's target
-- ids, which are 1 to 128 different positive integers, in their order, and no other line between
-- KINGDOM and END; the snapshot gives each target the id, the state and the quest status that its line
-- prints, which are a quest status for one that is pending or completed, and none for a missing one.
-- The KINGDOM line prints the snapshot's kingdom, and the END line the number of the targets.
pub parse_intel_status_output_sound :
    (output : Value) (allowed_roles : Sequence) (target_ids : List Value) (r : IntelStatusSnapshot)
    → parse_intel_status_output output allowed_roles (items target_ids) ≡ ok r
    → (ids : List ℕ) × (lines : Lines) × (target_ids ≡ map number ids)
      × (protocol_lines output "INTEL_STATUS" ≡ ok lines)
      × IsTracked ids lines r
unfolding parse_intel_status_output
parse_intel_status_output_sound output allowed_roles target_ids r h₀ =
    >>=-cases (normalize_target_ids (items target_ids)) _ h₀ λ ids normal h₁.
      >>=-cases (protocol_lines output "INTEL_STATUS") _ h₁ λ lines read h₂.
        raise_if-cases (not (length lines == length ids + 4)) _ _ h₂ λ counted h₃.
          raise_if-cases (not (has_tag (line lines 1) 2 "ROLE")) _ _ h₃ λ tagged h₄.
            >>=-cases (parse_role (line lines 1 ‼ 1) allowed_roles) _ h₄ λ role named h₅.
              >>=-cases (parse_kingdom_line (line lines 2)) _ h₅ λ kingdom numbered h₆.
                >>=-cases (parse_target_lines ids (init (drop 3 lines))) _ h₆ λ ts listed h₇.
                  raise_if-cases (not (is_pair (last_line lines) "END" (str_of (length ids)))) _ _
                    h₇
                    λ ended h₈.
                      let (written, valid) = (normalize_target_ids_iff target_ids ids).0 normal in
                      let count : length lines ≡ length ids + 4 = ground arith in
                      let between = length-between 3 lines (omega arith) in
                      (
                        ids,
                        lines,
                        written,
                        read,
                        subst (IsTracked ids lines) (ok-injective _ _ h₈) (record {
                          valid_ids = valid;
                          reported =
                              target_lines_sound ids (init (drop 3 lines)) ts
                                (omega (arith, between, count)) listed;
                          kingdom_read =
                              (parse_kingdom_line_sound (line lines 2) kingdom numbered).0;
                          end_line =
                              is_pair→eq (last_line lines) "END" (str_of (length ids))
                                (not-false ended);
                        }),
                      )
