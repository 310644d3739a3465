-- ===== src/Business/Verify/Accepted.antt =====
-- What proves that a march was accepted.
use mathlib.Core.Path.{subst}
use mumu_autotask.Prelude.{
  ℕ, ◌≡◌, ◌≢◌, ◌⊎◌, inl, inr, refl, ap, ◌∙◌, Bool, true, false, not, ◌||◌, List, [], ◌∷◌, map, ◌==◌,
  length, arith, if◌then◌else◌, ok, >>=-cases, raise_if-cases, ok-injective, not-false, Bool-cases,
  Result-cases,
}
use mumu_autotask.Python.Value.{Text, str, items}
use mumu_autotask.Python.Text.{lit, same, same→eq, member}
use mumu_autotask.Python.Decimal.{str_of}
use mumu_autotask.Business.Roles.Whitelist.{IsWhitelist}
use mumu_autotask.Business.Wire.{Lines, line, ◌‼◌, has_tag, is_bit, parse_integer}
use mumu_autotask.Business.Wire.Numbers.{parse_integer_sound}
use mumu_autotask.Business.Wire.Frame.{has_tag-pair, has_tag-quadruple}
use mumu_autotask.Business.Intel.{IntelItem}
use mumu_autotask.Business.March.{parse_target_stage}
use mumu_autotask.Business.March.Stages.{IsStage, parse_target_stage_iff}
use mumu_autotask.Business.March.Reports.{bit, is_bit→eq}
use mumu_autotask.Business.Verify.{
  check_quest_status, check_event, check_proof, parse_verify_output,
}

-- The quest status is unknown, or one that the game has.
abbrev pub IsQuestStatus : Text → Type 0
IsQuestStatus status =
    (status ≡ lit "missing") ⊎ (status ≡ lit "1") ⊎ (status ≡ lit "2") ⊎ (status ≡ lit "3")

pub check_quest_status_sound :
    (message : _) (status : Text) → check_quest_status message status ≡ ok tt → IsQuestStatus status
unfolding check_quest_status member
check_quest_status_sound message status h = elim (Bool-cases (same status (lit "missing"))) [
  | inl e ↦ inl (same→eq status (lit "missing") e)
  | inr e ↦
      inr (
        ground
          (arith, same→eq status (lit "1"), same→eq status (lit "2"), same→eq status (lit "3")))
]

-- The event of the march that was found is the target's or unknown; without a march it is zero.
check_event_sound :
    (found : Bool) (event : Text) (runtime_id : ℕ)
    → check_event found event runtime_id ≡ ok tt
    → ((found ≡ true) × (same event (lit "missing") ≡ true) × (event ≡ lit "missing"))
      ⊎ ((found ≡ true) × (same event (lit "missing") ≡ false) × (event ≡ str_of runtime_id))
      ⊎ ((found ≡ false) × (event ≡ str_of 0))
unfolding check_event
check_event_sound found event runtime_id h = elim (Bool-cases (same event (lit "missing"))) [
  | inl e ↦ inl (ground (arith, same→eq event (lit "missing")))
  | inr e ↦ elim (Result-cases (parse_integer event (not found))) [
    | inl (n, read) ↦ ground (arith, (parse_integer_sound event (not found) n read).0, e)
    | inr (_, failed) ↦ ground (arith, e)
  ]
]

-- The proof that a march was accepted, or that it is pending.
abbrev pub Evidence : ℕ → Bool → Text → Text → Text → Text → Type 0
Evidence runtime_id accepted status march event proof =
    ((accepted ≡ true)
      × (march ≡ lit "1")
      × (event ≡ str_of runtime_id)
      × (proof ≡ lit "MARCH_EVENT"))
    ⊎ ((accepted ≡ true)
        × (march ≡ lit "1")
        × (event ≡ lit "missing")
        × (proof ≡ lit "MARCH_FIELDS"))
    ⊎ ((accepted ≡ true)
        × (march ≡ lit "0")
        × (event ≡ str_of 0)
        × (proof ≡ lit "QUEST_STATUS")
        × ((status ≡ lit "2") ⊎ (status ≡ lit "3")))
    ⊎ ((accepted ≡ false) × (march ≡ lit "0") × (event ≡ str_of 0) × (proof ≡ lit "NONE"))

fields_not_none : lit "MARCH_FIELDS" ≢ lit "NONE"
unfolding lit
fields_not_none e = cc e

event_not_none : lit "MARCH_EVENT" ≢ lit "NONE"
unfolding lit
event_not_none e = cc e

check_proof-found :
    (accepted event_missing : Bool) (proof status : Text)
    → check_proof accepted true event_missing proof status ≡ ok tt
    → (accepted ≡ true)
      × (proof ≡ (if event_missing then lit "MARCH_FIELDS" else lit "MARCH_EVENT"))
unfolding check_proof
check_proof-found true true proof status h =
    (refl, ground (arith, same→eq proof (lit "MARCH_FIELDS")))
check_proof-found true false proof status h =
    (refl, ground (arith, same→eq proof (lit "MARCH_EVENT")))
check_proof-found false true proof status h =
    ground (arith, same→eq proof (lit "MARCH_FIELDS"), same→eq proof (lit "NONE"), fields_not_none)
check_proof-found false false proof status h =
    ground (arith, same→eq proof (lit "MARCH_EVENT"), same→eq proof (lit "NONE"), event_not_none)

check_proof-absent :
    (accepted event_missing : Bool) (proof status : Text)
    → check_proof accepted false event_missing proof status ≡ ok tt
    → ((accepted ≡ true) × (proof ≡ lit "QUEST_STATUS") × ((status ≡ lit "2") ⊎ (status ≡ lit "3")))
      ⊎ ((accepted ≡ false) × (proof ≡ lit "NONE"))
unfolding check_proof member
check_proof-absent true event_missing proof status h = inl (
  refl,
  ground (arith, same→eq proof (lit "QUEST_STATUS")),
  ground (arith, same→eq status (lit "2"), same→eq status (lit "3")),
)
check_proof-absent false event_missing proof status h =
    inr (refl, ground (arith, same→eq proof (lit "NONE")))

-- `output` is the VERIFY answer for `target` that reports `status` and the evidence.
pub record IsVerified (roles : List Text) (target : IntelItem) (output : Text) (accepted : Bool)
    (status : Text) : Type 0 where
  pub lines : Lines
  pub stage : IsStage "VERIFY" roles target output lines
  pub march : Text
  pub event : Text
  pub proof : Text
  pub accepted_line : line lines 4 ≡ lit "ACCEPTED" ∷ bit accepted ∷ lit "STATUS" ∷ status ∷ []
  pub march_line : line lines 5 ≡ lit "MARCH" ∷ march ∷ lit "EVENT" ∷ event ∷ []
  pub proof_line : line lines 6 ≡ lit "PROOF" ∷ proof ∷ []
  pub exact : length lines ≡ 8
  pub known : IsQuestStatus status
  pub evidence : Evidence target.runtime_id accepted status march event proof

Evidence-check_proof :
    (accepted : Bool) (march event proof status : Text) (runtime_id : ℕ)
    → is_bit march ≡ true
    → check_event (same march (lit "1")) event runtime_id ≡ ok tt
    → check_proof accepted (same march (lit "1")) (same event (lit "missing")) proof status ≡ ok tt
    → Evidence runtime_id accepted status march event proof
Evidence-check_proof accepted march event proof status runtime_id b h k =
    elim (check_event_sound (same march (lit "1")) event runtime_id h) [
      | inl (found, gone, e) ↦
          let (a, p) = check_proof-found accepted true proof status (rw (found, gone) at k) in
          inr (inl (a, same→eq march (lit "1") found, e, p))
      | inr (inl (found, given, e)) ↦
          let (a, p) = check_proof-found accepted false proof status (rw (found, given) at k) in
          inl (a, same→eq march (lit "1") found, e, p)
      | inr (inr (absent, e)) ↦
          let m : march ≡ lit "0" = is_bit→eq march b ∙ ap bit absent in
          elim (check_proof-absent accepted (same event (lit "missing")) proof status
            (rw absent at k)) [
              | inl (a, p, s) ↦ inr (inr (inl (a, m, e, p, s)))
              | inr (a, p) ↦ inr (inr (inr (a, m, e, p)))
            ]
    ]

-- For a valid whitelist, `parse_verify_output` reports a march as accepted only on a VERIFY answer
-- for the target that has found a march to the target or with an unknown event, or has found none and
-- gives the quest status 2 or 3 as proof; it reports a march as pending only if the answer has found
-- no march and gives no proof.
pub parse_verify_output_sound :
    (output : Text) (roles : List Text) (target : IntelItem) (accepted : Bool) (status : Text)
    → IsWhitelist roles
    → parse_verify_output (str output) (items (map str roles)) target ≡ ok (accepted, status)
    → IsVerified roles target output accepted status
unfolding parse_verify_output
parse_verify_output_sound output roles target accepted status w h₀ =
    >>=-cases (parse_target_stage (str output) "VERIFY" _ target) _ h₀ λ lines read h₁.
      raise_if-cases
        (not (length lines == 8)
          || not (has_tag (line lines 4) 4 "ACCEPTED")
          || not (is_bit (line lines 4 ‼ 1))
          || not (same (line lines 4 ‼ 2) (lit "STATUS")))
        _ _ h₁
        λ accepted_ok h₂.
          let state = line lines 4 ‼ 3 in
          >>=-cases (check_quest_status _ state) _ h₂ λ _ known h₃.
            let march = line lines 5 in
            raise_if-cases
              (not (has_tag march 4 "MARCH")
                || not (is_bit (march ‼ 1))
                || not (same (march ‼ 2) (lit "EVENT")))
              _ _ h₃
              λ march_ok h₄.
                >>=-cases (check_event (same (march ‼ 1) (lit "1")) (march ‼ 3) target.runtime_id) _
                  h₄
                  λ _ event_ok h₅.
                    raise_if-cases (not (has_tag (line lines 6) 2 "PROOF")) _ _ h₅ λ proof_ok h₆.
                      let proof = line lines 6 ‼ 1 in
                      raise_if-cases
                        (not (
                          member proof (
                            lit "MARCH_EVENT"
                            ∷ lit "MARCH_FIELDS"
                            ∷ lit "QUEST_STATUS"
                            ∷ lit "NONE"
                            ∷ [])))
                        _ _ h₆
                        λ _ h₇.
                          let found = same (line lines 4 ‼ 1) (lit "1") in
                          >>=-cases
                            (check_proof found (same (march ‼ 1) (lit "1"))
                              (same (march ‼ 3) (lit "missing")) proof state)
                            _ h₇
                            λ _ agreed h₈.
                              let e₄ = has_tag-quadruple (line lines 4) "ACCEPTED" (ground arith) in
                              let flag = is_bit→eq (line lines 4 ‼ 1) (ground arith) in
                              let status_word =
                                same→eq (line lines 4 ‼ 2) (lit "STATUS") (ground arith) in
                              let e₅ = has_tag-quadruple march "MARCH" (ground arith) in
                              let event_word = same→eq (march ‼ 2) (lit "EVENT") (ground arith) in
                              let pair = ok-injective _ _ h₈ in
                              subst (λ t. IsVerified roles target output t.0 t.1) pair
                                (record {
                                  lines = lines;
                                  stage =
                                      (parse_target_stage_iff output "VERIFY" roles target w
                                          lines).0
                                        read;
                                  march = march ‼ 1;
                                  event = march ‼ 3;
                                  proof = proof;
                                  accepted_line = cc (e₄, flag, status_word);
                                  march_line = cc (e₅, event_word);
                                  proof_line =
                                      has_tag-pair (line lines 6) "PROOF" (not-false proof_ok);
                                  exact = ground arith;
                                  known = check_quest_status_sound _ state known;
                                  evidence =
                                      Evidence-check_proof found (march ‼ 1) (march ‼ 3) proof state
                                        target.runtime_id (ground arith) event_ok agreed;
                                })
