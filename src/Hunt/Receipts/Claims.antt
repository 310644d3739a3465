-- ===== src/Hunt/Receipts/Claims.antt =====
-- What an accepted answer to a claim proves.
use mathlib.Core.Path.{subst}
use mumu_autotask.Prelude.{
  ℕ, ◌≡◌, ◌⊎◌, refl, sym, ap, ◌∙◌, inl, inr, Bool, true, false, not, ◌||◌, List, [], ◌∷◌, Option,
  length, arith, ok, >>=-cases, refuse_if-cases, ok-injective, not-false,
}
use mumu_autotask.Python.Value.{Text}
use mumu_autotask.Python.Text.{lit}
use mumu_autotask.Hunt.Json.{
  Json, bool, str, array, Elements, Members, get, to_list, equals, is_str, is_true, equals_list,
}
use mumu_autotask.Hunt.Receipts.{
  validate_payload_kingdom, is_other_role, statuses_of, as_mapping, check_claimed, same_bool,
  validate_claim_intel_receipt,
}
use mumu_autotask.Hunt.Receipts.Reads.{
  is_str-eq, is_true-eq, HasKingdom, HasRole, validate_payload_kingdom-HasKingdom,
  is_other_role-HasRole, statuses_of-array, as_mapping-object, IsStatus,
}

-- Every target is reported as missing, in its place.
abbrev pub AreMissing : List ℕ → List Json → Type 0
AreMissing [] statuses = Unit
AreMissing (id ∷ ids) [] = Unit
AreMissing (id ∷ ids) (j ∷ statuses) = IsStatus id (lit "MISSING") j × AreMissing ids statuses

check_claimed-AreMissing :
    (ids : List ℕ) (statuses : List Json)
    → check_claimed ids statuses ≡ ok tt
    → AreMissing ids statuses
unfolding check_claimed
check_claimed-AreMissing [] statuses h = tt
check_claimed-AreMissing (id ∷ ids) [] h = tt
check_claimed-AreMissing (id ∷ ids) (j ∷ statuses) h =
    >>=-cases (as_mapping _ j) _ h λ status found h₁.
      let other_id = not (equals (get (lit "runtime_id") status) id) in
      let other_state = not (is_str (get (lit "state") status) (lit "MISSING")) in
      refuse_if-cases (other_id || other_state) _ _ h₁ λ passed h₂.
        let right_id : equals (get (lit "runtime_id") status) id ≡ true = ground arith in
        let right_state : is_str (get (lit "state") status) (lit "MISSING") ≡ true = ground arith in
        (
          (
            status,
            as_mapping-object _ j status found,
            right_id,
            is_str-eq _ (lit "MISSING") right_state,
          ),
          check_claimed-AreMissing ids statuses h₂,
        )

once-eq :
    (d i : Bool) → same_bool d i ≡ false → ((d ≡ true) × (i ≡ false)) ⊎ ((d ≡ false) × (i ≡ true))
once-eq true i h = inl (refl, h)
once-eq false i h = inr (refl, not-false h)

-- What an accepted answer to a claim says.
pub record IsClaimed (payload : Members) (serial : Text) (target_ids : List ℕ) (role : Option Text)
    (kingdom : Option ℕ) : Type 0 where
  pub from_device : get (lit "serial") payload ≡ str serial
  pub in_kingdom : HasKingdom payload kingdom
  pub as_role : HasRole payload role
  pub for_targets : equals_list (get (lit "target_ids") payload) target_ids ≡ true
  pub allowed : get (lit "claim_allowed") payload ≡ bool true
  pub once :
      ((is_true (get (lit "request_dispatched") payload) ≡ true)
        × (is_true (get (lit "idempotent") payload) ≡ false))
      ⊎ ((is_true (get (lit "request_dispatched") payload) ≡ false)
          × (is_true (get (lit "idempotent") payload) ≡ true))
  pub verified : get (lit "verified_missing") payload ≡ bool true
  pub gone :
      (es : Elements) × (get (lit "statuses_after") payload ≡ array es)
      × (length (to_list es) ≡ length target_ids)
      × AreMissing target_ids (to_list es)

-- An accepted answer to a claim is from the device, the kingdom and the role of the batch, is for its
-- targets in their order and says that the claim was allowed, that it was either sent or already
-- granted, never both, and that each target is missing afterwards, in its place; the targets are
-- returned.
pub validate_claim_intel_receipt-IsClaimed :
    (payload : Members) (serial : Text) (target_ids out : List ℕ) (role : Option Text)
    (kingdom : Option ℕ)
    → validate_claim_intel_receipt payload serial target_ids role kingdom ≡ ok out
    → (out ≡ target_ids) × IsClaimed payload serial target_ids role kingdom
unfolding validate_claim_intel_receipt
validate_claim_intel_receipt-IsClaimed payload serial target_ids out role kingdom h =
    let dispatched = is_true (get (lit "request_dispatched") payload) in
    let idempotent = is_true (get (lit "idempotent") payload) in
    refuse_if-cases (not (is_str (get (lit "serial") payload) serial)) _ _ h λ serial_ok h₁.
      >>=-cases (validate_payload_kingdom payload kingdom) _ h₁ λ k kingdom_ok h₂.
        refuse_if-cases (is_other_role role payload) _ _ h₂ λ role_ok h₃.
          refuse_if-cases (not (equals_list (get (lit "target_ids") payload) target_ids)) _ _ h₃
            λ ids_ok h₄.
              refuse_if-cases (not (is_true (get (lit "claim_allowed") payload))) _ _ h₄
                λ allowed_ok h₅.
                  refuse_if-cases (same_bool dispatched idempotent) _ _ h₅ λ once_ok h₆.
                    refuse_if-cases (not (is_true (get (lit "verified_missing") payload))) _ _ h₆
                      λ missing_ok h₇.
                        >>=-cases (statuses_of _ target_ids (get (lit "statuses_after") payload)) _
                          h₇
                          λ statuses found h₈.
                            >>=-cases (check_claimed target_ids statuses) _ h₈ λ u checked e.
                              let ((es, is_array, is_list), counted) =
                                statuses_of-array _ target_ids _ statuses found in
                              (
                                sym (ok-injective target_ids out e),
                                record {
                                  from_device = is_str-eq _ serial (not-false serial_ok);
                                  in_kingdom =
                                      validate_payload_kingdom-HasKingdom payload kingdom k
                                        kingdom_ok;
                                  as_role = is_other_role-HasRole role payload role_ok;
                                  for_targets = not-false ids_ok;
                                  allowed = is_true-eq _ (not-false allowed_ok);
                                  once = once-eq dispatched idempotent once_ok;
                                  verified = is_true-eq _ (not-false missing_ok);
                                  gone = (
                                    es,
                                    is_array,
                                    ap length (sym is_list) ∙ counted,
                                    subst (AreMissing target_ids) is_list
                                        (check_claimed-AreMissing target_ids statuses checked),
                                  );
                                },
                              )
