-- ===== src/Hunt/Receipts/Terminal.antt =====
-- What an accepted answer to a status request proves.
use mathlib.Core.Path.{subst}
use mumu_autotask.Prelude.{
  ℕ, ◌≡◌, ◌⊎◌, sym, ap, ◌∙◌, inl, inr, true, not, ◌&&◌, List, [], ◌∷◌, Option, length, arith,
  Bool-cases, ok, >>=-cases, refuse_if-cases, ok-injective, not-false,
}
use mumu_autotask.Python.Value.{Text}
use mumu_autotask.Python.Text
use mumu_autotask.Python.Text.{lit, same, same→eq}
use mumu_autotask.Hunt.Json.{
  Json, null, bool, int, float, str, array, object, Elements, Members, get_or_else, get, to_list,
  equals, is_str, equals_list,
}
use mumu_autotask.Hunt.Receipts.{
  validate_payload_kingdom, is_other_role, state_in, terminal_states, statuses_of, as_mapping,
  terminal_ids, terminal_target_ids_from_status_payload,
}
use mumu_autotask.Hunt.Receipts.Reads.{
  is_str-eq, HasKingdom, HasRole, validate_payload_kingdom-HasKingdom, is_other_role-HasRole,
  statuses_of-array, as_mapping-object, IsStatus,
}

-- Each target is reported in its place, and those that are completed or missing are returned, while
-- the others are pending.
abbrev pub AreTerminal : List ℕ → List Json → List ℕ → Type 0
AreTerminal [] statuses out = out ≡ []
AreTerminal (id ∷ ids) [] out = out ≡ []
AreTerminal (id ∷ ids) (j ∷ statuses) out =
    ((IsStatus id (lit "COMPLETED") j ⊎ IsStatus id (lit "MISSING") j)
      × ((rest : List ℕ) × (out ≡ id ∷ rest) × AreTerminal ids statuses rest))
    ⊎ (IsStatus id (lit "PENDING") j × AreTerminal ids statuses out)

terminal-states :
    (j : Json)
    → state_in terminal_states j ≡ ok true
    → (j ≡ str (lit "COMPLETED")) ⊎ (j ≡ str (lit "MISSING"))
unfolding state_in Text.member
terminal-states (str s) h = elim (Bool-cases (same s (lit "COMPLETED"))) [
  | inl e ↦ inl (ap str (same→eq s (lit "COMPLETED") e))
  | inr e ↦
      let found = ok-injective (Text.member s terminal_states) true h in
      let last : same s (lit "MISSING") ≡ true = ground arith in
      inr (ap str (same→eq s (lit "MISSING") last))
]
terminal-states null h = absurd (cc h)
terminal-states (bool b) h = absurd (cc h)
terminal-states (int n) h = absurd (cc h)
terminal-states (float n) h = absurd (cc h)
terminal-states (array xs) h = absurd (cc h)
terminal-states (object fields) h = absurd (cc h)

terminal_ids-AreTerminal :
    (ids : List ℕ) (statuses : List Json) (out : List ℕ)
    → terminal_ids ids statuses ≡ ok out
    → AreTerminal ids statuses out
unfolding terminal_ids
terminal_ids-AreTerminal [] statuses out h = sym (ok-injective [] out h)
terminal_ids-AreTerminal (id ∷ ids) [] out h = sym (ok-injective [] out h)
terminal_ids-AreTerminal (id ∷ ids) (j ∷ statuses) out h =
    >>=-cases (as_mapping _ j) _ h λ status found h₁.
      refuse_if-cases (not (equals (get (lit "runtime_id") status) id)) _ _ h₁ λ id_ok h₂.
        >>=-cases (state_in terminal_states (get (lit "state") status)) _ h₂ λ is_terminal known h₃.
          refuse_if-cases
            (not is_terminal && not (is_str (get (lit "state") status) (lit "PENDING"))) _ _ h₃
            λ state_ok h₄. >>=-cases (terminal_ids ids statuses) _ h₄ λ rest others e.
              let is_mapping = as_mapping-object _ j status found in
              let right_id = not-false id_ok in
              let ih = terminal_ids-AreTerminal ids statuses rest others in
              elim (Bool-cases is_terminal) [
                | inl t ↦
                    let ends = rw t at known in
                    let is_out : id ∷ rest ≡ out = ok-injective (id ∷ rest) out (rw t at e) in
                    inl (
                      elim (terminal-states _ ends) [
                        | inl s ↦ inl (status, is_mapping, right_id, s)
                        | inr s ↦ inr (status, is_mapping, right_id, s)
                      ],
                      (rest, sym is_out, ih),
                    )
                | inr t ↦
                    let waits : is_str (get (lit "state") status) (lit "PENDING") ≡ true =
                      ground arith in
                    inr (
                      (status, is_mapping, right_id, is_str-eq _ (lit "PENDING") waits),
                      subst (AreTerminal ids statuses) (ok-injective rest out (rw t at e)) ih,
                    )
              ]

-- An accepted answer to a status request is from the device, the kingdom and the role of the batch
-- and for its targets in their order; it reports each of them in its place as pending, completed or
-- missing; and the ids that are returned are those of the completed and the missing ones.
pub terminal_target_ids_from_status_payload_sound :
    (payload : Members) (serial : Text) (target_ids out : List ℕ) (role : Option Text)
    (kingdom : Option ℕ)
    → terminal_target_ids_from_status_payload payload serial target_ids role kingdom ≡ ok out
    → (get (lit "serial") payload ≡ str serial)
      × HasKingdom payload kingdom
      × HasRole payload role
      × (equals_list (get (lit "target_ids") payload) target_ids ≡ true)
      × (es : Elements) × (get_or_else (lit "statuses_after") payload (get (lit "statuses") payload)
          ≡ array es)
      × (length (to_list es) ≡ length target_ids)
      × AreTerminal target_ids (to_list es) out
unfolding terminal_target_ids_from_status_payload
terminal_target_ids_from_status_payload_sound payload serial target_ids out role kingdom h =
    let reported = get_or_else (lit "statuses_after") payload (get (lit "statuses") payload) in
    refuse_if-cases (not (is_str (get (lit "serial") payload) serial)) _ _ h λ serial_ok h₁.
      >>=-cases (validate_payload_kingdom payload kingdom) _ h₁ λ k kingdom_ok h₂.
        refuse_if-cases (is_other_role role payload) _ _ h₂ λ role_ok h₃.
          refuse_if-cases (not (equals_list (get (lit "target_ids") payload) target_ids)) _ _ h₃
            λ ids_ok h₄. >>=-cases (statuses_of _ target_ids reported) _ h₄ λ statuses found h₅.
              let ((es, is_array, is_list), counted) =
                statuses_of-array _ target_ids reported statuses found in
              (
                is_str-eq _ serial (not-false serial_ok),
                validate_payload_kingdom-HasKingdom payload kingdom k kingdom_ok,
                is_other_role-HasRole role payload role_ok,
                not-false ids_ok,
                es,
                is_array,
                ap length (sym is_list) ∙ counted,
                subst (λ values. AreTerminal target_ids values out) is_list
                    (terminal_ids-AreTerminal target_ids statuses out h₅),
              )
