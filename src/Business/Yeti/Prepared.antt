-- ===== src/Business/Yeti/Prepared.antt =====
-- What the status of a yeti rally and the summoning of a yeti guarantee.
use mathlib.Core.Path.{subst}
use mathlib.Core.List.{Memᴰ}
use mumu_autotask.Prelude.{
  ℕ, ◌≤◌, ◌<◌, ◌≡◌, ◌⊎◌, inl, inr, refl, Bool, true, false, not, ◌||◌, Option, none, some, ltb,
  ◌==◌, length, arith, ok, >>=-cases, raise_if-cases, ok-injective, sym, not-false, [], ◌∷◌,
}
use mumu_autotask.Python.Value.{Text, Value}
use mumu_autotask.Python.Text.{lit, same, same→eq}
use mumu_autotask.Business.Wire.{
  Fields, Lines, line, ◌‼◌, has_tag, is_pair, is_flag, parse_integer, protocol_lines,
}
use mumu_autotask.Business.Wire.Frame.{has_tag-pair}
use mumu_autotask.Business.March.Reports.{bit, is_flag→eq}
use mumu_autotask.Business.Wire.Numbers.{parse_integer_sound}
use mumu_autotask.Business.Monster.{parse_world_monster_identity}
use mumu_autotask.Business.Yeti.{
  YetiTarget, YetiRallyStatus, YetiSpawnReceipt, all_missing, parse_prepared_target,
  parse_yeti_status_output, spawn_reasons, spawn_outcome, parse_yeti_spawn_output,
}
use mumu_autotask.Business.Yeti.Rally.{given_target, blocked_by_row}

-- A prepared rally names a monster with its point, and one that is not names nothing.
abbrev pub IsPrepared : Bool → Option ℕ → Option ℕ → Option ℕ → Type 0
IsPrepared prepared monster x y =
    ((prepared ≡ true)
      × ((m : ℕ) × (a : ℕ) × (b : ℕ) × (0 < m) × (monster ≡ some m) × (x ≡ some a) × (y ≡ some b)))
    ⊎ ((prepared ≡ false) × (monster ≡ none) × (x ≡ none) × (y ≡ none))

parse_prepared_target-IsPrepared :
    (prepared : Bool) (fields : Fields) (t : YetiTarget)
    → parse_prepared_target prepared fields ≡ ok t
    → IsPrepared prepared t.monster_id t.world_x t.world_y
unfolding parse_prepared_target
parse_prepared_target-IsPrepared true fields t h = inl (refl, given_target fields t h)
parse_prepared_target-IsPrepared false fields t h =
    raise_if-cases (not (all_missing fields)) _ _ h λ _ h₁.
      subst (λ (u : YetiTarget). IsPrepared false u.monster_id u.world_x u.world_y)
        (ok-injective _ _ h₁) (inr (refl, refl, refl, refl))

-- The status has a possible queue and at most one rally, and agrees with its target.
pub record IsRallyStatus (r : YetiRallyStatus) : Type 0 where
  pub queue : r.current_marches ≤ r.max_marches
  pub room : 0 < r.max_marches
  pub one_rally : r.active_rallies ≤ 1
  pub target : IsPrepared r.prepared r.monster_id r.world_x r.world_y

-- What `parse_yeti_status_output` accepts has at most one active rally and at most the positive
-- maximal number of marches, and names a monster with its point exactly if it is prepared.
pub parse_yeti_status_output-IsRallyStatus :
    (output : Value) (r : YetiRallyStatus)
    → parse_yeti_status_output output ≡ ok r
    → IsRallyStatus r
unfolding parse_yeti_status_output
parse_yeti_status_output-IsRallyStatus output r h₀ =
    >>=-cases (protocol_lines output "YETI_STATUS") _ h₀ λ lines read h₁.
      >>=-cases (parse_world_monster_identity lines) _ h₁ λ (role, kingdom) identified h₂.
        raise_if-cases
          (not (length lines == 10)
            || not (has_tag (line lines 3) 3 "QUEUE")
            || not (has_tag (line lines 4) 2 "STAMINA")
            || not (has_tag (line lines 5) 2 "ACTIVE_RALLIES")
            || not (is_flag (line lines 6) "SPAWN_PENDING")
            || not (is_flag (line lines 7) "PREPARED")
            || not (has_tag (line lines 8) 4 "TARGET")
            || not (is_pair (line lines 9) "END" (lit "1")))
          _ _ h₂
          λ checked h₃. >>=-cases (parse_integer (line lines 3 ‼ 1) true) _ h₃ λ current _ h₄.
            >>=-cases (parse_integer (line lines 3 ‼ 2) false) _ h₄ λ maximum maximum_read h₅.
              >>=-cases (parse_integer (line lines 4 ‼ 1) true) _ h₅ λ stamina _ h₆.
                >>=-cases (parse_integer (line lines 5 ‼ 1) true) _ h₆ λ active _ h₇.
                  raise_if-cases (ltb maximum current || ltb 1 active) _ _ h₇ λ queue h₈.
                    let prepared = same (line lines 7 ‼ 1) (lit "1") in
                    >>=-cases (parse_prepared_target prepared (line lines 8)) _ h₈ λ t targeted h₉.
                      let (_, positive) =
                        parse_integer_sound (line lines 3 ‼ 2) false maximum maximum_read in
                      subst IsRallyStatus (ok-injective _ _ h₉) (record {
                        queue = ground arith;
                        room = ground arith;
                        one_rally = ground arith;
                        target =
                            parse_prepared_target-IsPrepared prepared (line lines 8) t targeted;
                      })

-- The lines tell what became of a summons: it was sent, with NONE as its reason, or was not, with the
-- word of one of the four reasons, which the receipt names.
abbrev pub SpawnDecision : Fields → Fields → Bool → Option Text → Type 0
SpawnDecision sent reason dispatched blocked =
    ((sent ≡ lit "SENT" ∷ lit "1" ∷ [])
      × (reason ≡ lit "REASON" ∷ lit "NONE" ∷ [])
      × (dispatched ≡ true)
      × (blocked ≡ none))
    ⊎ ((sent ≡ lit "SENT" ∷ lit "0" ∷ [])
        × (dispatched ≡ false)
        × ((word : Text) × (named : Text) × (reason ≡ lit "REASON" ∷ word ∷ [])
            × Memᴰ (word, named) spawn_reasons
            × (blocked ≡ some named)))

spawn_outcome-SpawnDecision :
    (dispatched : Bool) (word : Text) (blocked : Option Text)
    → spawn_outcome dispatched word ≡ ok blocked
    → SpawnDecision (lit "SENT" ∷ bit dispatched ∷ []) (lit "REASON" ∷ word ∷ []) dispatched blocked
unfolding spawn_outcome
spawn_outcome-SpawnDecision true word blocked h =
    raise_if-cases (not (same word (lit "NONE"))) _ _ h λ no_reason h₁.
      let word_eq : word ≡ lit "NONE" = same→eq word (lit "NONE") (not-false no_reason) in
      inl (refl, rw word_eq refl, refl, sym (ok-injective _ _ h₁))
spawn_outcome-SpawnDecision false word blocked h =
    let (named, is_named, known) = blocked_by_row spawn_reasons _ word blocked h in
    inr (refl, refl, (word, named, refl, known, is_named))

-- What `parse_yeti_spawn_output` accepts says with its SENT and REASON lines what the receipt does: the
-- summons was sent for the reason NONE, and none is named, or it was not sent, for the word of one of
-- the four reasons, and this one is named.
pub parse_yeti_spawn_output-SpawnDecision :
    (output : Value) (r : YetiSpawnReceipt)
    → parse_yeti_spawn_output output ≡ ok r
    → (lines : Lines) × (protocol_lines output "YETI_SPAWN" ≡ ok lines)
      × SpawnDecision (line lines 3) (line lines 4) r.request_dispatched r.blocked_reason
unfolding parse_yeti_spawn_output
parse_yeti_spawn_output-SpawnDecision output r h₀ =
    >>=-cases (protocol_lines output "YETI_SPAWN") _ h₀ λ lines read h₁.
      >>=-cases (parse_world_monster_identity lines) _ h₁ λ (role, kingdom) identified h₂.
        raise_if-cases
          (not (length lines == 6)
            || not (is_flag (line lines 3) "SENT")
            || not (has_tag (line lines 4) 2 "REASON")
            || not (is_pair (line lines 5) "END" (lit "1")))
          _ _ h₂
          λ checked h₃.
            let dispatched = same (line lines 3 ‼ 1) (lit "1") in
            >>=-cases (spawn_outcome dispatched (line lines 4 ‼ 1)) _ h₃ λ blocked agreed h₄.
              let sent = is_flag→eq (line lines 3) "SENT" (ground arith) in
              let reason = has_tag-pair (line lines 4) "REASON" (ground arith) in
              let decision =
                spawn_outcome-SpawnDecision dispatched (line lines 4 ‼ 1) blocked agreed in
              subst
                (λ (t : YetiSpawnReceipt).
                  (lines : Lines) × (protocol_lines output "YETI_SPAWN" ≡ ok lines)
                  × SpawnDecision (line lines 3) (line lines 4) t.request_dispatched
                      t.blocked_reason)
                (ok-injective _ _ h₄)
                (
                  lines,
                  read,
                  subst (λ f. SpawnDecision f (line lines 4) dispatched blocked) (sym sent)
                      (subst
                        (λ f. SpawnDecision (lit "SENT" ∷ bit dispatched ∷ []) f dispatched blocked)
                        (sym reason) decision),
                )
