-- ===== src/Business/Yeti.antt =====
-- business.py: the answers of the yeti-rally scripts.
pub mod Rally
pub mod Prepared
use mumu_autotask.Prelude.{
  ℕ, Bool, true, false, not, ◌&&◌, ◌||◌, List, [], ◌∷◌, Option, none, some, ltb, leb, ◌==◌, length,
  drop, if◌then◌else◌, String, Result, ok, ◌>>=◌, ◌>>◌, raise_if,
}
use mumu_autotask.Python.Value.{Text, Value}
use mumu_autotask.Python.Text.{lit, same, same_fields}
use mumu_autotask.Business.Tables.{lookup}
use mumu_autotask.Business.Wire.{
  Fields, line, ◌‼◌, has_tag, is_pair, is_flag, or_fail, parse_integer, protocol_lines,
}
use mumu_autotask.Business.Monster.{parse_world_monster_identity}

-- The local variables `monster_id`, `world_x` and `world_y`, which are assigned together.
pub record YetiTarget : Type 0 where
  pub monster_id : Option ℕ
  pub world_x : Option ℕ
  pub world_y : Option ℕ

pub record YetiRallyStatus : Type 0 where
  pub role : Text
  pub kingdom : ℕ
  pub current_stamina : ℕ
  pub current_marches : ℕ
  pub max_marches : ℕ
  pub active_rallies : ℕ
  pub prepared : Bool
  pub world_x : Option ℕ
  pub world_y : Option ℕ
  pub monster_id : Option ℕ

pub record YetiSearchReceipt : Type 0 where
  pub role : Text
  pub kingdom : ℕ
  pub ready : Bool
  pub world_x : Option ℕ
  pub world_y : Option ℕ
  pub monster_id : Option ℕ

pub record YetiCommitReceipt : Type 0 where
  pub role : Text
  pub kingdom : ℕ
  pub request_dispatched : Bool
  pub current_stamina : ℕ
  pub required_stamina : ℕ
  pub current_marches : ℕ
  pub max_marches : ℕ
  pub active_rallies : ℕ
  pub monster_id : Option ℕ
  pub world_x : Option ℕ
  pub world_y : Option ℕ
  pub blocked_reason : Option Text

pub record YetiSpawnReceipt : Type 0 where
  pub role : Text
  pub kingdom : ℕ
  pub request_dispatched : Bool
  pub blocked_reason : Option Text

abbrev pub no_target : YetiTarget
no_target = record { monster_id = none; world_x = none; world_y = none }

-- `fields[1:] == ["missing", "missing", "missing"]`
unfoldable pub all_missing : Fields → Bool
all_missing fields =
    same_fields (drop 1 fields) (lit "missing" ∷ lit "missing" ∷ lit "missing" ∷ [])

unfoldable pub parse_yeti_target : Fields → Result YetiTarget
parse_yeti_target fields = do
  monster_id ← parse_integer (fields ‼ 1) false
  world_x ← parse_integer (fields ‼ 2) true
  world_y ← parse_integer (fields ‼ 3) true
  ok (record { monster_id = some monster_id; world_x = some world_x; world_y = some world_y })

unfoldable pub parse_prepared_target : Bool → Fields → Result YetiTarget
parse_prepared_target true fields = parse_yeti_target fields
parse_prepared_target false fields = do
  raise_if (not (all_missing fields)) "YETI_STATUS target state is inconsistent"
  ok no_target

unfoldable pub parse_yeti_status_output : Value → Result YetiRallyStatus
parse_yeti_status_output output = do
  lines ← protocol_lines output "YETI_STATUS"
  (role, kingdom) ← parse_world_monster_identity lines
  raise_if
      (not (length lines == 10)
        || not (has_tag (line lines 3) 3 "QUEUE")
        || not (has_tag (line lines 4) 2 "STAMINA")
        || not (has_tag (line lines 5) 2 "ACTIVE_RALLIES")
        || not (is_flag (line lines 6) "SPAWN_PENDING")
        || not (is_flag (line lines 7) "PREPARED")
        || not (has_tag (line lines 8) 4 "TARGET")
        || not (is_pair (line lines 9) "END" (lit "1")))
      "YETI_STATUS output is invalid"
  current ← parse_integer (line lines 3 ‼ 1) true
  maximum ← parse_integer (line lines 3 ‼ 2) false
  stamina ← parse_integer (line lines 4 ‼ 1) true
  active ← parse_integer (line lines 5 ‼ 1) true
  raise_if (ltb maximum current || ltb 1 active) "YETI_STATUS queue state is inconsistent"
  let prepared = same (line lines 7 ‼ 1) (lit "1")
  target ← parse_prepared_target prepared (line lines 8)
  ok (record {
    role = role;
    kingdom = kingdom;
    current_stamina = stamina;
    current_marches = current;
    max_marches = maximum;
    active_rallies = active;
    prepared = prepared;
    world_x = target.world_x;
    world_y = target.world_y;
    monster_id = target.monster_id;
  })

abbrev pub spawn_reasons : List (Text × Text)
spawn_reasons =
    (lit "TARGET_ALREADY_PREPARED", lit "target_already_prepared")
    ∷ (lit "YETI_RALLY_ACTIVE", lit "yeti_rally_active")
    ∷ (lit "SPAWN_PENDING", lit "spawn_pending")
    ∷ (lit "INSUFFICIENT_SUMMON_ITEM", lit "insufficient_summon_item")
    ∷ []

abbrev pub commit_reasons : List (Text × Text)
commit_reasons =
    (lit "YETI_RALLY_ACTIVE", lit "yeti_rally_active")
    ∷ (lit "NO_PREPARED_TARGET", lit "no_prepared_target")
    ∷ (lit "NO_IDLE_MARCH_QUEUE", lit "no_idle_march_queue")
    ∷ (lit "NO_LEVEL5_SHIELD", lit "no_level5_shield")
    ∷ (lit "INSUFFICIENT_STAMINA", lit "insufficient_stamina")
    ∷ []

-- `if reason not in allowed: raise …`, and `allowed[reason]`
unfoldable pub blocked_by : List (Text × Text) → String → Text → Result (Option Text)
blocked_by allowed message reason = do
  blocked_reason ← or_fail (lookup reason allowed) message
  ok (some blocked_reason)

unfoldable pub spawn_outcome : Bool → Text → Result (Option Text)
spawn_outcome true reason = do
  raise_if (not (same reason (lit "NONE"))) "YETI_SPAWN dispatch state is inconsistent"
  ok none
spawn_outcome false reason = blocked_by spawn_reasons "YETI_SPAWN blocked reason is invalid" reason

unfoldable pub parse_yeti_spawn_output : Value → Result YetiSpawnReceipt
parse_yeti_spawn_output output = do
  lines ← protocol_lines output "YETI_SPAWN"
  (role, kingdom) ← parse_world_monster_identity lines
  raise_if
      (not (length lines == 6)
        || not (is_flag (line lines 3) "SENT")
        || not (has_tag (line lines 4) 2 "REASON")
        || not (is_pair (line lines 5) "END" (lit "1")))
      "YETI_SPAWN output is invalid"
  let dispatched = same (line lines 3 ‼ 1) (lit "1")
  blocked_reason ← spawn_outcome dispatched (line lines 4 ‼ 1)
  ok (record {
    role = role;
    kingdom = kingdom;
    request_dispatched = dispatched;
    blocked_reason = blocked_reason;
  })

-- The agreement of the dispatch, its reason, the queue, the stamina and the active rallies.
unfoldable pub rally_outcome : Bool → Text → ℕ → ℕ → ℕ → ℕ → ℕ → Result (Option Text)
rally_outcome true reason current maximum stamina required active = do
  raise_if
      (not (same reason (lit "NONE"))
        || leb maximum current
        || ltb stamina required
        || not (active == 0))
      "YETI_COMMIT dispatch state is inconsistent"
  ok none
rally_outcome false reason current maximum stamina required active =
    blocked_by commit_reasons "YETI_COMMIT blocked reason is invalid" reason

unfoldable pub parse_yeti_commit_output : Value → Result YetiCommitReceipt
parse_yeti_commit_output output = do
  lines ← protocol_lines output "YETI_COMMIT"
  (role, kingdom) ← parse_world_monster_identity lines
  raise_if
      (not (length lines == 10)
        || not (has_tag (line lines 3) 4 "TARGET")
        || not (has_tag (line lines 4) 3 "QUEUE")
        || not (has_tag (line lines 5) 3 "STAMINA")
        || not (has_tag (line lines 6) 2 "ACTIVE_RALLIES")
        || not (is_flag (line lines 7) "SENT")
        || not (has_tag (line lines 8) 2 "REASON")
        || not (is_pair (line lines 9) "END" (lit "1")))
      "YETI_COMMIT output is invalid"
  current ← parse_integer (line lines 4 ‼ 1) true
  maximum ← parse_integer (line lines 4 ‼ 2) false
  stamina ← parse_integer (line lines 5 ‼ 1) true
  required ← parse_integer (line lines 5 ‼ 2) true
  active ← parse_integer (line lines 6 ‼ 1) true
  raise_if (ltb maximum current || ltb 1 active) "YETI_COMMIT queue state is inconsistent"
  target ← if all_missing (line lines 3) then ok no_target else parse_yeti_target (line lines 3)
  let dispatched = same (line lines 7 ‼ 1) (lit "1")
  blocked_reason ←
      rally_outcome dispatched (line lines 8 ‼ 1) current maximum stamina required active
  ok (record {
    role = role;
    kingdom = kingdom;
    request_dispatched = dispatched;
    current_stamina = stamina;
    required_stamina = required;
    current_marches = current;
    max_marches = maximum;
    active_rallies = active;
    monster_id = target.monster_id;
    world_x = target.world_x;
    world_y = target.world_y;
    blocked_reason = blocked_reason;
  })
