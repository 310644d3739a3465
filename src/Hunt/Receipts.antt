-- ===== src/Hunt/Receipts.antt =====
-- gui.py: the checks of the answers to a march, a wait, a status request and a claim.
pub mod Reads
pub mod Claims
pub mod Terminal
use mumu_autotask.Prelude.{
  ℕ, zero, suc, Bool, true, false, not, ◌&&◌, ◌||◌, List, [], ◌∷◌, Option, none, some, ◌==◌, length,
  if◌then◌else◌, String, Result, ok, err, hunt_batch, type_error, ◌>>=◌, ◌>>◌, refuse_if,
}
use mumu_autotask.Python.Value.{Text, ℤ, pos}
use mumu_autotask.Python.Text
use mumu_autotask.Python.Text.{lit, same}
use mumu_autotask.Hunt.Target.{or_raise}
use mumu_autotask.Hunt.Json.{
  Json, null, bool, int, str, array, object, Members, get_or_else, get, to_list, equals, is_str,
  is_true, equals_list,
}

unfoldable pub positive_kingdom : Json → Option ℕ
positive_kingdom (int (pos (suc n))) = some (suc n)
positive_kingdom j = none

-- `isinstance(value, int)`; a `bool` is one.
unfoldable pub is_int : Json → Bool
is_int (int n) = true
is_int (bool b) = true
is_int j = false

-- Two kingdoms that are there and the same.
unfoldable pub same_kingdom : ℕ → Option ℕ → Bool
same_kingdom n none = false
same_kingdom n (some m) = n == m

unfoldable pub is_online_status : Members → Bool
unfolding positive_kingdom is_int same_kingdom
is_online_status payload = elim (positive_kingdom (get (lit "kingdom") payload)) [
  | none ↦ false
  | some kingdom ↦
      is_str (get (lit "adb") payload) (lit "device")
      && same_kingdom kingdom (positive_kingdom (get (lit "playerprefs_kingdom") payload))
      && same_kingdom kingdom (positive_kingdom (get (lit "sdk_server_id") payload))
      && is_true (get (lit "frida_ready") payload)
      && is_true (get (lit "bridge_initialized") payload)
      && is_int (get (lit "pid") payload)
      && is_str (get (lit "process") payload) (lit "Whiteout Survival")
      && is_true (get (lit "game_activity_foreground") payload)
]

-- `expected is not None and value != expected`
abbrev pub is_unexpected : Option ℕ → ℕ → Bool
is_unexpected none n = false
is_unexpected (some expected) n = not (n == expected)

unfoldable pub validate_payload_kingdom : Members → Option ℕ → Result ℕ
unfolding positive_kingdom
validate_payload_kingdom payload expected = do
  kingdom ← or_raise (positive_kingdom (get (lit "kingdom") payload)) "{label}回执缺少有效区域"
  refuse_if (is_unexpected expected kingdom) "{label}回执区域 {kingdom} 与批次开始区域 {expected_kingdom} 不匹配"
  ok kingdom

-- `expected_role is not None and payload.get("role") != expected_role`
unfoldable pub is_other_role : Option Text → Members → Bool
is_other_role none payload = false
is_other_role (some role) payload = not (is_str (get (lit "role") payload) role)

-- The id in `payload["target"]`; a `bool` is no id.
unfoldable pub target_id_of : Json → Option ℤ
target_id_of (object target) = elim (get (lit "runtime_id") target) [ int n ↦ some n | _ ↦ none ]
target_id_of j = none

unfoldable pub is_number : ℕ → ℤ → Bool
is_number n (pos m) = m == n
is_number n i = false

unfoldable pub validate_march_intel_receipt : Members → Text → ℕ → Text → Option ℕ → Result ℕ
unfolding validate_payload_kingdom target_id_of is_number
validate_march_intel_receipt payload serial target_id expected_role expected_kingdom = do
  refuse_if (not (is_str (get (lit "serial") payload) serial)) "出征回执的设备不匹配"
  kingdom ← validate_payload_kingdom payload expected_kingdom
  refuse_if (not (is_str (get (lit "role") payload) expected_role)) "出征回执的角色与批次开始角色不匹配"
  refuse_if (not (is_true (get (lit "request_dispatched") payload))) "服务器回执未证明出征成功"
  runtime_id ← or_raise (target_id_of (get (lit "target") payload)) "服务器回执缺少目标 ID"
  refuse_if (not (is_number target_id runtime_id)) "服务器回执目标 {runtime_id} 与队列目标 {target_id} 不一致"
  ok target_id

-- `state in states`, of a set of texts; a list or a mapping has no hash.
unfoldable pub state_in : List Text → Json → Result Bool
state_in states (str s) = ok (Text.member s states)
state_in states (array xs) = err type_error
state_in states (object fields) = err type_error
state_in states j = ok false

abbrev pub terminal_states : List Text
terminal_states = lit "COMPLETED" ∷ lit "MISSING" ∷ []

-- A list of as many values as there are ids.
unfoldable pub statuses_of : String → List ℕ → Json → Result (List Json)
statuses_of message ids (array statuses) =
    let values = to_list statuses in
    if length values == length ids then ok values else err (hunt_batch message)
statuses_of message ids j = err (hunt_batch message)

-- A status that is a mapping.
unfoldable pub as_mapping : String → Json → Result Members
as_mapping message (object status) = ok status
as_mapping message j = err (hunt_batch message)

-- The loop of `validate_wait_intel_receipt`; both lists have one length here.
unfoldable pub check_waited : List Text → String → List ℕ → List Json → Result (Unit {0})
unfolding as_mapping state_in
check_waited states message [] statuses = ok tt
check_waited states message (id ∷ ids) [] = ok tt
check_waited states message (id ∷ ids) (j ∷ statuses) = do
  status ← as_mapping "等待回执状态 {index} 无效" j
  refuse_if (not (equals (get (lit "runtime_id") status) id)) "等待回执状态顺序与目标 ID 不一致"
  allowed ← state_in states (get (lit "state") status)
  refuse_if (not allowed) message
  check_waited states message ids statuses

unfoldable pub validate_wait_intel_receipt :
    Members → Text → List ℕ → Bool → Option Text → Option ℕ → Result (List ℕ)
unfolding validate_payload_kingdom is_other_role statuses_of check_waited
validate_wait_intel_receipt payload serial target_ids require_missing expected_role
      expected_kingdom =
    do
      refuse_if (not (is_str (get (lit "serial") payload) serial)) "等待回执的设备不匹配"
      kingdom ← validate_payload_kingdom payload expected_kingdom
      refuse_if (is_other_role expected_role payload) "等待回执的角色与批次开始角色不匹配"
      refuse_if (not (equals_list (get (lit "target_ids") payload) target_ids))
          "等待回执的目标 ID 与当前波次不一致"
      refuse_if (not (is_true (get (lit "wait_completed") payload))) "等待回执未证明本波已经完成"
      statuses ← statuses_of "等待回执缺少精确目标状态" target_ids (get (lit "statuses") payload)
      _ ←
          check_waited (if require_missing then lit "MISSING" ∷ [] else terminal_states)
            (if require_missing then "领取后目标 {runtime_id} 仍未消失" else "目标 {runtime_id} 尚未完成")
            target_ids statuses
      ok target_ids

-- The loop of `terminal_target_ids_from_status_payload`.
unfoldable pub terminal_ids : List ℕ → List Json → Result (List ℕ)
unfolding as_mapping state_in
terminal_ids [] statuses = ok []
terminal_ids (id ∷ ids) [] = ok []
terminal_ids (id ∷ ids) (j ∷ statuses) = do
  status ← as_mapping "状态回执状态 {index} 无效" j
  refuse_if (not (equals (get (lit "runtime_id") status) id)) "状态回执状态顺序与目标 ID 不一致"
  let state = get (lit "state") status
  is_terminal ← state_in terminal_states state
  refuse_if (not is_terminal && not (is_str state (lit "PENDING"))) "目标 {runtime_id} 状态无效：{state!r}"
  rest ← terminal_ids ids statuses
  ok (if is_terminal then id ∷ rest else rest)

unfoldable pub terminal_target_ids_from_status_payload :
    Members → Text → List ℕ → Option Text → Option ℕ → Result (List ℕ)
unfolding validate_payload_kingdom is_other_role statuses_of terminal_ids
terminal_target_ids_from_status_payload payload serial target_ids expected_role expected_kingdom =
    do
      refuse_if (not (is_str (get (lit "serial") payload) serial)) "状态回执的设备不匹配"
      kingdom ← validate_payload_kingdom payload expected_kingdom
      refuse_if (is_other_role expected_role payload) "状态回执的角色与批次开始角色不匹配"
      refuse_if (not (equals_list (get (lit "target_ids") payload) target_ids)) "状态回执的目标 ID 与批次不一致"
      statuses ←
          statuses_of "状态回执缺少精确目标状态" target_ids
            (get_or_else (lit "statuses_after") payload (get (lit "statuses") payload))
      terminal_ids target_ids statuses

-- The loop of `validate_claim_intel_receipt`.
unfoldable pub check_claimed : List ℕ → List Json → Result (Unit {0})
unfolding as_mapping
check_claimed [] statuses = ok tt
check_claimed (id ∷ ids) [] = ok tt
check_claimed (id ∷ ids) (j ∷ statuses) = do
  status ← as_mapping "领取后目标 {runtime_id} 未确认消失" j
  refuse_if
      (not (equals (get (lit "runtime_id") status) id)
        || not (is_str (get (lit "state") status) (lit "MISSING")))
      "领取后目标 {runtime_id} 未确认消失"
  check_claimed ids statuses

-- `a == b`, of two `bool`s
abbrev pub same_bool : Bool → Bool → Bool
same_bool true b = b
same_bool false b = not b

unfoldable pub validate_claim_intel_receipt :
    Members → Text → List ℕ → Option Text → Option ℕ → Result (List ℕ)
unfolding validate_payload_kingdom is_other_role statuses_of check_claimed
validate_claim_intel_receipt payload serial target_ids expected_role expected_kingdom = do
  refuse_if (not (is_str (get (lit "serial") payload) serial)) "领取回执的设备不匹配"
  kingdom ← validate_payload_kingdom payload expected_kingdom
  refuse_if (is_other_role expected_role payload) "领取回执的角色与批次开始角色不匹配"
  refuse_if (not (equals_list (get (lit "target_ids") payload) target_ids)) "领取回执的目标 ID 与批次不一致"
  refuse_if (not (is_true (get (lit "claim_allowed") payload))) "领取回执未确认所有目标均已完成"
  let dispatched = is_true (get (lit "request_dispatched") payload)
  let idempotent = is_true (get (lit "idempotent") payload)
  refuse_if (same_bool dispatched idempotent) "领取回执没有唯一的发送或幂等证明"
  refuse_if (not (is_true (get (lit "verified_missing") payload))) "领取回执未证明目标已经消失"
  statuses ← statuses_of "领取回执缺少领取后的精确目标状态" target_ids (get (lit "statuses_after") payload)
  _ ← check_claimed target_ids statuses
  ok target_ids
