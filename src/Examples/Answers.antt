-- ===== src/Examples/Answers.antt =====
-- Concrete answers of the scripts, and what they are read as.
use mumu_autotask.Prelude.{List, [], ◌∷◌, map, String, true, false, none, some}
use mumu_autotask.Python.Value.{Text, Value, int, pos}
use mumu_autotask.Python.Text.{lit}
use mumu_autotask.Business.Wire.Lines.{render}
use mumu_autotask.Business.Intel.{IntelItem, IntelSnapshot}
use mumu_autotask.Business.Status.{IntelStatusSnapshot, ClaimReceipt}
use mumu_autotask.Business.March.{MarchPrepareReceipt, MarchCommitReceipt}

abbrev pub fields_of : List (List String) → List (List Text)
fields_of lines = map (map lit) lines

abbrev pub answer : String → List (List String) → Text
answer kind body = render (
    fields_of (
      ("MUMU_AUTOTASK" ∷ "1" ∷ kind ∷ [])
      ∷ ("ROLE" ∷ "616263" ∷ [])
      ∷ ("KINGDOM" ∷ "4549" ∷ [])
      ∷ body))

abbrev pub device_roles : List Text
device_roles = lit "abc" ∷ []

abbrev pub one_value : List Value
one_value = int (pos 7) ∷ []

abbrev pub item_line : List String
item_line =
    "ITEM" ∷ "7" ∷ "3" ∷ "1" ∷ "100" ∷ "200" ∷ "5000" ∷ "blue" ∷ "3" ∷ "9" ∷ "12" ∷ "25" ∷ "800"
    ∷ []

abbrev pub item : IntelItem
item = record {
  runtime_id = 7;
  quest_id = 3;
  status = 1;
  world_x = 100;
  world_y = 200;
  expires_at = 5000;
  quality = lit "blue";
  quality_id = 3;
  monster_id = 9;
  level = 12;
  stamina_cost = 25;
  recommended_power = 800;
}

abbrev pub snapshot : IntelSnapshot
snapshot = record { role = lit "abc"; kingdom = 4549; items = item ∷ []; current_stamina = some 90 }

abbrev pub intel_answer : Text
intel_answer = answer "INTEL" (("STAMINA" ∷ "90" ∷ []) ∷ item_line ∷ ("END" ∷ "1" ∷ []) ∷ [])

abbrev pub commit_answer : Text
commit_answer = answer "COMMIT" (
    ("TARGET" ∷ "7" ∷ [])
    ∷ ("AVERAGE" ∷ "1" ∷ [])
    ∷ ("STAMINA" ∷ "90" ∷ "25" ∷ "25" ∷ [])
    ∷ ("GO" ∷ "1" ∷ [])
    ∷ ("REASON" ∷ "NONE" ∷ [])
    ∷ ("END" ∷ "1" ∷ [])
    ∷ [])

abbrev pub committed : MarchCommitReceipt
committed = record {
  request_dispatched = true;
  current_stamina = 90;
  required_stamina = 25;
  base_stamina = 25;
  blocked_reason = none;
}

abbrev pub prepare_answer : Text
prepare_answer = answer "PREPARE" (
    ("TARGET" ∷ "7" ∷ [])
    ∷ ("AVERAGE" ∷ "1" ∷ [])
    ∷ ("STAMINA" ∷ "10" ∷ "25" ∷ "25" ∷ [])
    ∷ ("READY" ∷ "0" ∷ [])
    ∷ ("REASON" ∷ "INSUFFICIENT_STAMINA" ∷ [])
    ∷ ("END" ∷ "1" ∷ [])
    ∷ [])

abbrev pub prepared : MarchPrepareReceipt
prepared = record {
  ready_to_commit = false;
  current_stamina = 10;
  required_stamina = 25;
  base_stamina = 25;
  blocked_reason = some (lit "insufficient_stamina");
}

abbrev pub open_answer : Text
open_answer =
    answer "OPEN" (("TARGET" ∷ "7" ∷ []) ∷ ("OPENED" ∷ "1" ∷ []) ∷ ("END" ∷ "1" ∷ []) ∷ [])

abbrev pub ready_answer : Text
ready_answer =
    answer "READY" (("TARGET" ∷ "7" ∷ []) ∷ ("READY" ∷ "0" ∷ []) ∷ ("END" ∷ "1" ∷ []) ∷ [])

abbrev pub verify_answer : Text
verify_answer = answer "VERIFY" (
    ("TARGET" ∷ "7" ∷ [])
    ∷ ("ACCEPTED" ∷ "1" ∷ "STATUS" ∷ "2" ∷ [])
    ∷ ("MARCH" ∷ "1" ∷ "EVENT" ∷ "7" ∷ [])
    ∷ ("PROOF" ∷ "MARCH_EVENT" ∷ [])
    ∷ ("END" ∷ "1" ∷ [])
    ∷ [])

abbrev pub claim_answer : Text
claim_answer = answer "CLAIM_INTEL" (
    ("TARGETS" ∷ "1" ∷ "7" ∷ [])
    ∷ ("SENT" ∷ "1" ∷ [])
    ∷ ("IDEMPOTENT" ∷ "0" ∷ [])
    ∷ ("END" ∷ "1" ∷ [])
    ∷ [])

abbrev pub claim : ClaimReceipt
claim = record {
  role = lit "abc";
  kingdom = 4549;
  target_ids = 7 ∷ [];
  request_dispatched = true;
  idempotent = false;
}

abbrev pub status_answer : Text
status_answer =
    answer "INTEL_STATUS" (("TARGET" ∷ "7" ∷ "MISSING" ∷ "missing" ∷ []) ∷ ("END" ∷ "1" ∷ []) ∷ [])

abbrev pub tracked : IntelStatusSnapshot
tracked = record {
  role = lit "abc";
  kingdom = 4549;
  targets = record { runtime_id = 7; state = lit "MISSING"; quest_status = none } ∷ [];
}
