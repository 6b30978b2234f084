-- ===== src/Checks/Samples.antt =====
-- Small concrete values of the data model.
use review_agent_v.Prelude.{
  Text, txt, ℕ, none, some, [], ◌∷◌, map, leb, ◌&&◌, ◌+◌, ◌-◌, if◌then◌else◌, false,
}
use review_agent_v.Prelude.Json.{str, null, Fields, end, field}
use review_agent_v.Core.Enums.{
  Stage, SessionStatus, Role, Pillar, Severity, FindingSource, FindingStatus,
}
use review_agent_v.Core.Models.{User, Session, Finding}
use review_agent_v.Core.Cursor.{Cursor}
use review_agent_v.Core.Cursor.Dict.{to_dict}
use review_agent_v.Core.Storage.Tables.{Storage, Dir, Task, TaskStatus, Event}

abbrev pub ann : User
ann = record {
  open_id = txt "ou_ann";
  display_name = txt "Ann";
  roles = Role.requester ∷ [];
  pairing_responder_oid = some (txt "ou_bob");
  created_at = [];
  updated_at = [];
}

abbrev pub session : Session
session = record {
  id = txt "s1";
  requester_oid = txt "ou_ann";
  responder_oid = txt "ou_bob";
  started_at = txt "t0";
  stage = Stage.qa_active;
  status = SessionStatus.active;
  round_no = 1;
  subject = none;
  closed_at = none;
  verdict = none;
  trigger_source = txt "lark";
  failed_stage = none;
  last_error = none;
  fail_count = 0;
  meta = end;
  admin_style = [];
  review_rules = [];
  responder_profile = [];
}

abbrev pub finding : Text → Severity → Finding
finding fid severity = record {
  id = fid;
  round = 1;
  created_at = txt "t0";
  source = FindingSource.four_pillar;
  pillar = Pillar.intent;
  severity = severity;
  issue = str (txt "why");
  suggest = str (txt "say why");
  anchor = record {
    source = txt "normalized.md";
    section = null;
    line_range = none;
    text_hash = none;
    snippet = str [];
  };
  status = FindingStatus.opened;
  simulated_question = null;
  priority = none;
  reply = none;
  replied_at = none;
  unresolvable_reason = none;
  extra = end;
  escalated_to_open_items = false;
}

abbrev pub row : Text → Fields
row fid =
    field "id" (str fid)
      (field "severity" (str (txt "BLOCKER")) (field "status" (str (txt "open")) end))

abbrev pub asking : Cursor
asking = record {
  current_id = some (txt "p1");
  pending = txt "p2" ∷ [];
  deferred = txt "p3" ∷ [];
  done = [];
  regression_rescan = false;
}

abbrev pub files : Dir
files = record {
  admin_style = none;
  review_rules = none;
  profile = none;
  annotations = some (row (txt "p1") ∷ row (txt "p2") ∷ []);
  conversation = [];
  dissent = [];
  cursor = some (to_dict asking);
  normalized = some (txt "plan");
  revised = none;
  verdict = none;
  summary = some (txt "brief");
}

abbrev pub task : ℕ → Text → TaskStatus → Task
task tid oid status = record {
  id = tid;
  kind = txt "message";
  payload = end;
  requester_oid = some oid;
  status = status;
  attempts = 0;
  last_error = none;
  scheduled_at = txt "t0";
  picked_at = none;
  finished_at = none;
}

abbrev pub event : Event
event = record {
  event_id = txt "e1";
  sender_oid = txt "ou_ann";
  event_type = txt "im";
  msg_type = txt "text";
  size_bytes = 4;
  content_hash = [];
  summary = [];
  handled = false;
  created_at = txt "t0";
}

abbrev pub store : Storage
store = record {
  users = ann ∷ [];
  sessions = session ∷ [];
  llm_calls = [];
  events = [];
  outbound = [];
  tasks = task 1 (txt "ou_ann") TaskStatus.pending ∷ task 2 (txt "ou_cat") TaskStatus.running ∷ [];
  next_task_id = 3;
  dirs = (txt "s1", files) ∷ [];
}

-- `str.lower` and `str.upper` of ASCII texts.
abbrev pub lower : Text → Text
lower s = map (λ c. if leb 65 c && leb c 90 then c + 32 else c) s

abbrev pub upper : Text → Text
upper s = map (λ c. if leb 97 c && leb c 122 then c - 32 else c) s
