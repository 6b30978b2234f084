-- ===== src/Core/Enums.antt =====
-- review_agent/core/enums.py: the enumerations, and the text that stands for each member in the
-- database and in the files. `by_value members v` is the call `Enum(v)`, `none` its ValueError.
pub mod RoundTrip
use review_agent_v.Prelude.{Text, txt, text_eq, Bool, true, false, Option, List, [], ◌∷◌, find?}

pub data Pillar : Type 0 where
  background materials framework intent : Pillar

pub data Severity : Type 0 where
  blocker improvement nice_to_have : Severity

pub data FindingSource : Type 0 where
  four_pillar responder_sim manual : FindingSource

pub data FindingStatus : Type 0 where
  opened accepted rejected modified unresolvable : FindingStatus

pub data Stage : Type 0 where
  intake awaiting_material_confirm subject_confirmation scanning qa_active qa_active_reopened :
      Stage
  awaiting_close_confirmation awaiting_final_draft merging final_gating closing closed : Stage
  ingest_failed cancelled failed : Stage

pub data SessionStatus : Type 0 where
  active closed failed cancelled : SessionStatus

pub data Verdict : Type 0 where
  ready ready_with_open_items forced_partial fail : Verdict

pub data Role : Type 0 where
  admin responder requester : Role

pub data Intent : Type 0 where
  accept reject modify pass more done custom question force_close pick_a pick_b pick_c : Intent

unfoldable pub pillar_value : Pillar → Text
pillar_value Pillar.background = txt "Background"
pillar_value Pillar.materials = txt "Materials"
pillar_value Pillar.framework = txt "Framework"
pillar_value Pillar.intent = txt "Intent"

unfoldable pub severity_value : Severity → Text
severity_value Severity.blocker = txt "BLOCKER"
severity_value Severity.improvement = txt "IMPROVEMENT"
severity_value Severity.nice_to_have = txt "NICE-TO-HAVE"

unfoldable pub source_value : FindingSource → Text
source_value FindingSource.four_pillar = txt "four_pillar_scan"
source_value FindingSource.responder_sim = txt "responder_simulation"
source_value FindingSource.manual = txt "manual"

unfoldable pub status_value : FindingStatus → Text
status_value FindingStatus.opened = txt "open"
status_value FindingStatus.accepted = txt "accepted"
status_value FindingStatus.rejected = txt "rejected"
status_value FindingStatus.modified = txt "modified"
status_value FindingStatus.unresolvable = txt "unresolvable"

unfoldable pub stage_value : Stage → Text
stage_value Stage.intake = txt "intake"
stage_value Stage.awaiting_material_confirm = txt "awaiting_material_confirm"
stage_value Stage.subject_confirmation = txt "subject_confirmation"
stage_value Stage.scanning = txt "scanning"
stage_value Stage.qa_active = txt "qa_active"
stage_value Stage.qa_active_reopened = txt "qa_active_reopened"
stage_value Stage.awaiting_close_confirmation = txt "awaiting_close_confirmation"
stage_value Stage.awaiting_final_draft = txt "awaiting_final_draft"
stage_value Stage.merging = txt "merging"
stage_value Stage.final_gating = txt "final_gating"
stage_value Stage.closing = txt "closing"
stage_value Stage.closed = txt "closed"
stage_value Stage.ingest_failed = txt "ingest_failed"
stage_value Stage.cancelled = txt "cancelled"
stage_value Stage.failed = txt "failed"

unfoldable pub session_status_value : SessionStatus → Text
session_status_value SessionStatus.active = txt "active"
session_status_value SessionStatus.closed = txt "closed"
session_status_value SessionStatus.failed = txt "failed"
session_status_value SessionStatus.cancelled = txt "cancelled"

unfoldable pub verdict_value : Verdict → Text
verdict_value Verdict.ready = txt "READY"
verdict_value Verdict.ready_with_open_items = txt "READY_WITH_OPEN_ITEMS"
verdict_value Verdict.forced_partial = txt "FORCED_PARTIAL"
verdict_value Verdict.fail = txt "FAIL"

unfoldable pub role_value : Role → Text
role_value Role.admin = txt "Admin"
role_value Role.responder = txt "Responder"
role_value Role.requester = txt "Requester"

unfoldable pub intent_value : Intent → Text
intent_value Intent.accept = txt "accept"
intent_value Intent.reject = txt "reject"
intent_value Intent.modify = txt "modify"
intent_value Intent.pass = txt "pass"
intent_value Intent.more = txt "more"
intent_value Intent.done = txt "done"
intent_value Intent.custom = txt "custom"
intent_value Intent.question = txt "question"
intent_value Intent.force_close = txt "force_close"
intent_value Intent.pick_a = txt "pick_a"
intent_value Intent.pick_b = txt "pick_b"
intent_value Intent.pick_c = txt "pick_c"

abbrev pub pillars : List Pillar
pillars = Pillar.background ∷ Pillar.materials ∷ Pillar.framework ∷ Pillar.intent ∷ []

abbrev pub severities : List Severity
severities = Severity.blocker ∷ Severity.improvement ∷ Severity.nice_to_have ∷ []

abbrev pub stages : List Stage
stages =
    Stage.intake ∷ Stage.awaiting_material_confirm ∷ Stage.subject_confirmation ∷ Stage.scanning
    ∷ Stage.qa_active ∷ Stage.qa_active_reopened ∷ Stage.awaiting_close_confirmation
    ∷ Stage.awaiting_final_draft ∷ Stage.merging ∷ Stage.final_gating ∷ Stage.closing ∷ Stage.closed
    ∷ Stage.ingest_failed ∷ Stage.cancelled ∷ Stage.failed ∷ []

abbrev pub session_statuses : List SessionStatus
session_statuses =
    SessionStatus.active ∷ SessionStatus.closed ∷ SessionStatus.failed ∷ SessionStatus.cancelled
    ∷ []

abbrev pub verdicts : List Verdict
verdicts =
    Verdict.ready ∷ Verdict.ready_with_open_items ∷ Verdict.forced_partial ∷ Verdict.fail ∷ []

abbrev pub roles : List Role
roles = Role.admin ∷ Role.responder ∷ Role.requester ∷ []

-- Enum(v)
abbrev pub by_value : {E : Type 0} → (E → Text) → List E → Text → Option E
by_value value members v = find? (λ m. text_eq (value m) v) members

unfoldable pub role_eq : Role → Role → Bool
role_eq Role.admin Role.admin = true
role_eq Role.responder Role.responder = true
role_eq Role.requester Role.requester = true
role_eq _ _ = false
