-- ===== src/Pipeline/QaLoop.antt =====
-- review_agent/pipeline/qa_loop.py: one reply in the loop of questions and answers, the finding to
-- ask next, and the return to the loop after a failed final gate.
pub mod Reply
pub mod Emit
pub mod Stale
pub mod Reopen
use review_agent_v.Prelude.{
  Text, txt, text_eq, ℕ, ◌+◌, suc, Bool, true, false, not, ◌&&◌, Option, none, some, List, [], ◌∷◌,
  ◌++◌, map, length, is_none, if◌then◌else◌, ltb, eqb,
}
use review_agent_v.Prelude.Json.{Json, str, Fields, end, field, get, is_text}
use review_agent_v.Core.Enums.{Intent, FindingStatus, Stage, intent_value, status_value}
use review_agent_v.Core.Models.{Session}
use review_agent_v.Core.Cursor.{Cursor, advance, pull_deferred, is_nil}
use review_agent_v.Core.Storage.Tables.{Dir}
use review_agent_v.Core.Storage.Findings.{
  load_findings, update_finding_status, load_cursor, save_cursor, log_conversation, append_dissent,
}
use review_agent_v.Pipeline.Intents.{parse_reply_intent}

-- `next((f for f in findings if f["id"] == fid), None)`. `key_error` is an exception: a row without "id" is met
-- before, or the rows cannot be read.
pub data Search : Type 0 where
  key_error nothing : Search
  found : Fields → Search

abbrev look_at : Text → Fields → Option Json → Search → Search
look_at fid row none rest = key_error
look_at fid row (some v) rest = if is_text fid (some v) then found row else rest

unfoldable pub find_row : Text → List Fields → Search
find_row fid [] = nothing
find_row fid (row ∷ rows) = look_at fid row (get "id" row) (find_row fid rows)

pub data Action : Type 0 where
  emit_next propose_close force_close no_op : Action

-- The text that goes with an outcome, with the number it quotes.
pub data DmText : Type 0 where
  no_text no_deferred_left confirm_close blockers_closed : DmText
  blockers_closed_deferred last_answered : ℕ → DmText

pub record TurnOutcome : Type 0 where
  pub action : Action
  pub dm_text : DmText
  pub advanced : Bool

abbrev pub outcome : Action → DmText → Bool → TurnOutcome
outcome a dm advanced = record { action = a; dm_text = dm; advanced = advanced }

-- The branch of MORE.
unfoldable pub reply_more : ℕ → Dir → TurnOutcome × Dir
reply_more top_n d =
    let pulled = (pull_deferred top_n (load_cursor d)).0 in
    let moved = (pull_deferred top_n (load_cursor d)).1 in
    let d' = save_cursor pulled d in
    if eqb moved 0
    then (outcome propose_close no_deferred_left false, d')
    else if is_none pulled.current_id
    then (outcome emit_next no_text true, save_cursor (advance pulled) d')
    else (outcome emit_next no_text true, d')

-- The branch where no finding is being asked.
unfoldable pub reply_exhausted : Cursor → TurnOutcome
reply_exhausted c =
    if ltb 0 (length c.deferred)
    then outcome propose_close (blockers_closed_deferred (length c.deferred)) false
    else outcome propose_close blockers_closed false

abbrev answer : FindingStatus → Text → Text → Fields
answer status remainder now =
    field "status" (str (status_value status))
      (field "reply" (str remainder) (field "replied_at" (str now) end))

abbrev pub find_in : (fid : Text) → Option (List Fields) → Search
find_in fid none = key_error
find_in fid (some rows) = find_row fid rows

abbrev dissented : (row : Fields) → (remainder : Text) → Option Dir → Option Dir
dissented row remainder none = none
dissented row remainder (some d) = some (append_dissent row remainder d)

-- What the answer does to the files of the session, before the cursor moves; `none` where it raises.
unfoldable pub record_answer : Intent → (remainder now fid : Text) → Search → Dir → Option Dir
unfolding update_finding_status append_dissent
record_answer Intent.accept remainder now fid row d =
    update_finding_status fid (answer FindingStatus.accepted remainder now) d
record_answer Intent.reject remainder now fid (found row) d =
    dissented row remainder
      (update_finding_status fid (answer FindingStatus.rejected remainder now) d)
record_answer Intent.reject remainder now fid _ d =
    update_finding_status fid (answer FindingStatus.rejected remainder now) d
record_answer Intent.modify remainder now fid row d =
    update_finding_status fid (answer FindingStatus.modified remainder now) d
record_answer _ remainder now fid row d = some d

-- `cursor.advance()`, saved, and what to say; `c` is the cursor as it was loaded.
unfoldable pub move_on : Cursor → Dir → TurnOutcome × Dir
move_on c d =
    let next = advance c in
    let d' = save_cursor next d in
    if is_none next.current_id && is_nil next.pending
    then (outcome propose_close (last_answered (length next.deferred)) false, d')
    else (outcome emit_next no_text true, d')

abbrev some_outcome : TurnOutcome × Dir → Option TurnOutcome × Dir
some_outcome (o, d) = (some o, d)

abbrev pub moved_on : Cursor → Option Dir → Dir → Option TurnOutcome × Dir
moved_on c none d = (none, d)
moved_on c (some d') d = some_outcome (move_on c d')

-- The part after the branches that need no current finding. `none` is an exception.
unfoldable pub reply_to :
    Intent → (remainder now fid : Text) → Cursor → Search → Dir → Option TurnOutcome × Dir
reply_to intent remainder now fid c key_error d = (none, d)
reply_to Intent.question remainder now fid c row d = (some (outcome no_op no_text false), d)
reply_to intent remainder now fid c row d =
    moved_on c (record_answer intent remainder now fid row d) d

unfoldable pub reply_current :
    Intent → (remainder now : Text) → Cursor → Option Text → Dir → Option TurnOutcome × Dir
reply_current intent remainder now c none d = (some (reply_exhausted c), d)
reply_current intent remainder now c (some fid) d =
    reply_to intent remainder now fid c (find_in fid (load_findings d)) d

-- The branches of `handle_reply`, on the intent.
unfoldable pub reply_by : Intent → (remainder now : Text) → ℕ → Dir → Option TurnOutcome × Dir
reply_by Intent.more remainder now top_n d = some_outcome (reply_more top_n d)
reply_by Intent.done remainder now top_n d = (some (outcome propose_close confirm_close false), d)
reply_by Intent.force_close remainder now top_n d = (some (outcome force_close no_text false), d)
reply_by intent remainder now top_n d =
    reply_current intent remainder now (load_cursor d) (load_cursor d).current_id d

-- `logged` and `now` are the two times that are read.
unfoldable pub handle_reply :
    (Text → Text) → (reply logged now : Text) → ℕ → Dir → Option TurnOutcome × Dir
handle_reply lower reply logged now top_n d =
    let (intent, remainder) = parse_reply_intent lower reply (txt "qa_loop") in
    reply_by intent remainder now top_n
      (log_conversation logged (txt "requester") reply (some (intent_value intent)) d)

-- What `emit_current` sends to the model: nothing (the empty text), the row found, or a KeyError.
unfoldable pub emit_row : Dir → Search
emit_row d = elim (load_cursor d).current_id [
  | none ↦ nothing
  | some fid ↦ find_in fid (load_findings d)
]

-- The cursor of `transition_after_final_gate_fail`.
unfoldable pub reopen_cursor : List Text → Cursor → Cursor
reopen_cursor regressions c =
    let c' = record c { regression_rescan = true; pending = regressions ++ c.pending } in
    if is_none c.current_id then advance c' else c'

unfoldable pub reopen_dir : List Text → Dir → Dir
reopen_dir regressions d = save_cursor (reopen_cursor regressions (load_cursor d)) d

-- The columns that `transition_after_final_gate_fail` sets; `s` is the session that it was given.
unfoldable pub reopen_session : Session → Session → Session
reopen_session s row = record row { stage = Stage.qa_active_reopened; round_no = s.round_no + 1 }
