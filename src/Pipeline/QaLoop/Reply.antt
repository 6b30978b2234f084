-- ===== src/Pipeline/QaLoop/Reply.antt =====
-- What a reply does to the findings and to the cursor.
use review_agent_v.Prelude.{Text, txt, Bool, true, false, Option, none, some, List, map, ◌≡◌}
use review_agent_v.Prelude.Json.{str, Fields, end, field}
use review_agent_v.Core.Enums.{Intent, FindingStatus, status_value, intent_value}
use review_agent_v.Core.Cursor.{Cursor, advance}
use review_agent_v.Core.Storage.Tables.{Dir}
use review_agent_v.Core.Storage.Findings.{rows_of, load_cursor, patch_row, log_conversation}

-- The status that an intent gives to the finding being asked, if it gives one.
abbrev pub new_status : Intent → Option FindingStatus
new_status Intent.accept = some FindingStatus.accepted
new_status Intent.reject = some FindingStatus.rejected
new_status Intent.modify = some FindingStatus.modified
new_status _ = none

-- The patch that the answer writes.
abbrev pub answer_patch : FindingStatus → (remainder now : Text) → Fields
answer_patch status remainder now =
    field "status" (str (status_value status))
      (field "reply" (str remainder) (field "replied_at" (str now) end))

abbrev pub answered_rows :
    Option FindingStatus → (remainder now fid : Text) → List Fields → List Fields
answered_rows none remainder now fid rows = rows
answered_rows (some status) remainder now fid rows =
    map (patch_row fid (answer_patch status remainder now)) rows

-- The rows that the file of findings holds.
abbrev pub rows : Dir → List Fields
rows d = rows_of d.annotations

-- The answer is written, the cursor is kept.
abbrev IsAnswered : Intent → (remainder now fid : Text) → Dir → Option Dir → Type 0
IsAnswered intent remainder now fid d none = ⊥
IsAnswered intent remainder now fid d (some d') =
    rows d' ≡ answered_rows (new_status intent) remainder now fid (rows d)

-- The intents that answer the finding being asked and move the cursor.
abbrev pub is_step : Intent → Bool
is_step Intent.accept = true
is_step Intent.reject = true
is_step Intent.modify = true
is_step Intent.pass = true
is_step Intent.custom = true
is_step _ = false

-- The cursor has moved by one advance, and the answer is written.
abbrev pub IsStepped : Intent → (remainder now fid : Text) → Cursor → Dir → Dir → Type 0
IsStepped intent remainder now fid c d d' =
    (load_cursor d' ≡ advance c)
    × (rows d' ≡ answered_rows (new_status intent) remainder now fid (rows d))

-- The files after the reply is logged: the conversation grows, the rest stays.
abbrev logged_dir : Text → Text → Intent → Dir → Dir
logged_dir logged reply intent d =
    log_conversation logged (txt "requester") reply (some (intent_value intent)) d
