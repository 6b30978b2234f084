-- ===== src/Core/Storage/Tables.antt =====
-- The rows of the tables of schema.sql, and the files of a session's directory.
use review_agent_v.Prelude.{Text, ℕ, Bool, Option, List}
use review_agent_v.Prelude.Json.{Fields}
use review_agent_v.Core.Models.{User, Session, GateOutcome}

pub record Event : Type 0 where
  pub event_id : Text
  pub sender_oid : Text
  pub event_type : Text
  pub msg_type : Text
  pub size_bytes : ℕ
  pub content_hash : Text
  pub summary : Text
  pub handled : Bool
  pub created_at : Text

pub record Outbound : Type 0 where
  pub session_id : Text
  pub to_open_id : Text
  pub msg_type : Text
  pub content_hash : Text
  pub lark_msg_id : Option Text
  pub ok : Bool
  pub error : Option Text
  pub created_at : Text

pub data TaskStatus : Type 0 where
  pending running done failed : TaskStatus

pub record Task : Type 0 where
  pub id : ℕ
  pub kind : Text
  pub payload : Fields
  pub requester_oid : Option Text
  pub status : TaskStatus
  pub attempts : ℕ
  pub last_error : Option Text
  pub scheduled_at : Text
  pub picked_at : Option Text
  pub finished_at : Option Text

pub record LlmCall : Type 0 where
  pub session_id : Text
  pub stage : Text
  pub ok : Bool

pub record Dissent : Type 0 where
  pub finding : Fields
  pub reply : Text

-- The directory of a session. `none` is a file that does not exist.
pub record Dir : Type 0 where
  pub admin_style : Option Text
  pub review_rules : Option Text
  pub profile : Option Text
  pub annotations : Option (List Fields)
  pub conversation : List Fields
  pub dissent : List Dissent
  pub cursor : Option Fields
  pub normalized : Option Text
  pub revised : Option Text
  pub verdict : Option GateOutcome
  pub summary : Option Text

pub record Storage : Type 0 where
  pub users : List User
  pub sessions : List Session
  pub llm_calls : List LlmCall
  pub events : List Event
  pub outbound : List Outbound
  pub tasks : List Task
  pub next_task_id : ℕ
  pub dirs : List (Text × Dir)
