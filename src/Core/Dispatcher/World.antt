-- ===== src/Core/Dispatcher/World.antt =====
-- What the dispatcher reads and changes. Its methods are actions: they change the world and return, or
-- raise. The answers of the model, of the clock and of the network are parameters, by the number of
-- the call; prompts are left out, since any answer may come.
use review_agent_v.Prelude.{Text, ℕ, suc, Bool, true, Option, none, some, List, [], ◌∷◌, ◌++◌}
use review_agent_v.Prelude.Json.{Json, Fields}
use review_agent_v.Core.Enums.{Stage, SessionStatus}
use review_agent_v.Core.Models.{Session, User}
use review_agent_v.Core.Storage.Tables.{Storage, Dir}
use review_agent_v.Core.Storage.Sessions.{dir, on_dir, get_session, update_session}
use review_agent_v.Core.Storage.Users.{get_user}
use review_agent_v.Core.Storage.Audit.{log_llm_call}
use review_agent_v.Pipeline.QaLoop.{DmText}
use review_agent_v.Pipeline.Deliver.Backends.{Backend}

-- How a call of `llm.chat` ends: with content, with LLMTerminalFailure, with another exception.
pub data Reply : Type 0 where
  content : Text → Reply
  terminal_failure other_failure : Reply

pub record Env : Type 0 where
  pub lower : Text → Text
  pub upper : Text → Text
  pub sha256 : Text → Text
  pub loads : Text → Option Json
  pub clock : ℕ → Text
  pub chat : ℕ → Reply
  pub post_ok : ℕ → Bool
  pub send : ℕ → Option Text
  pub backends : Text → Option Backend
  pub targets_config : Option Json
  pub fs_root : Text
  pub top_n : ℕ
  pub max_fail_count : ℕ

-- The messages to users, with what they quote.
pub data Notice : Type 0 where
  llm_failed : (label : Text) → Notice
  gate_without_blockers : Notice
  gate_reopens : (regressions : ℕ) → Notice
  finding_post finding_text : (finding : Fields) → (body : Text) → Notice
  topic_proposal : Json → Notice
  summary_soon forced_close deferred_empty close_hint subject_unclear : Notice
  pulled : (moved : ℕ) → Notice
  registration_off setup_unfinished : Notice
  welcome admin_notice : (name : Text) → Notice
  qa_text : DmText → Notice
  interrupted busy waiting : Stage → Notice
  -- `user_message` of an IngestRejected
  rejection : Text → Notice
  -- How many characters were read, and the first of them.
  material_read : (count : ℕ) → (preview : Text) → Notice
  review_cancelled review_starts not_material no_responder system_error : Notice
  docs_reread pages_reread : (links : ℕ) → Notice
  text_reread supplement_merged : Notice
  file_refused : (ext : Text) → Notice
  type_refused : (msg_type : Text) → Notice
  controls_elsewhere : (name : Text) → Notice

pub record Sent : Type 0 where
  pub to : Text
  pub notice : Notice

pub record World : Type 0 where
  pub storage : Storage
  pub sent : List Sent
  pub chats : ℕ
  pub ticks : ℕ
  pub posts : ℕ
  pub sends : ℕ

-- LLMTerminalFailure is told apart, since the dispatcher catches it.
pub data Outcome {ℓ} (A : Type ℓ) : Type ℓ where
  ok : A → Outcome A
  llm_failure exception : Outcome A

abbrev pub Act : Type 0 → Type 0
Act A = World → Outcome A × World

module _ {A B : Type 0} where
  abbrev pub continue : Outcome A → (A → Act B) → Act B
  continue (ok a) f w = f a w
  continue llm_failure f w = (llm_failure, w)
  continue exception f w = (exception, w)

  infixl 5 ◌>>=◌ ◌>>◌
  abbrev pub ◌>>=◌ : Act A → (A → Act B) → Act B
  ◌>>=◌ m f w = let (r, w') = m w in continue r f w'

  abbrev pub ◌>>◌ : Act A → Act B → Act B
  m >> n = m >>= λ _. n

module _ {A : Type 0} where
  abbrev pub pure : A → Act A
  pure a w = (ok a, w)

  abbrev pub raise : Act A
  raise w = (exception, w)

  -- A value that must be there: attributes of None, a missing file.
  abbrev pub need : Option A → Act A
  need none w = (exception, w)
  need (some a) w = (ok a, w)

  abbrev pub handled : (Outcome A × World) → Act A → Outcome A × World
  handled (ok a, w) handler = (ok a, w)
  handled (llm_failure, w) handler = handler w
  handled (exception, w) handler = (exception, w)

  -- `try: body` / `except LLMTerminalFailure: handler`
  abbrev pub try_llm : Act A → Act A → Act A
  try_llm body handler w = handled (body w) handler

abbrev pub gets : {A : Type 0} → (World → A) → Act A
gets f w = (ok (f w), w)

-- A statement that changes the storage.
abbrev pub store : (Storage → Storage) → Act (Unit {0})
store f w = (ok tt, record w { storage = f w.storage })

-- `_safe_dm`: an error of the network is logged and dropped.
abbrev pub safe_dm : Text → Notice → Act (Unit {0})
safe_dm to notice w =
    (ok tt, record w { sent = w.sent ++ record { to = to; notice = notice } ∷ [] })

abbrev pub answered : Reply → World → Outcome Text × World
answered (content t) w = (ok t, w)
answered terminal_failure w = (llm_failure, w)
answered other_failure w = (exception, w)

module _ (e : Env) where
  -- llm.chat(…).content
  abbrev pub chat : Act Text
  chat w = answered (e.chat w.chats) (record w { chats = suc w.chats })

  -- now_iso()
  abbrev pub now : Act Text
  now w = (ok (e.clock w.ticks), record w { ticks = suc w.ticks })

-- storage.get_session(sid), where the caller needs it to be there
abbrev pub session_of : Text → Act Session
session_of sid w = need (get_session sid w.storage) w

-- The user whose name goes into the prompt.
abbrev pub user_of : Text → Act User
user_of oid w = need (get_user oid w.storage) w

abbrev pub files_of : Text → Act Dir
files_of sid w = (ok (dir sid w.storage), w)

abbrev pub on_files : Text → (Dir → Dir) → Act (Unit {0})
on_files sid f = store (on_dir sid f)

abbrev pub update : Text → (Session → Session) → Act (Unit {0})
update sid f = store (update_session sid f)

-- `storage.log_llm_call(…, ok=True, error=None)`
abbrev pub log_call : (sid stage : Text) → Act (Unit {0})
log_call sid stage = store (log_llm_call sid stage true)

-- `_fail_session` with an LLMTerminalFailure
unfoldable pub fail_session : Session → Stage → Text → Act (Unit {0})
fail_session s stage label = do
  update s.id (λ r. record r { stage = stage; status = SessionStatus.failed })
  safe_dm s.requester_oid (llm_failed label)
