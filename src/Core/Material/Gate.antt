-- ===== src/Core/Material/Gate.antt =====
-- review_agent/core/dispatcher.py: a requester without a session, and the stage
-- AWAITING_MATERIAL_CONFIRM.
pub mod Settles
use review_agent_v.Prelude.{
  Text, txt, text_eq, text_eq_iff, text_ne, String, ℕ, zero, suc, ◌+◌, ◌-◌, ◌*◌, ◌/◌, ◌%◌, ◌^◌, ◌≤◌,
  ◌<◌, min, ltb, leb, eqb, Bool, true, false, not, ◌&&◌, ◌||◌, Option, none, some, is_none, List,
  [], ◌∷◌, ◌++◌, length, take, drop, get_elem?, map, filter, any, all, find?, count, All,
  All-append, any-append, length-append, length-take, length-map, take-append-drop, take_all,
  drop_all, length-drop, if◌then◌else◌, is_space, starts_with, ends_with, contains, find_from,
  one_of, strip, lstrip, rstrip, rstrip_if, lstrip_if, ◌≡◌, ◌≢◌, refl, sym, ap, ◌∙◌, ◌⊎◌, ◌↔◌, inl,
  inr, arith, Bool-cases, Option-cases, ltb→lt, lt→ltb, leb→le, eqb_iff,
}
use review_agent_v.Core.Enums.{Stage, SessionStatus}
use review_agent_v.Core.Models.{Session, User}
use review_agent_v.Core.Storage.Sessions.{create_session}
use review_agent_v.Core.Storage.Users.{get_user}
use review_agent_v.Core.Dispatcher.World
use review_agent_v.Core.Dispatcher.World.{
  Act, Outcome, ok, exception, World, Notice, ◌>>=◌, ◌>>◌, pure, gets, files_of, update, safe_dm,
  now,
}
use review_agent_v.Core.Dispatcher.Scanning.{do_confirm_topic}
use review_agent_v.Core.Material.Reading.{Desk, try_read}
use review_agent_v.Core.Material.Supplement.{append_supplementary}
use review_agent_v.Core.Material.Intake.{save_and_ingest}
use review_agent_v.Lark.Message.{IncomingMessage}
use review_agent_v.Pipeline.Ingest.Result.{Ingest, accepted, rejected, raised}

-- The first 240 characters.
abbrev preview : Text → Text
preview body = take 240 body ++ (if ltb 240 (length body) then txt "…" else [])

abbrev pub read_notice : Option Text → Notice
read_notice none = World.material_read 0 (txt "(空)")
read_notice (some t) = World.material_read (length (strip t)) (preview (strip t))

-- _send_material_confirm_dm
unfoldable pub send_material_confirm : Session → Act (Unit {0})
unfolding strip
send_material_confirm s = do
  files ← files_of s.id
  safe_dm s.requester_oid (read_notice files.normalized)

-- `_fail_session` with another exception
unfoldable pub fail_session_error : Session → Stage → Act (Unit {0})
fail_session_error s stage = do
  update s.id (λ r. record r { stage = stage; status = SessionStatus.failed })
  safe_dm s.requester_oid World.system_error

abbrev cancel_words : List Text
cancel_words = txt "cancel" ∷ txt "取消" ∷ txt "算了" ∷ txt "stop" ∷ []

-- START_TOKENS
abbrev start_tokens : List Text
start_tokens =
    txt "ok"
    ∷ txt "开始"
    ∷ txt "好"
    ∷ txt "go"
    ∷ txt "start"
    ∷ txt "done"
    ∷ txt "yes"
    ∷ txt "y"
    ∷ txt "👍"
    ∷ txt "ready"
    ∷ []

-- What the text at the gate asks for.
pub data GateIntent : Type 0 where
  cancels starts adds : GateIntent

unfoldable pub gate_intent : (low : Text) → GateIntent
unfolding one_of starts_with
gate_intent low =
    if one_of low cancel_words
    then cancels
    else if one_of low start_tokens
        || any (starts_with low) (txt "ok " ∷ txt "好 " ∷ txt "start " ∷ [])
    then starts
    else adds

-- user.pairing_responder_oid, where it is not empty
abbrev pub chosen_responder : Option Text → Option Text
chosen_responder (some (c ∷ oid)) = some (c ∷ oid)
chosen_responder _ = none

abbrev pub look_up : Option Text → Act (Option User)
look_up none = pure none
look_up (some oid) = gets (λ w. get_user oid w.storage)

module _ (desk : Desk) where
  -- The update of a session that ends before its review.
  abbrev pub cancel_at : (sid : Text) → Stage → Act (Unit {0})
  cancel_at sid stage = do
    ts ← now desk.env
    update sid
        (λ r. record r { status = SessionStatus.cancelled; stage = stage; closed_at = some ts })

  abbrev pub after_intake : Session → Bool → Act (Unit {0})
  after_intake s false = cancel_at s.id Stage.ingest_failed
  after_intake s true = do
    update s.id (λ r. record r { stage = Stage.awaiting_material_confirm })
    send_material_confirm s

  -- What follows from the end of the intake.
  abbrev pub settle_intake :
      (oid : Text) → Session → Ingest Bool × World → Outcome (Unit {0}) × World
  settle_intake oid s (accepted ingested, w) = after_intake s ingested w
  settle_intake oid s (rejected m, w) =
      (do safe_dm oid (World.rejection m); cancel_at s.id Stage.ingest_failed) w
  settle_intake oid s (raised m, w) = fail_session_error s Stage.ingest_failed w

  abbrev pub begin : (oid : Text) → IncomingMessage → Option Session → Act (Unit {0})
  begin oid msg none w = (exception, w)
  begin oid msg (some s) w = settle_intake oid s (save_and_ingest desk oid s msg w)

  -- storage.create_session(…); its identifier and time are those of the next tick.
  unfoldable pub open_session : (oid responder_oid : Text) → World → World × Option Session
  unfolding create_session
  open_session oid responder_oid w =
      let (storage, s) =
        create_session (desk.session_id w.ticks) (desk.env.clock w.ticks) oid responder_oid
          desk.admin_style desk.review_rules (desk.profile_for responder_oid) w.storage in
      (record w { storage = storage; ticks = suc w.ticks }, s)

  abbrev pub start_with : (oid : Text) → IncomingMessage → Option User → Act (Unit {0})
  start_with oid msg none w = safe_dm oid World.no_responder w
  start_with oid msg (some responder) w =
      let (w', s) = open_session oid responder.open_id w in begin oid msg s w'

  -- _handle_requester_no_session
  unfoldable pub handle_no_session : User → IncomingMessage → Act (Unit {0})
  unfolding open_session save_and_ingest send_material_confirm fail_session_error get_user
  handle_no_session user msg = do
    responder ← look_up (chosen_responder user.pairing_responder_oid)
    start_with user.open_id msg responder

  -- The last part of the gate.
  unfoldable pub gate_supplement : (oid : Text) → Session → IncomingMessage → Act (Unit {0})
  unfolding append_supplementary send_material_confirm
  gate_supplement oid s msg =
      try_read (append_supplementary desk s msg) (λ m. safe_dm oid (World.rejection m))
        λ added. if added then send_material_confirm s else safe_dm oid World.not_material

  abbrev pub gate_turn : (oid : Text) → Session → IncomingMessage → GateIntent → Act (Unit {0})
  gate_turn oid s msg cancels = do
    cancel_at s.id Stage.cancelled
    safe_dm oid World.review_cancelled
  gate_turn oid s msg starts = do
    safe_dm oid World.review_starts
    update s.id (λ r. record r { stage = Stage.subject_confirmation })
    do_confirm_topic desk.env s.id
  gate_turn oid s msg adds = gate_supplement oid s msg

  -- _handle_awaiting_material_confirm
  unfoldable pub handle_material_confirm : (oid : Text) → Session → IncomingMessage → Act (Unit {0})
  unfolding gate_intent gate_supplement strip
  handle_material_confirm oid s msg =
      gate_turn oid s msg (gate_intent (desk.env.lower (strip msg.content_text)))
