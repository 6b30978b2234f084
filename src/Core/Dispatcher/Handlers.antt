-- ===== src/Core/Dispatcher/Handlers.antt =====
-- review_agent/core/dispatcher.py: what a message does to a session at its stage, once it is known that it
-- brings no new material.
pub mod More
pub mod Caught
use review_agent_v.Prelude.{
  Text, txt, text_eq, text_eq_iff, text_ne, String, ℕ, zero, suc, ◌+◌, ◌-◌, ◌*◌, ◌/◌, ◌%◌, ◌^◌, ◌≤◌,
  ◌<◌, min, ltb, leb, eqb, Bool, true, false, not, ◌&&◌, ◌||◌, Option, none, some, is_none, List,
  [], ◌∷◌, ◌++◌, length, take, drop, get_elem?, map, filter, any, all, find?, count, All,
  All-append, any-append, length-append, length-take, length-map, take-append-drop, take_all,
  drop_all, length-drop, if◌then◌else◌, is_space, starts_with, ends_with, contains, find_from,
  one_of, strip, lstrip, rstrip, rstrip_if, lstrip_if, ◌≡◌, ◌≢◌, refl, sym, ap, ◌∙◌, ◌⊎◌, ◌↔◌, inl,
  inr, arith, Bool-cases, Option-cases, ltb→lt, lt→ltb, leb→le, eqb_iff,
}
use review_agent_v.Core.Enums.{Stage, Intent, intent_value}
use review_agent_v.Core.Models.{Session}
use review_agent_v.Core.Cursor.{advance, pull_deferred}
use review_agent_v.Core.Storage.Tables.{Dir}
use review_agent_v.Core.Storage.Findings.{load_cursor, save_cursor, log_conversation}
use review_agent_v.Core.Storage.Audit.{has_llm_call_for_stage}
use review_agent_v.Core.Dispatcher.World
use review_agent_v.Core.Dispatcher.World.{
  Env, World, Act, ◌>>=◌, ◌>>◌, pure, raise, need, now, files_of, on_files, update, safe_dm, gets,
}
use review_agent_v.Core.Dispatcher.Stages.{
  do_merge, do_final_gate, do_build_and_deliver, emit_next_finding,
}
use review_agent_v.Core.Dispatcher.CloseChain.{enqueue_close_chain}
use review_agent_v.Core.Dispatcher.Scanning.{do_scan}
use review_agent_v.Pipeline.Intents.{parse_reply_intent}
use review_agent_v.Pipeline.QaLoop.{
  TurnOutcome, Action, emit_next, propose_close, force_close, no_op, handle_reply,
}
use review_agent_v.Pipeline.ConfirmTopic.{subject_reply}

-- The cursor of MORE at the confirmation of the close: how many were pulled, and the files after it;
-- nothing is saved where none is.
unfoldable pub more_at_close : ℕ → Dir → ℕ × Dir
more_at_close top_n d =
    let (c, moved) = pull_deferred top_n (load_cursor d) in
    (moved, if eqb moved 0 then d else save_cursor (advance c) d)

module _ (e : Env) where
  -- What follows from how many were pulled, and the files after it.
  abbrev pub pulled_turn : (oid : Text) → Session → ℕ × Dir → Act (Unit {0})
  pulled_turn oid s (moved, files) = if eqb moved 0 then safe_dm oid World.deferred_empty else (do
    on_files s.id (λ _. files)
    update s.id (λ r. record r { stage = Stage.qa_active })
    safe_dm oid (World.pulled moved)
    emit_next_finding e s.id)

  -- The branch of MORE.
  unfoldable pub close_more : (oid : Text) → Session → Act (Unit {0})
  unfolding more_at_close
  close_more oid s = do files ← files_of s.id; pulled_turn oid s (more_at_close e.top_n files)

  unfoldable pub close_by : (oid : Text) → Session → Intent → Act (Unit {0})
  unfolding close_more
  close_by oid s Intent.more = close_more oid s
  close_by oid s Intent.pick_b = close_more oid s
  close_by oid s Intent.force_close = do
    safe_dm oid World.forced_close
    enqueue_close_chain e s.id true
  close_by oid s Intent.reject = safe_dm oid World.close_hint
  close_by oid s Intent.modify = safe_dm oid World.close_hint
  close_by oid s Intent.pass = safe_dm oid World.close_hint
  close_by oid s Intent.custom = safe_dm oid World.close_hint
  close_by oid s Intent.question = safe_dm oid World.close_hint
  close_by oid s Intent.pick_c = safe_dm oid World.close_hint
  close_by oid s _ = do
    update s.id (λ r. record r { stage = Stage.merging })
    safe_dm oid World.summary_soon
    enqueue_close_chain e s.id false

  -- _handle_close_confirmation
  unfoldable pub handle_close_confirmation : (oid : Text) → Session → (text : Text) → Act (Unit {0})
  unfolding close_by
  handle_close_confirmation oid s text = do
    let (intent, _) = parse_reply_intent e.lower text (txt "qa_loop")
    ts ← now e
    on_files s.id (log_conversation ts (txt "requester") text (some (intent_value intent)))
    close_by oid s intent

  -- What follows from the outcome of a reply.
  unfoldable pub act_on : (oid : Text) → Session → TurnOutcome → Action → Act (Unit {0})
  act_on oid s o emit_next = emit_next_finding e s.id
  act_on oid s o propose_close = do
    update s.id (λ r. record r { stage = Stage.awaiting_close_confirmation })
    safe_dm oid (World.qa_text o.dm_text)
  act_on oid s o force_close = do safe_dm oid World.forced_close; enqueue_close_chain e s.id true
  act_on oid s o no_op = pure tt

  abbrev pub reply_result : Session → Option TurnOutcome × Dir → Act TurnOutcome
  reply_result s (r, d) = do on_files s.id (λ _. d); need r

  -- The part for QA_ACTIVE and QA_ACTIVE_REOPENED, from the call of `handle_reply`.
  unfoldable pub qa_reply : (oid : Text) → Session → (text : Text) → Act (Unit {0})
  unfolding act_on
  qa_reply oid s text = do
    logged ← now e
    ts ← now e
    files ← files_of s.id
    o ← reply_result s (handle_reply e.lower text logged ts e.top_n files)
    act_on oid s o o.action

  abbrev pub if_chosen : (oid : Text) → Session → Option Text → Act (Unit {0})
  if_chosen oid s none = safe_dm oid World.subject_unclear
  if_chosen oid s (some label) = do_scan e s.id

  abbrev pub subject_result :
      (oid : Text) → Session → Option (Intent × Option Text) → Act (Unit {0})
  subject_result oid s none = raise
  subject_result oid s (some (intent, chosen)) = if_chosen oid s chosen

  -- The part for SUBJECT_CONFIRMATION, from the call of `handle_reply`.
  unfoldable pub subject_turn : (oid : Text) → Session → (text : Text) → Act (Unit {0})
  subject_turn oid s text = do
    ts ← now e
    λ w.
        let (r, storage) = subject_reply e.lower ts text s w.storage in
        subject_result oid s r (record w { storage = storage })

  -- The part for a stage of BUSY_STAGES, with its key and the method that is run again.
  unfoldable pub busy_turn : (oid : Text) → Session → (key : Text) → Act (Unit {0}) → Act (Unit {0})
  busy_turn oid s key restart = do
    known ← gets (λ w. has_llm_call_for_stage s.id key w.storage)
    if known
        then safe_dm oid (World.busy s.stage)
        else (do safe_dm oid (World.interrupted s.stage); restart)

  -- BUSY_STAGES: the key of the call and the method, or the part for other stages.
  abbrev pub busy_at : (oid : Text) → Session → Act (Unit {0}) → Stage → Act (Unit {0})
  busy_at oid s other Stage.scanning = busy_turn oid s (txt "scan_four_pillar") (do_scan e s.id)
  busy_at oid s other Stage.merging = busy_turn oid s (txt "merge_draft") (do_merge e s.id)
  busy_at oid s other Stage.final_gating =
      busy_turn oid s (txt "final_gate") (do_final_gate e s.id false)
  busy_at oid s other Stage.closing =
      busy_turn oid s (txt "build_summary") (do_build_and_deliver e s.id)
  busy_at oid s other _ = other

  unfoldable pub busy_stage : (oid : Text) → Session → Act (Unit {0}) → Act (Unit {0})
  unfolding busy_turn
  busy_stage oid s other = busy_at oid s other s.stage
