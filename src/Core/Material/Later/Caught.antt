-- ===== src/Core/Material/Later/Caught.antt =====
-- No LLMTerminalFailure leaves the parts that read material.
use review_agent_v.Prelude.{
  Text, txt, Bool, true, false, Option, none, some, if◌then◌else◌, strip, ◌≢◌,
}
use review_agent_v.Core.Enums.{Stage, Intent}
use review_agent_v.Core.Models.{Session, User}
use review_agent_v.Core.Storage.Users.{get_user}
use review_agent_v.Core.Dispatcher.World
use review_agent_v.Core.Dispatcher.World.{
  Env, World, Act, Outcome, ok, exception, ◌>>=◌, ◌>>◌, pure, need, safe_dm, on_files, llm_failure,
  Notice,
}
use review_agent_v.Core.Dispatcher.Scanning.{do_confirm_topic}
use review_agent_v.Core.Dispatcher.Scanning.Caught.{IsCaught-do_scan, IsCaught-do_confirm_topic}
use review_agent_v.Core.Dispatcher.Handlers.{qa_reply, subject_turn, busy_stage}
use review_agent_v.Core.Dispatcher.Handlers.Caught.{
  IsCaught-choice, IsCaught-handle_close_confirmation, IsCaught-qa_reply, IsCaught-subject_turn,
  IsCaught-busy_stage,
}
use review_agent_v.Core.Dispatcher.CloseChain.Caught.{IsCaught, IsCaught-bind, chain-IsCaught}
use review_agent_v.Core.Material.Reading.{Desk, Reading, settle_read, try_read}
use review_agent_v.Core.Material.Supplement.{append_supplementary}
use review_agent_v.Core.Material.Intake.{save_and_ingest}
use review_agent_v.Core.Material.Gate.{
  GateIntent, cancels, starts, adds, gate_turn, gate_intent, gate_supplement,
  handle_material_confirm, send_material_confirm, settle_intake, begin, open_session, start_with,
  handle_no_session, fail_session_error, chosen_responder, look_up,
}
use review_agent_v.Core.Material.Later.{
  Looks, documents, pages, long_text, reply, looks_of, reread, reread_fetched, reread_as,
  maybe_reingest, kickoff_rescan, supplement_then_rescan, maybe_supplement, unless_handled,
  in_subject, in_questions, other_by, in_other_stage, in_stage, handle_in_session,
}
use review_agent_v.Lark.Message.{IncomingMessage}
use review_agent_v.Pipeline.Ingest.Result.{Ingest, accepted, rejected, raised}
use review_agent_v.Pipeline.Ingest.Fetch.{fetch_lark_urls, scrape_urls}
use review_agent_v.Pipeline.Intents.{parse_reply_intent}

IsCaught-settle_read :
    {A B : Type 0} (r : Ingest A × World) (refuse : Text → Act B) (use_it : A → Act B)
    → ((m : Text) → IsCaught (refuse m))
    → ((a : A) → IsCaught (use_it a))
    → (settle_read r refuse use_it).0 ≢ llm_failure
IsCaught-settle_read (accepted a, w) refuse use_it h k = k a w
IsCaught-settle_read (rejected m, w) refuse use_it h k = h m w
IsCaught-settle_read (raised m, w) refuse use_it h k = λ e. cc

IsCaught-try_read :
    {A B : Type 0} (body : Reading A) (refuse : Text → Act B) (use_it : A → Act B)
    → ((m : Text) → IsCaught (refuse m))
    → ((a : A) → IsCaught (use_it a))
    → IsCaught (try_read body refuse use_it)
IsCaught-try_read body refuse use_it h k w = IsCaught-settle_read (body w) refuse use_it h k

-- The action cannot but return.
IsCaught-send_material_confirm : (s : Session) → IsCaught (send_material_confirm s)
unfolding send_material_confirm
IsCaught-send_material_confirm s w h = cc

module _ (desk : Desk) where
  IsCaught-gate_supplement :
      (oid : Text) (s : Session) (msg : IncomingMessage) → IsCaught (gate_supplement desk oid s msg)
  unfolding gate_supplement
  IsCaught-gate_supplement oid s msg =
      IsCaught-try_read (append_supplementary desk s msg) _ _ (λ m w h. cc)
        λ added.
          IsCaught-choice added (send_material_confirm s) (safe_dm oid World.not_material)
            (IsCaught-send_material_confirm s) λ w h. cc

  IsCaught-gate_turn :
      (oid : Text) (s : Session) (msg : IncomingMessage) (i : GateIntent)
      → IsCaught (gate_turn desk oid s msg i)
  IsCaught-gate_turn oid s msg cancels w = λ h. cc
  IsCaught-gate_turn oid s msg starts w = IsCaught-do_confirm_topic desk.env s.id _
  IsCaught-gate_turn oid s msg adds w = IsCaught-gate_supplement oid s msg w

  IsCaught-handle_material_confirm :
      (oid : Text) (s : Session) (msg : IncomingMessage)
      → IsCaught (handle_material_confirm desk oid s msg)
  unfolding handle_material_confirm
  IsCaught-handle_material_confirm oid s msg w =
      IsCaught-gate_turn oid s msg (gate_intent (desk.env.lower (strip msg.content_text))) w

  IsCaught-reread :
      (oid : Text) (s : Session) (notice : Notice) (t : Text)
      → IsCaught (reread desk oid s notice t)
  unfolding reread
  IsCaught-reread oid s notice t w =
      IsCaught-bind (do_confirm_topic desk.env s.id) (λ u. pure true)
        (IsCaught-do_confirm_topic desk.env s.id) (λ u v h. cc) _

  IsCaught-reread_fetched :
      (oid : Text) (s : Session) (notice : Notice) (r : Ingest Text)
      → IsCaught (reread_fetched desk oid s notice r)
  IsCaught-reread_fetched oid s notice (accepted t) w = IsCaught-reread oid s notice t w
  IsCaught-reread_fetched oid s notice (rejected m) w = λ h. cc
  IsCaught-reread_fetched oid s notice (raised m) w = λ h. cc

  IsCaught-reread_as :
      (oid : Text) (s : Session) (text : Text) (l : Looks) → IsCaught (reread_as desk oid s text l)
  IsCaught-reread_as oid s text (documents us) w =
      IsCaught-reread_fetched oid s _ (fetch_lark_urls desk.web us) w
  IsCaught-reread_as oid s text (pages us) w =
      IsCaught-reread_fetched oid s _ (scrape_urls desk.web us) w
  IsCaught-reread_as oid s text long_text w = IsCaught-reread oid s _ text w
  IsCaught-reread_as oid s text reply w = λ h. cc

  IsCaught-maybe_reingest :
      (oid : Text) (s : Session) (text : Text) → IsCaught (maybe_reingest desk oid s text)
  unfolding maybe_reingest
  IsCaught-maybe_reingest oid s text = IsCaught-reread_as oid s text (looks_of text)

  IsCaught-kickoff_rescan : (oid : Text) (s : Session) → IsCaught (kickoff_rescan desk oid s)
  unfolding kickoff_rescan
  IsCaught-kickoff_rescan oid s w = IsCaught-do_scan desk.env s.id _

  IsCaught-supplement_then_rescan :
      (oid : Text) (s : Session) (msg : IncomingMessage)
      → IsCaught (supplement_then_rescan desk oid s msg)
  unfolding supplement_then_rescan
  IsCaught-supplement_then_rescan oid s msg =
      IsCaught-try_read (append_supplementary desk s msg) _ _ (λ m w h. cc)
        λ added.
          IsCaught-choice added (do kickoff_rescan desk oid s; pure true) (pure false)
            (IsCaught-bind (kickoff_rescan desk oid s) (λ u. pure true)
              (IsCaught-kickoff_rescan oid s) λ u v h. cc)
            λ w h. cc

  IsCaught-maybe_supplement :
      (oid : Text) (s : Session) (msg : IncomingMessage)
      → IsCaught (maybe_supplement desk oid s msg)
  unfolding maybe_supplement
  IsCaught-maybe_supplement oid s msg =
      IsCaught-choice _ (supplement_then_rescan desk oid s msg) (pure false)
        (IsCaught-supplement_then_rescan oid s msg) λ w h. cc

  IsCaught-unless_handled :
      (check : Act Bool) (rest : Act (Unit {0}))
      → IsCaught check
      → IsCaught rest
      → IsCaught (unless_handled desk check rest)
  IsCaught-unless_handled check rest h k =
      IsCaught-bind check (λ handled. if handled then pure tt else rest) h
        λ handled. IsCaught-choice handled (pure tt) rest (λ w e. cc) k

  IsCaught-in_subject :
      (oid : Text) (s : Session) (msg : IncomingMessage) → IsCaught (in_subject desk oid s msg)
  unfolding in_subject
  IsCaught-in_subject oid s msg =
      IsCaught-choice _
        (unless_handled desk (maybe_reingest desk oid s msg.content_text)
          (subject_turn desk.env oid s msg.content_text))
        (subject_turn desk.env oid s msg.content_text)
        (IsCaught-unless_handled _ _ (IsCaught-maybe_reingest oid s msg.content_text)
          (IsCaught-subject_turn desk.env oid s msg.content_text))
        (IsCaught-subject_turn desk.env oid s msg.content_text)

  IsCaught-in_questions :
      (oid : Text) (s : Session) (msg : IncomingMessage) → IsCaught (in_questions desk oid s msg)
  unfolding in_questions
  IsCaught-in_questions oid s msg w =
      IsCaught-unless_handled (maybe_supplement desk oid s msg)
        (qa_reply desk.env oid s msg.content_text) (IsCaught-maybe_supplement oid s msg)
        (IsCaught-qa_reply desk.env oid s msg.content_text) _

  IsCaught-other_by : (oid : Text) (s : Session) (i : Intent) → IsCaught (other_by desk oid s i)
  IsCaught-other_by oid s Intent.accept w = chain-IsCaught desk.env s.id false w
  IsCaught-other_by oid s Intent.reject w = λ h. cc
  IsCaught-other_by oid s Intent.modify w = λ h. cc
  IsCaught-other_by oid s Intent.pass w = λ h. cc
  IsCaught-other_by oid s Intent.more w = λ h. cc
  IsCaught-other_by oid s Intent.done w = chain-IsCaught desk.env s.id false w
  IsCaught-other_by oid s Intent.custom w = λ h. cc
  IsCaught-other_by oid s Intent.question w = λ h. cc
  IsCaught-other_by oid s Intent.force_close w = λ h. cc
  IsCaught-other_by oid s Intent.pick_a w = λ h. cc
  IsCaught-other_by oid s Intent.pick_b w = λ h. cc
  IsCaught-other_by oid s Intent.pick_c w = λ h. cc

  IsCaught-in_other_stage :
      (oid : Text) (s : Session) (text : Text) → IsCaught (in_other_stage desk oid s text)
  unfolding in_other_stage
  IsCaught-in_other_stage oid s text =
      IsCaught-other_by oid s (parse_reply_intent desk.env.lower text (txt "qa_loop")).0

  IsCaught-other :
      (oid : Text) (s : Session) (msg : IncomingMessage)
      → IsCaught (busy_stage desk.env oid s (in_other_stage desk oid s msg.content_text))
  IsCaught-other oid s msg =
      IsCaught-busy_stage desk.env oid s (in_other_stage desk oid s msg.content_text)
        (IsCaught-in_other_stage oid s msg.content_text)

  IsCaught-in_stage :
      (oid : Text) (s : Session) (msg : IncomingMessage) (stage : Stage)
      → IsCaught (in_stage desk oid s msg stage)
  IsCaught-in_stage oid s msg Stage.intake = IsCaught-other oid s msg
  IsCaught-in_stage oid s msg Stage.awaiting_material_confirm =
      IsCaught-handle_material_confirm oid s msg
  IsCaught-in_stage oid s msg Stage.subject_confirmation = IsCaught-in_subject oid s msg
  IsCaught-in_stage oid s msg Stage.scanning = IsCaught-other oid s msg
  IsCaught-in_stage oid s msg Stage.qa_active = IsCaught-in_questions oid s msg
  IsCaught-in_stage oid s msg Stage.qa_active_reopened = IsCaught-in_questions oid s msg
  IsCaught-in_stage oid s msg Stage.awaiting_close_confirmation =
      IsCaught-handle_close_confirmation desk.env oid s msg.content_text
  IsCaught-in_stage oid s msg Stage.awaiting_final_draft = IsCaught-other oid s msg
  IsCaught-in_stage oid s msg Stage.merging = IsCaught-other oid s msg
  IsCaught-in_stage oid s msg Stage.final_gating = IsCaught-other oid s msg
  IsCaught-in_stage oid s msg Stage.closing = IsCaught-other oid s msg
  IsCaught-in_stage oid s msg Stage.closed = IsCaught-other oid s msg
  IsCaught-in_stage oid s msg Stage.ingest_failed = IsCaught-other oid s msg
  IsCaught-in_stage oid s msg Stage.cancelled = IsCaught-other oid s msg
  IsCaught-in_stage oid s msg Stage.failed = IsCaught-other oid s msg

  pub IsCaught-handle_in_session :
      (oid : Text) (s : Session) (msg : IncomingMessage)
      → IsCaught (handle_in_session desk oid s msg)
  unfolding handle_in_session
  IsCaught-handle_in_session oid s msg = IsCaught-in_stage oid s msg s.stage

  IsCaught-settle_intake :
      (oid : Text) (s : Session) (r : Ingest Bool × World)
      → (settle_intake desk oid s r).0 ≢ llm_failure
  unfolding send_material_confirm fail_session_error
  IsCaught-settle_intake oid s (accepted true, w) h = cc
  IsCaught-settle_intake oid s (accepted false, w) h = cc
  IsCaught-settle_intake oid s (rejected m, w) h = cc
  IsCaught-settle_intake oid s (raised m, w) h = cc

  IsCaught-begin :
      (oid : Text) (msg : IncomingMessage) (s : Option Session) → IsCaught (begin desk oid msg s)
  IsCaught-begin oid msg none w = λ h. cc
  IsCaught-begin oid msg (some s) w =
      IsCaught-settle_intake oid s (save_and_ingest desk oid s msg w)

  IsCaught-start_with :
      (oid : Text) (msg : IncomingMessage) (responder : Option User)
      → IsCaught (start_with desk oid msg responder)
  IsCaught-start_with oid msg none w = λ h. cc
  IsCaught-start_with oid msg (some responder) w =
      IsCaught-begin oid msg (open_session desk oid responder.open_id w).1 _

  IsCaught-found :
      (oid : Text) (msg : IncomingMessage) (responder_oid : Option Text)
      → IsCaught (look_up responder_oid >>= start_with desk oid msg)
  IsCaught-found oid msg none w = IsCaught-start_with oid msg none w
  IsCaught-found oid msg (some responder_oid) w =
      IsCaught-start_with oid msg (get_user responder_oid w.storage) w

  pub IsCaught-handle_no_session :
      (user : User) (msg : IncomingMessage) → IsCaught (handle_no_session desk user msg)
  unfolding handle_no_session
  IsCaught-handle_no_session user msg =
      IsCaught-found user.open_id msg (chosen_responder user.pairing_responder_oid)
