-- ===== src/Core/Dispatcher/Handlers/Caught.antt =====
-- No LLMTerminalFailure leaves the parts of a message for a session.
use review_agent_v.Prelude.{
  Text, txt, ℕ, suc, eqb, Bool, true, false, Option, none, some, if◌then◌else◌, inl, inr,
  Bool-cases,
}
use review_agent_v.Core.Enums.{Stage, Intent}
use review_agent_v.Core.Models.{Session}
use review_agent_v.Core.Storage.Tables.{Dir}
use review_agent_v.Core.Storage.Audit.{has_llm_call_for_stage}
use review_agent_v.Core.Dispatcher.World
use review_agent_v.Core.Dispatcher.World.{
  Env, World, Act, ◌>>=◌, ◌>>◌, pure, need, safe_dm, on_files, llm_failure,
}
use review_agent_v.Core.Dispatcher.Stages.{emit_next_finding}
use review_agent_v.Core.Dispatcher.Scanning.Caught.{IsCaught-do_scan}
use review_agent_v.Core.Dispatcher.Handlers.{
  more_at_close, pulled_turn, busy_at, close_more, close_by, handle_close_confirmation, act_on,
  reply_result, qa_reply, if_chosen, subject_result, subject_turn, busy_turn, busy_stage,
}
use review_agent_v.Core.Storage.Sessions.{dir}
use review_agent_v.Pipeline.Intents.{parse_reply_intent}
use review_agent_v.Pipeline.QaLoop.{
  TurnOutcome, Action, emit_next, propose_close, force_close, no_op, handle_reply,
}
use review_agent_v.Core.Dispatcher.CloseChain.Caught.{
  IsCaught, IsCaught-do_merge, IsCaught-do_final_gate, IsCaught-do_build_and_deliver,
  IsCaught-emit_next_finding, chain-IsCaught,
}

-- A branch.
pub IsCaught-choice :
    {A : Type 0} (b : Bool) (m n : Act A) → IsCaught m → IsCaught n → IsCaught (if b then m else n)
IsCaught-choice true m n h k = h
IsCaught-choice false m n h k = k

module _ (e : Env) where
  IsCaught-pulled_turn :
      (oid : Text) (s : Session) (moved : ℕ) (files : Dir)
      → IsCaught (pulled_turn e oid s (moved, files))
  IsCaught-pulled_turn oid s moved files =
      IsCaught-choice (eqb moved 0) (safe_dm oid World.deferred_empty)
        (do
          on_files s.id (λ _. files)
          World.update s.id (λ r. record r { stage = Stage.qa_active })
          safe_dm oid (World.pulled moved)
          emit_next_finding e s.id)
        (λ w h. cc) λ w. IsCaught-emit_next_finding e s.id _

  IsCaught-close_more : (oid : Text) (s : Session) → IsCaught (close_more e oid s)
  unfolding close_more
  IsCaught-close_more oid s w =
      let (moved, files) = more_at_close e.top_n (dir s.id w.storage) in
      IsCaught-pulled_turn oid s moved files w

  IsCaught-close_by : (oid : Text) (s : Session) (i : Intent) → IsCaught (close_by e oid s i)
  unfolding close_by
  IsCaught-close_by oid s Intent.more w = IsCaught-close_more oid s w
  IsCaught-close_by oid s Intent.pick_b w = IsCaught-close_more oid s w
  IsCaught-close_by oid s Intent.force_close w = chain-IsCaught e s.id true _
  IsCaught-close_by oid s Intent.reject w = λ h. cc
  IsCaught-close_by oid s Intent.modify w = λ h. cc
  IsCaught-close_by oid s Intent.pass w = λ h. cc
  IsCaught-close_by oid s Intent.custom w = λ h. cc
  IsCaught-close_by oid s Intent.question w = λ h. cc
  IsCaught-close_by oid s Intent.pick_c w = λ h. cc
  IsCaught-close_by oid s Intent.accept w = chain-IsCaught e s.id false _
  IsCaught-close_by oid s Intent.done w = chain-IsCaught e s.id false _
  IsCaught-close_by oid s Intent.pick_a w = chain-IsCaught e s.id false _

  pub IsCaught-handle_close_confirmation :
      (oid : Text) (s : Session) (text : Text) → IsCaught (handle_close_confirmation e oid s text)
  unfolding handle_close_confirmation
  IsCaught-handle_close_confirmation oid s text w =
      IsCaught-close_by oid s (parse_reply_intent e.lower text (txt "qa_loop")).0 _

  IsCaught-act_on :
      (oid : Text) (s : Session) (o : TurnOutcome) (a : Action) → IsCaught (act_on e oid s o a)
  unfolding act_on
  IsCaught-act_on oid s o emit_next w = IsCaught-emit_next_finding e s.id w
  IsCaught-act_on oid s o propose_close w = λ h. cc
  IsCaught-act_on oid s o force_close w = chain-IsCaught e s.id true _
  IsCaught-act_on oid s o no_op w = λ h. cc

  IsCaught-replied :
      (oid : Text) (s : Session) (r : Option TurnOutcome × Dir)
      → IsCaught (reply_result e s r >>= λ o. act_on e oid s o o.action)
  IsCaught-replied oid s (none, d) w = λ h. cc
  IsCaught-replied oid s (some o, d) w = IsCaught-act_on oid s o o.action _

  pub IsCaught-qa_reply :
      (oid : Text) (s : Session) (text : Text) → IsCaught (qa_reply e oid s text)
  unfolding qa_reply
  IsCaught-qa_reply oid s text w =
      let clock = e.clock in
      IsCaught-replied oid s
        (handle_reply e.lower text (clock w.ticks) (clock (suc w.ticks)) e.top_n
          (dir s.id w.storage))
        _

  IsCaught-if_chosen : (oid : Text) (s : Session) (o : Option Text) → IsCaught (if_chosen e oid s o)
  IsCaught-if_chosen oid s none w = λ h. cc
  IsCaught-if_chosen oid s (some label) w = IsCaught-do_scan e s.id w

  IsCaught-subject_result :
      (oid : Text) (s : Session) (o : Option (Intent × Option Text))
      → IsCaught (subject_result e oid s o)
  IsCaught-subject_result oid s none w = λ h. cc
  IsCaught-subject_result oid s (some (i, chosen)) w = IsCaught-if_chosen oid s chosen w

  pub IsCaught-subject_turn :
      (oid : Text) (s : Session) (text : Text) → IsCaught (subject_turn e oid s text)
  unfolding subject_turn
  IsCaught-subject_turn oid s text w = IsCaught-subject_result oid s _ _

  IsCaught-busy_turn :
      (oid : Text) (s : Session) (key : Text) (restart : Act (Unit {0}))
      → IsCaught restart
      → IsCaught (busy_turn e oid s key restart)
  unfolding busy_turn
  IsCaught-busy_turn oid s key restart h w =
      elim (Bool-cases (has_llm_call_for_stage s.id key w.storage)) [
        | inl known ↦ rw known λ k. cc
        | inr interrupted ↦ rw interrupted (h _)
      ]

  IsCaught-busy_at :
      (oid : Text) (s : Session) (other : Act (Unit {0})) (stage : Stage)
      → IsCaught other
      → IsCaught (busy_at e oid s other stage)
  IsCaught-busy_at oid s other Stage.intake h = h
  IsCaught-busy_at oid s other Stage.awaiting_material_confirm h = h
  IsCaught-busy_at oid s other Stage.subject_confirmation h = h
  IsCaught-busy_at oid s other Stage.scanning h =
      IsCaught-busy_turn oid s _ _ (IsCaught-do_scan e s.id)
  IsCaught-busy_at oid s other Stage.qa_active h = h
  IsCaught-busy_at oid s other Stage.qa_active_reopened h = h
  IsCaught-busy_at oid s other Stage.awaiting_close_confirmation h = h
  IsCaught-busy_at oid s other Stage.awaiting_final_draft h = h
  IsCaught-busy_at oid s other Stage.merging h =
      IsCaught-busy_turn oid s _ _ (IsCaught-do_merge e s.id)
  IsCaught-busy_at oid s other Stage.final_gating h =
      IsCaught-busy_turn oid s _ _ (IsCaught-do_final_gate e s.id false)
  IsCaught-busy_at oid s other Stage.closing h =
      IsCaught-busy_turn oid s _ _ (IsCaught-do_build_and_deliver e s.id)
  IsCaught-busy_at oid s other Stage.closed h = h
  IsCaught-busy_at oid s other Stage.ingest_failed h = h
  IsCaught-busy_at oid s other Stage.cancelled h = h
  IsCaught-busy_at oid s other Stage.failed h = h

  pub IsCaught-busy_stage :
      (oid : Text) (s : Session) (other : Act (Unit {0}))
      → IsCaught other
      → IsCaught (busy_stage e oid s other)
  unfolding busy_stage
  IsCaught-busy_stage oid s other h w = IsCaught-busy_at oid s other s.stage h w
