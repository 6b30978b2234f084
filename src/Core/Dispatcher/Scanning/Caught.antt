-- ===== src/Core/Dispatcher/Scanning/Caught.antt =====
-- No LLMTerminalFailure leaves the scan and the proposal of topics.
use review_agent_v.Prelude.{Text, txt, true, false, Option, none, some}
use review_agent_v.Prelude.Json.{Fields}
use review_agent_v.Core.Enums.{Stage}
use review_agent_v.Core.Models.{Session}
use review_agent_v.Core.Dispatcher.World.{Env, ◌>>=◌, ◌>>◌, pure, try_llm, session_of, fail_session}
use review_agent_v.Core.Dispatcher.Stages.{emit_next_finding}
use review_agent_v.Core.Dispatcher.Scanning.{
  do_scan, scan_run, do_confirm_topic, propose, can_scan, send_proposal,
}
use review_agent_v.Core.Dispatcher.CloseChain.Caught.{
  IsCaught, IsCaught-bind, IsCaught-session_of, IsCaught-try_llm, IsCaught-ended, IsCaught-failed,
  IsCaught-emit_next_finding, if_IsCaught,
}

module _ (e : Env) where
  IsCaught-send_proposal : (s : Session) (env : Option Fields) → IsCaught (send_proposal e s env)
  IsCaught-send_proposal s none w h = cc
  IsCaught-send_proposal s (some env) w h = cc

  pub IsCaught-do_scan : (sid : Text) → IsCaught (do_scan e sid)
  unfolding do_scan
  IsCaught-do_scan sid = IsCaught-bind (session_of sid) _ (IsCaught-session_of sid) λ s.
      if_IsCaught _
        (λ w.
          IsCaught-ended e
            (try_llm (do scan_run e s; pure true)
              (do fail_session s Stage.scanning (txt "scan"); pure false))
            (emit_next_finding e sid)
            (IsCaught-try_llm (do scan_run e s; pure true) _
              (IsCaught-failed e s Stage.scanning (txt "scan") false))
            (IsCaught-emit_next_finding e sid) _)
        (can_scan s.stage)

  pub IsCaught-do_confirm_topic : (sid : Text) → IsCaught (do_confirm_topic e sid)
  unfolding do_confirm_topic
  IsCaught-do_confirm_topic sid = IsCaught-bind (session_of sid) _ (IsCaught-session_of sid) λ s.
      IsCaught-bind _ (send_proposal e s)
        (IsCaught-try_llm (do env ← propose e s; pure (some env)) _
          (IsCaught-failed e s Stage.subject_confirmation (txt "confirm_topic") none))
        (IsCaught-send_proposal s)
