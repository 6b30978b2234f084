-- ===== src/Core/Dispatcher/CloseChain/Caught.antt =====
-- No LLMTerminalFailure leaves the helpers of the stages or the close chain.
use review_agent_v.Prelude.{
  Text, txt, ltb, inl, inr, Bool-cases, Bool, true, false, Option, none, some, List, [], ◌∷◌,
  if◌then◌else◌, ◌≢◌, refl,
}
use review_agent_v.Core.Enums.{Stage}
use review_agent_v.Core.Models.{Session}
use review_agent_v.Core.Storage.Sessions.{get_session, dir}
use review_agent_v.Core.Dispatcher.World.{
  Env, World, Act, Outcome, ok, llm_failure, exception, continue, handled, ◌>>=◌, ◌>>◌, pure, need,
  try_llm, session_of, fail_session,
}
use review_agent_v.Core.Dispatcher.Stages.{
  do_merge, do_final_gate, do_build_and_deliver, emit_next_finding, merge_draft, final_gate,
  build_summary, deliver_session, deliver_run, emit_current, ended, if_text, send_current,
  send_finding,
}
use review_agent_v.Pipeline.Deliver.Targets.{load_targets}
use review_agent_v.Pipeline.QaLoop.{Search, key_error, nothing, found, emit_row}
use review_agent_v.Core.Dispatcher.CloseChain.{
  close, failed_gate, by_verdict, reopen_questions, after_gate, enqueue_close_chain,
  extract_open_blockers,
}
use review_agent_v.Core.Storage.Findings.{load_findings}

-- The action returns, or raises something else.
abbrev pub IsCaught : {A : Type 0} → Act A → Type 0
IsCaught m = (w : World) → (m w).0 ≢ llm_failure

IsCaught-continue :
    {A B : Type 0} (r : Outcome A × World) (f : A → Act B)
    → r.0 ≢ llm_failure
    → ((a : A) → IsCaught (f a))
    → (continue r.0 f r.1).0 ≢ llm_failure
IsCaught-continue (ok a, w) f h k = k a w
IsCaught-continue (llm_failure, w) f h k = absurd (h refl)
IsCaught-continue (exception, w) f h k = λ e. cc

pub IsCaught-bind :
    {A B : Type 0} (m : Act A) (f : A → Act B)
    → IsCaught m
    → ((a : A) → IsCaught (f a))
    → IsCaught (m >>= f)
IsCaught-bind m f h k w = IsCaught-continue (m w) f (h w) k

pub IsCaught-need : {A : Type 0} (o : Option A) → IsCaught (need o)
IsCaught-need none w e = cc
IsCaught-need (some a) w e = cc

pub IsCaught-session_of : (sid : Text) → IsCaught (session_of sid)
IsCaught-session_of sid w = IsCaught-need (get_session sid w.storage) w

IsCaught-handled :
    {A : Type 0} (r : Outcome A × World) (handler : Act A)
    → IsCaught handler
    → (handled r handler).0 ≢ llm_failure
IsCaught-handled (ok a, w) handler h = λ e. cc
IsCaught-handled (llm_failure, w) handler h = h w
IsCaught-handled (exception, w) handler h = λ e. cc

pub IsCaught-try_llm :
    {A : Type 0} (body handler : Act A) → IsCaught handler → IsCaught (try_llm body handler)
IsCaught-try_llm body handler h w = IsCaught-handled (body w) handler h

pub IsCaught-fail_session :
    (s : Session) (stage : Stage) (label : Text) → IsCaught (fail_session s stage label)
unfolding fail_session
IsCaught-fail_session s stage label w e = cc

pub if_IsCaught :
    (rest : Act (Unit {0})) → IsCaught rest → (b : Bool) → IsCaught (if b then rest else pure tt)
if_IsCaught rest k true w h = k w h
if_IsCaught rest k false w h = cc

module _ (e : Env) where
  pub IsCaught-do_merge : (sid : Text) → IsCaught (do_merge e sid)
  unfolding do_merge
  IsCaught-do_merge sid = IsCaught-bind (session_of sid) _ (IsCaught-session_of sid) λ s.
      IsCaught-try_llm (merge_draft e s) _
        (IsCaught-fail_session s Stage.merging (txt "merge_draft"))

  pub IsCaught-do_final_gate : (sid : Text) (forced : Bool) → IsCaught (do_final_gate e sid forced)
  unfolding do_final_gate
  IsCaught-do_final_gate sid forced =
      IsCaught-bind (session_of sid) _ (IsCaught-session_of sid) λ s.
        IsCaught-try_llm (final_gate e s forced) _
          (IsCaught-fail_session s Stage.final_gating (txt "final_gate"))

  pub IsCaught-failed :
      {A : Type 0} (s : Session) (stage : Stage) (label : Text) (a : A)
      → IsCaught (do fail_session s stage label; pure a)
  unfolding fail_session
  IsCaught-failed s stage label a w h = cc

  IsCaught-deliver_run : (s : Session) → IsCaught (deliver_run e s)
  unfolding deliver_run
  IsCaught-deliver_run s =
      IsCaught-bind (need (load_targets e.targets_config e.fs_root s.requester_oid s.responder_oid))
        _ (IsCaught-need (load_targets e.targets_config e.fs_root s.requester_oid s.responder_oid))
        λ ts w h. cc

  IsCaught-deliver_session : (sid : Text) → IsCaught (deliver_session e sid)
  unfolding deliver_session
  IsCaught-deliver_session sid =
      IsCaught-bind (session_of sid) (deliver_run e) (IsCaught-session_of sid) IsCaught-deliver_run

  pub IsCaught-ended :
      (m : Act Bool) (rest : Act (Unit {0})) → IsCaught m → IsCaught rest → IsCaught (ended m rest)
  IsCaught-ended m rest h k =
      IsCaught-bind m (λ b. if b then rest else pure tt) h (if_IsCaught rest k)

  pub IsCaught-do_build_and_deliver : (sid : Text) → IsCaught (do_build_and_deliver e sid)
  unfolding do_build_and_deliver
  IsCaught-do_build_and_deliver sid =
      IsCaught-bind (session_of sid) _ (IsCaught-session_of sid) λ s.
        IsCaught-ended _ _
          (IsCaught-try_llm (do build_summary e s; pure true) _
            (IsCaught-failed s Stage.closing (txt "build_summary") false))
          (IsCaught-deliver_session sid)

  IsCaught-send :
      (s : Session) (row : Search) (body : Text)
      → IsCaught (if_text body (send_current e s row body))
  unfolding send_finding
  IsCaught-send s row [] w h = cc
  IsCaught-send s (found row) (c ∷ body) w h = cc
  IsCaught-send s nothing (c ∷ body) w h = cc
  IsCaught-send s key_error (c ∷ body) w h = cc

  pub IsCaught-emit_next_finding : (sid : Text) → IsCaught (emit_next_finding e sid)
  unfolding emit_next_finding
  IsCaught-emit_next_finding sid = IsCaught-bind (session_of sid) _ (IsCaught-session_of sid) λ s.
      IsCaught-bind
        (try_llm (emit_current e s) (do fail_session s Stage.qa_active (txt "qa_loop"); pure [])) _
        (IsCaught-try_llm (emit_current e s) _
          (IsCaught-failed s Stage.qa_active (txt "qa_loop") []))
        λ body w. IsCaught-send s (emit_row (dir s.id w.storage)) body w

  IsCaught-close : (sid : Text) → IsCaught (close e sid)
  unfolding close
  IsCaught-close sid w = IsCaught-do_build_and_deliver sid _

  IsCaught-failed_gate : (s : Session) (rs : List Text) → IsCaught (failed_gate e s rs)
  unfolding failed_gate reopen_questions
  IsCaught-failed_gate s [] w = IsCaught-close s.id _
  IsCaught-failed_gate s (r ∷ rs) w = elim (Bool-cases (ltb s.fail_count e.max_fail_count)) [
    | inl below ↦ rw below (IsCaught-emit_next_finding s.id _)
    | inr reached ↦ rw reached (IsCaught-close s.id _)
  ]

  IsCaught-by_verdict : (s : Session) (failed : Bool) → IsCaught (by_verdict e s failed)
  unfolding by_verdict
  IsCaught-by_verdict s false w = IsCaught-close s.id w
  IsCaught-by_verdict s true w =
      IsCaught-bind (need (load_findings (dir s.id w.storage))) _
        (IsCaught-need (load_findings (dir s.id w.storage)))
        (λ rows. IsCaught-failed_gate s (extract_open_blockers rows)) w

  IsCaught-after_gate : (sid : Text) (forced : Bool) → IsCaught (after_gate e sid forced)
  unfolding after_gate
  IsCaught-after_gate sid forced =
      IsCaught-bind (session_of sid) _ (IsCaught-session_of sid) λ s. IsCaught-by_verdict s _

  pub chain-IsCaught : (sid : Text) (forced : Bool) → IsCaught (enqueue_close_chain e sid forced)
  unfolding enqueue_close_chain
  chain-IsCaught sid forced = IsCaught-bind (do_merge e sid) _ (IsCaught-do_merge sid) λ u.
      IsCaught-bind (do_final_gate e sid forced) _ (IsCaught-do_final_gate sid forced)
        λ v. IsCaught-after_gate sid forced

  -- Whatever the model answers and the storage holds, the close chain, forced or not, never ends
  -- with an LLMTerminalFailure: each of its helpers catches its own.
  pub enqueue_close_chain_caught :
      (sid : Text) (forced : Bool) (w : World)
      → (enqueue_close_chain e sid forced w).0 ≢ llm_failure
  enqueue_close_chain_caught sid forced w = chain-IsCaught sid forced w
