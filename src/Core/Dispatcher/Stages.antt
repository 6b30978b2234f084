-- ===== src/Core/Dispatcher/Stages.antt =====
-- The stage helpers of the dispatcher, with the pipeline's `run` that each calls.
pub mod Silent
use review_agent_v.Prelude.{
  Text, txt, suc, Bool, true, false, Option, none, some, [], ◌∷◌, ◌++◌, strip, if◌then◌else◌,
}
use review_agent_v.Prelude.Json.{Json, obj, Fields, end}
use review_agent_v.Core.Enums.{Stage}
use review_agent_v.Core.Models.{Session}
use review_agent_v.Core.Storage.Tables.{Dir}
use review_agent_v.Core.Storage.Findings.{load_findings}
use review_agent_v.Core.Dispatcher.World.{
  Env, Act, ok, llm_failure, finding_post, finding_text, ◌>>=◌, ◌>>◌, pure, raise, need, try_llm,
  chat, now, session_of, user_of, files_of, on_files, update, log_call, fail_session,
}
use review_agent_v.Pipeline.Extract.{extract}
use review_agent_v.Pipeline.FinalGate.{decide, gate_session, gate_outcome}
use review_agent_v.Pipeline.QaLoop.{Search, key_error, nothing, found, emit_row}
use review_agent_v.Pipeline.Deliver
use review_agent_v.Pipeline.Deliver.Targets.{load_targets}
use review_agent_v.Pipeline.Deliver.{Wire, Setting}

-- final/revised.md, or normalized.md where there is none; one must be there.
abbrev pub draft : Dir → Option Text
draft d = elim d.revised [ none ↦ d.normalized | some t ↦ some t ]

-- The dict of the answer; `decide` has refused any other value.
abbrev pub fields : Json → Fields
fields (obj d) = d
fields _ = end

-- LLMOutputParseError is an LLMTerminalFailure.
abbrev pub parsed : {A : Type 0} → Option A → Act A
parsed none w = (llm_failure, w)
parsed (some a) w = (ok a, w)

-- `rest` where the part before it did not end the method.
abbrev pub ended : Act Bool → Act (Unit {0}) → Act (Unit {0})
ended m rest = do goes_on ← m; if goes_on then rest else pure tt

-- `if not body_text: return`
abbrev pub if_text : Text → Act (Unit {0}) → Act (Unit {0})
if_text [] rest = pure tt
if_text (c ∷ t) rest = rest

module _ (e : Env) where
  -- merge_draft.run
  unfoldable pub merge_draft : Session → Act (Unit {0})
  merge_draft s = do
    files ← files_of s.id
    need files.normalized
    need (load_findings files)
    user_of s.responder_oid
    answer ← chat e
    log_call s.id (txt "merge_draft")
    on_files s.id (λ d. record d { revised = some answer })
    update s.id (λ r. record r { stage = Stage.final_gating })

  -- _do_merge
  unfoldable pub do_merge : Text → Act (Unit {0})
  unfolding merge_draft
  do_merge sid = do
    s ← session_of sid
    try_llm (merge_draft s) (fail_session s Stage.merging (txt "merge_draft"))

  -- final_gate.run
  unfoldable pub final_gate : Session → Bool → Act (Unit {0})
  unfolding gate_session
  final_gate s forced = do
    files ← files_of s.id
    need (draft files)
    user_of s.responder_oid
    answer ← chat e
    log_call s.id (txt "final_gate")
    env ← parsed (extract e.loads answer)
    rows ← need (load_findings files)
    verdict ← need (decide e.upper forced env)
    on_files s.id (λ d. record d { verdict = some (gate_outcome verdict (fields env) rows) })
    update s.id (gate_session verdict s)

  -- _do_final_gate
  unfoldable pub do_final_gate : Text → Bool → Act (Unit {0})
  unfolding final_gate
  do_final_gate sid forced = do
    s ← session_of sid
    try_llm (final_gate s forced) (fail_session s Stage.final_gating (txt "final_gate"))

  -- build_summary.run; summary_audit.md, which nothing reads, is left out.
  unfoldable pub build_summary : Session → Act (Unit {0})
  build_summary s = do
    files ← files_of s.id
    need (draft files)
    need (load_findings files)
    user_of s.responder_oid
    user_of s.requester_oid
    now e
    answer ← chat e
    log_call s.id (txt "build_summary")
    on_files s.id (λ d. record d { summary = some answer })

  -- load_targets, and deliver.run on the world
  unfoldable pub deliver_run : Session → Act (Unit {0})
  deliver_run s = do
    targets ← need (load_targets e.targets_config e.fs_root s.requester_oid s.responder_oid)
    ts ← now e
    λ w.
        let setting : Setting = record {
          backends = e.backends;
          sha256 = e.sha256;
          send = e.send;
          now = ts;
        } in
        let wire : Wire = record { storage = w.storage; sends = w.sends } in
        let (results, wire') = Deliver.run setting s targets wire in
        (ok tt, record w { storage = wire'.storage; sends = wire'.sends })

  -- What `_do_build_and_deliver` does once the summary is there.
  unfoldable pub deliver_session : Text → Act (Unit {0})
  unfolding deliver_run
  deliver_session sid = do s ← session_of sid; deliver_run s

  -- _do_build_and_deliver
  unfoldable pub do_build_and_deliver : Text → Act (Unit {0})
  unfolding build_summary deliver_session
  do_build_and_deliver sid = do
    s ← session_of sid
    ended
        (try_llm (do build_summary s; pure true)
          (do fail_session s Stage.closing (txt "build_summary"); pure false))
        (deliver_session sid)

  -- qa_loop.emit_current: the stripped answer, or the empty text where there is nothing to ask.
  unfoldable pub emit_current : Session → Act Text
  emit_current s = do
    files ← files_of s.id
    elim (emit_row files) [
      | key_error ↦ raise
      | nothing ↦ pure []
      | found row ↦ do
        user_of s.responder_oid
        answer ← chat e
        log_call s.id (txt "qa_emit_finding")
        pure (strip answer)
    ]

  -- The post, and the plain text where it cannot be sent.
  unfoldable pub send_finding : Session → Fields → Text → Act (Unit {0})
  send_finding s row body w =
      let w' = record w { posts = suc w.posts } in
      (
        ok tt,
        record w' {
          sent =
              w.sent
              ++ record {
                to = s.requester_oid;
                notice = if e.post_ok w.posts then finding_post row body else finding_text row body;
              }
                ∷ [];
        },
      )

  -- `emit_current` has found the row of the current finding.
  abbrev pub send_current : Session → Search → Text → Act (Unit {0})
  send_current s (found row) body = send_finding s row body
  send_current s nothing body = pure tt
  send_current s key_error body = pure tt

  -- _emit_next_finding
  unfoldable pub emit_next_finding : Text → Act (Unit {0})
  unfolding emit_current send_finding
  emit_next_finding sid = do
    s ← session_of sid
    body ← try_llm (emit_current s) (do fail_session s Stage.qa_active (txt "qa_loop"); pure [])
    files ← files_of s.id
    if_text body (send_current s (emit_row files) body)
