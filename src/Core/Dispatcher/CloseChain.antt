-- ===== src/Core/Dispatcher/CloseChain.antt =====
-- review_agent/core/dispatcher.py, `_enqueue_close_chain`: the draft is merged, the final gate judges it,
-- and the session goes back to the questions or on to the delivery.
pub mod Caught
pub mod Kept
use review_agent_v.Prelude.{
  Text, txt, Bool, true, false, not, ◌&&◌, ◌||◌, Option, some, List, [], ◌∷◌, map, filter, length,
  if◌then◌else◌, ltb,
}
use review_agent_v.Prelude.Json.{Json, str, Fields, get, is_text}
use review_agent_v.Core.Enums.{Stage, Verdict}
use review_agent_v.Core.Models.{Session}
use review_agent_v.Core.Storage.Findings.{load_findings}
use review_agent_v.Core.Dispatcher.World.{
  Env, Act, gate_without_blockers, gate_reopens, ◌>>=◌, ◌>>◌, session_of, files_of, on_files, need,
  update, safe_dm,
}
use review_agent_v.Core.Dispatcher.Stages.{
  do_merge, do_final_gate, do_build_and_deliver, emit_next_finding,
}
use review_agent_v.Core.Cursor.{is_nil}
use review_agent_v.Pipeline.QaLoop.{reopen_dir, reopen_session}

-- f.get("status") == "open" and f.get("severity") in ("BLOCKER", "REGRESSION")
unfoldable pub is_open_blocker : Fields → Bool
is_open_blocker f =
    is_text (txt "open") (get "status" f)
    && (is_text (txt "BLOCKER") (get "severity" f) || is_text (txt "REGRESSION") (get "severity" f))

abbrev text_of : Option Json → Text
text_of (some (str t)) = t
text_of _ = []

-- f.get("id", ""), where the id is a text
unfoldable pub finding_id : Fields → Text
finding_id f = text_of (get "id" f)

-- _extract_open_blockers
unfoldable pub extract_open_blockers : List Fields → List Text
extract_open_blockers findings = map finding_id (filter is_open_blocker findings)

abbrev pub is_fail : Option Verdict → Bool
is_fail (some Verdict.fail) = true
is_fail _ = false

module _ (e : Env) where
  -- `update_session(stage=CLOSING)` and `_do_build_and_deliver`
  unfoldable pub close : Text → Act (Unit {0})
  close sid = do update sid (λ r. record r { stage = Stage.closing }); do_build_and_deliver e sid

  unfoldable pub reopen_questions : Session → List Text → Act (Unit {0})
  reopen_questions s regressions = do
    on_files s.id (reopen_dir regressions)
    update s.id (reopen_session s)
    safe_dm s.requester_oid (gate_reopens (length regressions))
    emit_next_finding e s.id

  -- What follows a FAIL, with the open blockers.
  unfoldable pub failed_gate : Session → List Text → Act (Unit {0})
  unfolding close reopen_questions
  failed_gate s [] = do
    update s.id (λ r. record r { verdict = some Verdict.forced_partial; stage = Stage.closing })
    safe_dm s.requester_oid gate_without_blockers
    close s.id
  failed_gate s (r ∷ regressions) =
      if ltb s.fail_count e.max_fail_count
      then reopen_questions s (r ∷ regressions)
      else (do update s.id (λ r. record r { verdict = some Verdict.forced_partial }); close s.id)

  unfoldable pub by_verdict : Session → (failed : Bool) → Act (Unit {0})
  unfolding failed_gate close extract_open_blockers
  by_verdict s false = close s.id
  by_verdict s true = do
    files ← files_of s.id
    rows ← need (load_findings files)
    failed_gate s (extract_open_blockers rows)

  -- The chain after the final gate. The verdict is the one in the table, an earlier one where the gate has
  -- given none.
  unfoldable pub after_gate : Text → Bool → Act (Unit {0})
  unfolding by_verdict
  after_gate sid forced = do s ← session_of sid; by_verdict s (is_fail s.verdict && not forced)

  -- _enqueue_close_chain
  unfoldable pub enqueue_close_chain : Text → Bool → Act (Unit {0})
  enqueue_close_chain sid forced = do
    do_merge e sid
    do_final_gate e sid forced
    after_gate sid forced
