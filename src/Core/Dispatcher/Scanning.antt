-- ===== src/Core/Dispatcher/Scanning.antt =====
-- review_agent/core/dispatcher.py: `_do_scan` and `_do_confirm_topic`, with `scan.run` and
-- `confirm_topic.propose`. One time stands for those that the findings of an answer read.
pub mod Caught
use review_agent_v.Prelude.{
  Text, txt, Bool, true, false, Option, none, some, List, ◌++◌, if◌then◌else◌,
}
use review_agent_v.Prelude.Json.{Json, str, arr, nil, obj, Fields, get_or, put}
use review_agent_v.Core.Enums.{Stage, FindingSource}
use review_agent_v.Core.Models.{Session, Finding}
use review_agent_v.Core.Dispatcher.World.{
  Env, Act, topic_proposal, ◌>>=◌, ◌>>◌, pure, need, try_llm, chat, now, session_of, user_of,
  files_of, on_files, update, log_call, fail_session, safe_dm,
}
use review_agent_v.Core.Dispatcher.Stages.{parsed, ended, emit_next_finding}
use review_agent_v.Pipeline.Extract.{extract}
use review_agent_v.Pipeline.Scan.{scan_dir}
use review_agent_v.Pipeline.Scan.Parse.{parse_findings}

abbrev dict_of : Json → Option Fields
dict_of (obj d) = some d
dict_of _ = none

-- session.stage in (SCANNING, SUBJECT_CONFIRMATION)
abbrev pub can_scan : Stage → Bool
can_scan Stage.scanning = true
can_scan Stage.subject_confirmation = true
can_scan _ = false

module _ (e : Env) where
  -- One call of the model in scan.run, and its findings.
  unfoldable pub ask_findings :
      Session → (normalized stage prefix : Text) → FindingSource → Act (List Finding)
  ask_findings s normalized stage prefix source = do
    answer ← chat e
    log_call s.id stage
    env ← parsed (extract e.loads answer)
    ts ← now e
    need (parse_findings e.upper e.sha256 normalized ts source prefix env)

  -- scan.run
  unfoldable pub scan_run : Session → Act (Unit {0})
  unfolding ask_findings
  scan_run s = do
    files ← files_of s.id
    normalized ← need files.normalized
    user_of s.responder_oid
    findings_a ←
        ask_findings s normalized (txt "scan_four_pillar") (txt "p") FindingSource.four_pillar
    findings_b ←
        ask_findings s normalized (txt "scan_responder_sim") (txt "r") FindingSource.responder_sim
    on_files s.id (scan_dir e.top_n (findings_a ++ findings_b))
    update s.id (λ r. record r { stage = Stage.qa_active })

  -- _do_scan
  unfoldable pub do_scan : Text → Act (Unit {0})
  unfolding scan_run
  do_scan sid = do
    s ← session_of sid
    if can_scan s.stage
        then (do
          update s.id (λ r. record r { stage = Stage.scanning })
          ended
              (try_llm (do scan_run s; pure true)
                (do fail_session s Stage.scanning (txt "scan"); pure false))
              (emit_next_finding e sid))
        else pure tt

  -- confirm_topic.propose
  unfoldable pub propose : Session → Act Fields
  propose s = do
    files ← files_of s.id
    need files.normalized
    user_of s.responder_oid
    answer ← chat e
    value ← parsed (extract e.loads answer)
    log_call s.id (txt "confirm_topic")
    env ← need (dict_of value)
    update s.id (λ r. record r {
      stage = Stage.subject_confirmation;
      meta = put "topic_candidates" (get_or "candidates" (arr nil) env) s.meta;
    })
    pure env

  -- What `_do_confirm_topic` sends.
  abbrev send_proposal : Session → Option Fields → Act (Unit {0})
  send_proposal s none = pure tt
  send_proposal s (some env) =
      safe_dm s.requester_oid
        (topic_proposal (get_or "im_message" (str (txt "我看到几个候选话题。回 a/b/c 或自己描述。")) env))

  -- _do_confirm_topic
  unfoldable pub do_confirm_topic : Text → Act (Unit {0})
  unfolding propose
  do_confirm_topic sid = do
    s ← session_of sid
    env ←
        try_llm (do env ← propose s; pure (some env))
          (do fail_session s Stage.subject_confirmation (txt "confirm_topic"); pure none)
    send_proposal s env
