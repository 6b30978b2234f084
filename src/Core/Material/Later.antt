-- ===== src/Core/Material/Later.antt =====
-- review_agent/core/dispatcher.py: new material in a session that is under way, and the whole of
-- `_handle_requester_in_session`.
pub mod Caught
use review_agent_v.Prelude.{
  Text, txt, text_eq, text_eq_iff, text_ne, String, ℕ, zero, suc, ◌+◌, ◌-◌, ◌*◌, ◌/◌, ◌%◌, ◌^◌, ◌≤◌,
  ◌<◌, min, ltb, leb, eqb, Bool, true, false, not, ◌&&◌, ◌||◌, Option, none, some, is_none, List,
  [], ◌∷◌, ◌++◌, length, take, drop, get_elem?, map, filter, any, all, find?, count, All,
  All-append, any-append, length-append, length-take, length-map, take-append-drop, take_all,
  drop_all, length-drop, if◌then◌else◌, is_space, starts_with, ends_with, contains, find_from,
  one_of, strip, lstrip, rstrip, rstrip_if, lstrip_if, ◌≡◌, ◌≢◌, refl, sym, ap, ◌∙◌, ◌⊎◌, ◌↔◌, inl,
  inr, arith, Bool-cases, Option-cases, ltb→lt, lt→ltb, leb→le, eqb_iff,
}
use review_agent_v.Core.Enums.{Stage, Intent}
use review_agent_v.Core.Models.{Session}
use review_agent_v.Core.Cursor.{empty}
use review_agent_v.Core.Storage.Findings.{save_cursor}
use review_agent_v.Core.Dispatcher.World
use review_agent_v.Core.Dispatcher.World.{
  Act, Notice, ◌>>=◌, ◌>>◌, pure, raise, on_files, update, safe_dm,
}
use review_agent_v.Core.Dispatcher.Scanning.{do_confirm_topic, do_scan}
use review_agent_v.Core.Dispatcher.CloseChain.{enqueue_close_chain}
use review_agent_v.Core.Dispatcher.Handlers.{
  handle_close_confirmation, qa_reply, subject_turn, busy_stage,
}
use review_agent_v.Core.Material.Reading.{Desk, try_read, write_normalized}
use review_agent_v.Core.Material.Supplement.{append_supplementary, is_blank, is_attachment}
use review_agent_v.Core.Material.Gate.{handle_material_confirm}
use review_agent_v.Lark.Message.{IncomingMessage}
use review_agent_v.Pipeline.Intents.{parse_reply_intent}
use review_agent_v.Pipeline.Ingest.Result.{Ingest, accepted, rejected, raised}
use review_agent_v.Pipeline.Ingest.Urls.{extract_lark_urls, extract_urls_simple}
use review_agent_v.Pipeline.Ingest.Fetch.{fetch_lark_urls, scrape_urls}

-- How a text looks at SUBJECT_CONFIRMATION and in the questions: links to documents, other links, more
-- than 300 characters, or none of these.
pub data Looks : Type 0 where
  documents : List (Text × (Text × Text)) → Looks
  pages : List Text → Looks
  long_text reply : Looks

unfoldable pub looks_of : Text → Looks
unfolding extract_lark_urls extract_urls_simple strip
looks_of text = elim (extract_lark_urls text) [
  | u ∷ us ↦ documents (u ∷ us)
  | [] ↦ elim (extract_urls_simple text) [
    | u ∷ us ↦ pages (u ∷ us)
    | [] ↦ if ltb 300 (length (strip text)) then long_text else reply
  ]
]

-- lark_urls or web_urls or is_long
abbrev is_material : Looks → Bool
is_material reply = false
is_material _ = true

module _ (desk : Desk) where
  -- The new material is written and its topics are proposed.
  unfoldable pub reread : (oid : Text) → Session → Notice → Text → Act Bool
  reread oid s notice t = do
    write_normalized s.id t
    safe_dm oid notice
    update s.id (λ r. record r { subject = none; stage = Stage.subject_confirmation })
    do_confirm_topic desk.env s.id
    pure true

  -- No caller catches an IngestRejected here.
  abbrev pub reread_fetched : (oid : Text) → Session → Notice → Ingest Text → Act Bool
  reread_fetched oid s notice (accepted t) = reread oid s notice t
  reread_fetched oid s notice (rejected m) = raise
  reread_fetched oid s notice (raised m) = raise

  abbrev pub reread_as : (oid : Text) → Session → (text : Text) → Looks → Act Bool
  reread_as oid s text (documents us) =
      reread_fetched oid s (World.docs_reread (length us)) (fetch_lark_urls desk.web us)
  reread_as oid s text (pages us) =
      reread_fetched oid s (World.pages_reread (length us)) (scrape_urls desk.web us)
  reread_as oid s text long_text = reread oid s World.text_reread text
  reread_as oid s text reply = pure false

  -- _maybe_reingest_at_subject_confirmation
  unfoldable pub maybe_reingest : (oid : Text) → Session → (text : Text) → Act Bool
  unfolding looks_of reread
  maybe_reingest oid s text = reread_as oid s text (looks_of text)

  -- _kickoff_rescan_after_supplement
  unfoldable pub kickoff_rescan : (oid : Text) → Session → Act (Unit {0})
  kickoff_rescan oid s = do
    on_files s.id (save_cursor empty)
    update s.id (λ r. record r { stage = Stage.scanning; round_no = s.round_no + 1 })
    safe_dm oid World.supplement_merged
    do_scan desk.env s.id

  -- The last part of `_maybe_supplement_during_qa`, the same for attachments and texts.
  unfoldable pub supplement_then_rescan : (oid : Text) → Session → IncomingMessage → Act Bool
  unfolding append_supplementary kickoff_rescan
  supplement_then_rescan oid s msg =
      try_read (append_supplementary desk s msg)
        (λ m. do safe_dm oid (World.rejection m); pure true)
        λ added. if added then (do kickoff_rescan oid s; pure true) else pure false

  -- _maybe_supplement_during_qa
  unfoldable pub maybe_supplement : (oid : Text) → Session → IncomingMessage → Act Bool
  unfolding supplement_then_rescan looks_of strip is_attachment
  maybe_supplement oid s msg =
      if is_attachment msg || is_material (looks_of (strip msg.content_text))
      then supplement_then_rescan oid s msg
      else pure false

  abbrev pub unless_handled : Act Bool → Act (Unit {0}) → Act (Unit {0})
  unless_handled check rest = do handled ← check; if handled then pure tt else rest

  -- The part for SUBJECT_CONFIRMATION.
  unfoldable pub in_subject : (oid : Text) → Session → IncomingMessage → Act (Unit {0})
  unfolding maybe_reingest subject_turn one_of is_blank
  in_subject oid s msg =
      if one_of msg.msg_type (txt "text" ∷ txt "post" ∷ []) && not (is_blank msg.content_text)
      then unless_handled (maybe_reingest oid s msg.content_text)
          (subject_turn desk.env oid s msg.content_text)
      else subject_turn desk.env oid s msg.content_text

  -- The part for QA_ACTIVE and QA_ACTIVE_REOPENED.
  unfoldable pub in_questions : (oid : Text) → Session → IncomingMessage → Act (Unit {0})
  unfolding maybe_supplement qa_reply
  in_questions oid s msg = do
    update s.id (λ r. record r { stage = Stage.qa_active })
    unless_handled (maybe_supplement oid s msg) (qa_reply desk.env oid s msg.content_text)

  abbrev pub other_by : (oid : Text) → Session → Intent → Act (Unit {0})
  other_by oid s Intent.accept = enqueue_close_chain desk.env s.id false
  other_by oid s Intent.done = enqueue_close_chain desk.env s.id false
  other_by oid s _ = safe_dm oid (World.waiting s.stage)

  -- The part for any other stage.
  unfoldable pub in_other_stage : (oid : Text) → Session → (text : Text) → Act (Unit {0})
  in_other_stage oid s text =
      other_by oid s (parse_reply_intent desk.env.lower text (txt "qa_loop")).0

  -- The parts, by the stage.
  abbrev pub in_stage : (oid : Text) → Session → IncomingMessage → Stage → Act (Unit {0})
  in_stage oid s msg Stage.awaiting_material_confirm = handle_material_confirm desk oid s msg
  in_stage oid s msg Stage.subject_confirmation = in_subject oid s msg
  in_stage oid s msg Stage.qa_active = in_questions oid s msg
  in_stage oid s msg Stage.qa_active_reopened = in_questions oid s msg
  in_stage oid s msg Stage.awaiting_close_confirmation =
      handle_close_confirmation desk.env oid s msg.content_text
  in_stage oid s msg _ = busy_stage desk.env oid s (in_other_stage oid s msg.content_text)

  -- _handle_requester_in_session
  unfoldable pub handle_in_session : (oid : Text) → Session → IncomingMessage → Act (Unit {0})
  unfolding in_subject in_questions in_other_stage handle_material_confirm handle_close_confirmation
      busy_stage
  handle_in_session oid s msg = in_stage oid s msg s.stage
