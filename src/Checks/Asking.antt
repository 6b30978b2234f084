-- ===== src/Checks/Asking.antt =====
-- The theorems on the questions and the replies, at concrete values.
use mathlib.Core.List.{Perm}
use review_agent_v.Core.Enums.{
  source_value, status_value, Severity, FindingSource, pillar_value, severity_value,
}
use review_agent_v.Prelude.{
  if◌then◌else◌, all, map, txt, Text, text_ne, ◌≡◌, ◌≢◌, ◌≤◌, none, some, ◌||◌, [], ◌∷◌, refl, List,
  ap, All, take, drop, true, false, Option, length, text_eq,
}
use review_agent_v.Pipeline.QaLoop.{
  find_in, handle_reply, find_row, nothing, emit_row, emit_next, outcome, no_text, reopen_dir,
  reply_by, reply_current, reply_to, record_answer, move_on,
}
use review_agent_v.Core.Models.{to_jsonl, Finding}
use review_agent_v.Core.Storage.Findings.{
  is_one_line, breaks_fields, load_cursor, load_findings, log_conversation, load_cursor-save_cursor,
}
use review_agent_v.Prelude.Json.{Json, str, obj, num, pos, end, field, get, get_or, truthy, is_text}
use review_agent_v.Core.Cursor.{Cursor, advance, is_in}
use review_agent_v.Core.Cursor.Conserve.{ids}
use review_agent_v.Core.Cursor.Dict.{from_dict, to_dict}
use review_agent_v.Pipeline.Intents.{parse_reply_intent, parser}
use review_agent_v.Pipeline.Intents.ByStage.{is_answer, is_pick, intent_by_stage}
use review_agent_v.Pipeline.QaLoop.Emit.{emit_next_has_current}
use review_agent_v.Pipeline.QaLoop.Reopen.{reopen_asks}
use review_agent_v.Pipeline.Scan.{
  sev_order, sort_by_key, scan_dir, finding_ids, scan_cursor, prioritize, insert_by_key, key_lt,
}
use review_agent_v.Pipeline.Scan.Asked.{asked, scan_asks_most_severe, rescan_sends_old_row}
use review_agent_v.Pipeline.Scan.Parse.{
  parse_items, parse_item, parse_fields, ◌>>=◌, subscript, pillar_of, severity_of, anchor_of,
  snippet_of, quoted, line_range_of, hash_of, id_of, priority_of, show, digits,
}
use review_agent_v.Pipeline.Scan.Parse.Laws.{IsFresh, parse_items-IsFresh}
use review_agent_v.Checks.Samples.{finding, files, lower, upper}

abbrev found_rows : List Finding
found_rows = finding (txt "p2") Severity.improvement ∷ finding (txt "p1") Severity.blocker ∷ []

scan_asks_most_severe_example :
    (sorted : List Finding) × Perm sorted found_rows
    × (asked (load_cursor (scan_dir 1 found_rows files)) ≡ finding_ids (take 1 sorted))
    × ((load_cursor (scan_dir 1 found_rows files)).deferred ≡ finding_ids (drop 1 sorted))
    × All
        (λ f. All (λ g. sev_order f.severity ≤ sev_order g.severity) (drop 1 sorted))
        (take 1 sorted)
scan_asks_most_severe_example = scan_asks_most_severe 1 found_rows files

p1_asked : (load_cursor (scan_dir 1 found_rows files)).current_id ≡ some (txt "p1")
unfolding scan_dir scan_cursor prioritize sort_by_key insert_by_key key_lt sev_order
p1_asked =
    ap (λ (c : Cursor). c.current_id)
      (load_cursor-save_cursor (scan_cursor 1 (prioritize found_rows)) _)

p1_there : find_in (txt "p1") (load_findings files) ≢ nothing
unfolding load_findings find_row get is_text text_eq
p1_there h = cc

one_lines : all is_one_line (map to_jsonl found_rows) ≡ true
unfolding to_jsonl breaks_fields source_value pillar_value severity_value status_value
one_lines = refl

rescan_sends_old_row_example :
    emit_row (scan_dir 1 found_rows files) ≡ find_in (txt "p1") (load_findings files)
rescan_sends_old_row_example =
    rescan_sends_old_row 1 found_rows files (txt "p1") one_lines p1_asked p1_there

reopen_asks_example :
    ((load_cursor (reopen_dir (txt "r1" ∷ []) files)).current_id ≢ none)
    × ((load_cursor (reopen_dir (txt "r1" ∷ []) files)).regression_rescan ≡ true)
    × ((x : Text)
        → x ≢ []
        → is_in x (ids (load_cursor (reopen_dir (txt "r1" ∷ []) files)))
          ≡ (is_in x (txt "r1" ∷ []) || is_in x (ids (load_cursor files))))
reopen_asks_example = reopen_asks (txt "r1") [] files

intent_by_stage_example :
    (is_answer (parse_reply_intent lower (txt "A") (txt "subject_confirmation")).0 ≡ false)
    × ((stage : Text)
        → stage ≢ txt "subject_confirmation"
        → is_pick (parse_reply_intent lower (txt "A") stage).0 ≡ false)
intent_by_stage_example = intent_by_stage lower (txt "A")

not_subject : txt "qa_loop" ≢ txt "subject_confirmation"
unfolding text_eq
not_subject = text_ne (txt "qa_loop") (txt "subject_confirmation") refl

abbrev ok_reply : Text
ok_reply = txt "ok fine"

ok_goes_on :
    (handle_reply lower ok_reply (txt "t1") (txt "t2") 5 files).0
    ≡ some (outcome emit_next no_text true)
unfolding parser handle_reply reply_by reply_current reply_to record_answer move_on load_cursor
    from_dict to_dict get_or get truthy advance load_findings find_row is_text log_conversation
ok_goes_on = refl

emit_next_has_current_example :
    (load_cursor (handle_reply lower ok_reply (txt "t1") (txt "t2") 5 files).1).current_id ≢ none
emit_next_has_current_example =
    emit_next_has_current lower ok_reply (txt "t1") (txt "t2") 5 files
      (outcome emit_next no_text true) ok_goes_on refl

abbrev one : Json
one = num (pos 1)

-- A parser of JSON that knows one text.
abbrev loads : Text → Option Json
loads s = if text_eq s (txt "[1]") then some one else none

-- Words around the value, and a comma at its end.
abbrev wordy : Text
wordy = txt "So: [1,] it is."

abbrev item : Json
item = obj (
    field "pillar" (str (txt "Intent")) (
      field "severity" (str (txt "blocker"))
        (field "issue" (str (txt "why")) (field "suggest" (str (txt "say why")) end))))

abbrev sha256 : Text → Text
sha256 s = s

item_parsed :
    parse_items upper sha256
      (txt "plan")
      (txt "t0")
      FindingSource.four_pillar
      (txt "p")
      1
      (item ∷ [])
    ≡ some (finding (txt "p1") Severity.blocker ∷ [])
unfolding parse_items parse_item parse_fields ◌>>=◌ subscript pillar_of severity_of anchor_of
    snippet_of quoted line_range_of hash_of id_of priority_of show digits get get_or truthy text_eq
    pillar_value severity_value
item_parsed = refl

parse_items-IsFresh_example :
    All
      (IsFresh upper sha256 (txt "plan") (txt "t0") FindingSource.four_pillar b'p' [])
      (finding (txt "p1") Severity.blocker ∷ [])
    × (length (finding (txt "p1") Severity.blocker ∷ []) ≤ length (item ∷ []))
parse_items-IsFresh_example =
    parse_items-IsFresh upper sha256 (txt "plan") (txt "t0") FindingSource.four_pillar b'p' [] 1
      (item ∷ []) (finding (txt "p1") Severity.blocker ∷ []) item_parsed
