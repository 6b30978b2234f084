-- ===== src/Core/Material/Intake.antt =====
-- review_agent/core/dispatcher.py: `_save_and_ingest_multimodal`, what a first message gives to review.
use mathlib.Core.List.{reverse}
use review_agent_v.Prelude.{
  Text, txt, text_eq, eqb, Bool, true, false, not, ◌&&◌, Option, none, some, [], ◌∷◌, ◌++◌,
  if◌then◌else◌, one_of,
}
use review_agent_v.Prelude.Json.{Json, str, obj, get, truthy}
use review_agent_v.Core.Models.{Session}
use review_agent_v.Core.Dispatcher.World
use review_agent_v.Core.Material.Reading.{
  Desk, Reading, ◌>>=◌, ◌>>◌, read, reading, required, tell, time, written,
}
use review_agent_v.Core.Material.Supplement.{is_blank, without_colons, attachment_ext}
use review_agent_v.Lark.Message.{IncomingMessage}
use review_agent_v.Pipeline.Ingest.Result.{Ingest, accepted}
use review_agent_v.Pipeline.Ingest.Urls.{
  extract_lark_urls, extract_bitable_urls, extract_sheet_urls, extract_youtube_urls,
  extract_urls_simple,
}
use review_agent_v.Pipeline.Ingest.Fetch.{
  fetch_lark_urls, fetch_bitable_urls, fetch_sheet_urls, fetch_video_urls, scrape_urls,
}
use review_agent_v.Pipeline.Ingest.Formats.{stem_suffix}
use review_agent_v.Pipeline.Ingest.Files.{Bytes, run_pipeline}
use review_agent_v.Util.FileMagic.{detect_file_ext}

abbrev or_bin : Text → Text
or_bin [] = txt ".bin"
or_bin (c ∷ ext) = c ∷ ext

-- The last part of a path; `cur` is the part that is being read, from its end.
abbrev pub part_or : (cur best : Text) → Text
part_or [] best = best
part_or (c ∷ cur) best = if text_eq (c ∷ cur) (txt ".") then best else c ∷ cur

-- Path(fname).name, from its end to its start
unfoldable pub path_name : (cur best : Text) → Text → Text
path_name cur best [] = part_or cur best
path_name cur best (c ∷ s) =
    if eqb c 47 then path_name [] (part_or cur best) s else path_name (c ∷ cur) best s

-- Path(fname).suffix or ".bin"; an empty name gives ".bin" too.
abbrev suffix_or_bin : Text → Text
suffix_or_bin name = or_bin (stem_suffix (reverse (path_name [] [] name))).1

-- `if fname`, for a value that need not be a text; another that is not false has no path.
abbrev ext_of_name : Option Json → Option Text
ext_of_name none = some (txt ".bin")
ext_of_name (some (str name)) = some (suffix_or_bin name)
ext_of_name (some v) = if truthy v then none else some (txt ".bin")

abbrev ext_of_parsed : Option Json → Option Text
ext_of_parsed none = some (txt ".bin")
ext_of_parsed (some (obj fields)) = ext_of_name (get "file_name" fields)
ext_of_parsed (some v) = none

-- _guess_ext_from_content_raw; `none` is an exception that it lets through.
unfoldable pub guess_ext : (loads : Text → Option Json) → (content_raw : Text) → Option Text
unfolding path_name stem_suffix
guess_ext loads content_raw = ext_of_parsed (loads content_raw)

-- The extension of a file whose name tells none.
abbrev file_ext : (guessed : Text) → Bytes → Text
file_ext guessed raw =
    if one_of guessed ([] ∷ txt ".bin" ∷ []) then detect_file_ext raw else guessed

-- Text; an image or a voice message; a file; anything else.
pub data Holds : Type 0 where
  words attachment document something_else : Holds

-- The conditions of `_save_and_ingest_multimodal`, in their order.
unfoldable pub holds : IncomingMessage → Holds
unfolding is_blank one_of text_eq
holds msg =
    if one_of msg.msg_type (txt "text" ∷ txt "post" ∷ []) && not (is_blank msg.content_text)
    then words
    else if one_of msg.msg_type (txt "image" ∷ txt "audio" ∷ []) && not (text_eq msg.file_key [])
    then attachment
    else if text_eq msg.msg_type (txt "file") && not (text_eq msg.file_key [])
    then document
    else something_else

module _ (desk : Desk) where
  -- The links of a text, by the first kind that it has; none where it has no link.
  unfoldable pub fetch_links : (text : Text) → Option (Ingest Text)
  unfolding extract_lark_urls extract_bitable_urls extract_sheet_urls extract_youtube_urls
      extract_urls_simple fetch_lark_urls fetch_bitable_urls fetch_sheet_urls fetch_video_urls
      scrape_urls
  fetch_links text = elim (extract_lark_urls text) [
    | u ∷ us ↦ some (fetch_lark_urls desk.web (u ∷ us))
    | [] ↦ elim (extract_bitable_urls text) [
      | u ∷ us ↦ some (fetch_bitable_urls desk.web (u ∷ us))
      | [] ↦ elim (extract_sheet_urls text) [
        | u ∷ us ↦ some (fetch_sheet_urls desk.web (u ∷ us))
        | [] ↦ elim (extract_youtube_urls text) [
          | u ∷ us ↦ some (fetch_video_urls desk.web (u ∷ us))
          | [] ↦ elim (extract_urls_simple text) [
            | u ∷ us ↦ some (scrape_urls desk.web (u ∷ us))
            | [] ↦ none
          ]
        ]
      ]
    ]
  ]

  -- The file for a text without links.
  unfoldable pub plain_text : (iso text : Text) → Ingest Text
  unfolding run_pipeline
  plain_text iso text =
      run_pipeline desk.web desk.tools (iso ++ txt "_text.md") (desk.tools.encode text)

  abbrev pub links_or_plain : (iso text : Text) → Option (Ingest Text) → Ingest Text
  links_or_plain iso text (some fetched) = fetched
  links_or_plain iso text none = plain_text iso text

  abbrev pub ingest_into : (sid : Text) → Ingest Text → Reading Bool
  ingest_into sid r = do t ← reading r; written sid t; read true

  -- The part for an image or an audio message.
  unfoldable pub ingest_attachment : Session → IncomingMessage → (iso : Text) → Reading Bool
  unfolding attachment_ext run_pipeline
  ingest_attachment s msg iso = do
    raw ← required (desk.download msg.message_id msg.file_key msg.msg_type)
    ingest_into s.id (
        run_pipeline desk.web desk.tools
          (iso ++ txt "_" ++ msg.msg_type ++ attachment_ext msg.msg_type raw) raw)

  -- `except Exception`, which takes an IngestRejected too
  abbrev pub file_or_refuse : (oid sid ext : Text) → Ingest Text → Reading Bool
  file_or_refuse oid sid ext (accepted t) = do written sid t; read true
  file_or_refuse oid sid ext r = do tell oid (World.file_refused ext); read false

  -- The part for a file.
  unfoldable pub ingest_document :
      (oid : Text) → Session → IncomingMessage → (iso : Text) → Reading Bool
  unfolding guess_ext detect_file_ext run_pipeline one_of
  ingest_document oid s msg iso = do
    raw ← required (desk.download msg.message_id msg.file_key (txt "file"))
    guessed ← required (guess_ext desk.env.loads msg.content_raw)
    let ext = file_ext guessed raw
    file_or_refuse oid s.id ext (run_pipeline desk.web desk.tools (iso ++ txt "_file" ++ ext) raw)

  -- The parts, by what the message holds.
  unfoldable pub ingest_as :
      (oid : Text) → Session → IncomingMessage → (iso : Text) → Holds → Reading Bool
  unfolding fetch_links plain_text ingest_attachment ingest_document
  ingest_as oid s msg iso words =
      ingest_into s.id (links_or_plain iso msg.content_text (fetch_links msg.content_text))
  ingest_as oid s msg iso attachment = ingest_attachment s msg iso
  ingest_as oid s msg iso document = ingest_document oid s msg iso
  ingest_as oid s msg iso something_else = do tell oid (World.type_refused msg.msg_type); read false

  -- _save_and_ingest_multimodal
  unfoldable pub save_and_ingest : (oid : Text) → Session → IncomingMessage → Reading Bool
  unfolding without_colons ingest_as holds
  save_and_ingest oid s msg = do
    ts ← time desk.env
    ingest_as oid s msg (without_colons ts) (holds msg)
