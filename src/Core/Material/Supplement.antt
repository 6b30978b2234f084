-- ===== src/Core/Material/Supplement.antt =====
-- review_agent/core/dispatcher.py: `_append_supplementary_material` and `_do_append_to_normalized`.
pub mod Appends
pub mod Replaces
use review_agent_v.Prelude.{
  Text, txt, text_eq, text_eq_iff, text_ne, String, ℕ, zero, suc, ◌+◌, ◌-◌, ◌*◌, ◌/◌, ◌%◌, ◌^◌, ◌≤◌,
  ◌<◌, min, ltb, leb, eqb, Bool, true, false, not, ◌&&◌, ◌||◌, Option, none, some, is_none, List,
  [], ◌∷◌, ◌++◌, length, take, drop, get_elem?, map, filter, any, all, find?, count, All,
  All-append, any-append, length-append, length-take, length-map, take-append-drop, take_all,
  drop_all, length-drop, if◌then◌else◌, is_space, starts_with, ends_with, contains, find_from,
  one_of, strip, lstrip, rstrip, rstrip_if, lstrip_if, ◌≡◌, ◌≢◌, refl, sym, ap, ◌∙◌, ◌⊎◌, ◌↔◌, inl,
  inr, arith, Bool-cases, Option-cases, ltb→lt, lt→ltb, leb→le, eqb_iff,
}
use review_agent_v.Core.Storage.Tables.{Dir}
use review_agent_v.Core.Storage.Sessions.{dir, on_dir}
use review_agent_v.Core.Models.{Session}
use review_agent_v.Core.Material.Reading.{Desk, Reading, ◌>>=◌, ◌>>◌, read, reading, time, written}
use review_agent_v.Lark.Message.{IncomingMessage}
use review_agent_v.Pipeline.Ingest.Result.{Ingest, accepted, rejected, raised}
use review_agent_v.Pipeline.Ingest.Urls.{extract_lark_urls, extract_urls_simple}
use review_agent_v.Pipeline.Ingest.Fetch.{fetch_lark_urls, scrape_urls}
use review_agent_v.Pipeline.Ingest.Files.{Bytes, run_pipeline}
use review_agent_v.Util.FileMagic.{detect_image_ext, detect_audio_ext, detect_file_ext}

-- not t or not t.strip()
unfoldable pub is_blank : Text → Bool
unfolding strip
is_blank t = elim (strip t) [ [] ↦ true | c ∷ s ↦ false ]

-- "\n\n---\n\n[补充材料]\n\n"
abbrev pub supplement_mark : Text
supplement_mark = 10 ∷ 10 ∷ txt "---" ++ 10 ∷ 10 ∷ txt "[补充材料]" ++ 10 ∷ 10 ∷ []

abbrev pub merged : (replace : Bool) → (block : Text) → Option Text → Option Text
merged replace block none = some block
merged true block (some existing) = some block
merged false block (some existing) =
    if contains existing (strip block)
    then none
    else some (rstrip existing ++ supplement_mark ++ block)

abbrev pub put_merged : Option Text → Dir → Bool × Dir
put_merged none d = (false, d)
put_merged (some t) d = (true, record d { normalized = some t })

-- _do_append_to_normalized
unfoldable pub append_to_normalized : (replace : Bool) → (block : Text) → Dir → Bool × Dir
unfolding is_blank strip contains rstrip
append_to_normalized replace block d =
    if is_blank block then (false, d) else put_merged (merged replace block d.normalized) d

abbrev pub append_block : (sid block : Text) → Reading Bool
append_block sid block w =
    let (added, d) = append_to_normalized false block (dir sid w.storage) in
    (accepted added, record w { storage = on_dir sid (λ _. d) w.storage })

-- s.replace(":", "")
unfoldable pub without_colons : Text → Text
without_colons [] = []
without_colons (c ∷ s) = if eqb c 58 then without_colons s else c ∷ without_colons s

abbrev ext_or : (guess : Text) → (ext : Text) → Text
ext_or guess ext = if text_eq ext (txt ".bin") then guess else ext

-- The extension for an attachment of the kind.
unfoldable pub attachment_ext : (kind : Text) → Bytes → Text
unfolding detect_image_ext detect_audio_ext detect_file_ext text_eq
attachment_ext kind raw =
    if text_eq kind (txt "image")
    then ext_or (txt ".png") (detect_image_ext raw)
    else if text_eq kind (txt "audio")
    then ext_or (txt ".ogg") (detect_audio_ext raw)
    else detect_file_ext raw

-- `except IngestRejected: raise` / `except Exception: return False`
abbrev or_false : Ingest Bool → Ingest Bool
or_false (accepted b) = accepted b
or_false (rejected m) = rejected m
or_false (raised m) = accepted false

-- The new text, which is in normalized.md when it is appended.
abbrev pub added_file : (sid : Text) → Ingest Text → Reading Bool
added_file sid (rejected m) = reading (rejected m)
added_file sid (raised m) = read false
added_file sid (accepted t) = do written sid t; append_block sid t

-- msg.msg_type in ("image", "file", "audio") and msg.file_key
unfoldable pub is_attachment : IncomingMessage → Bool
unfolding one_of text_eq
is_attachment msg =
    one_of msg.msg_type (txt "image" ∷ txt "file" ∷ txt "audio" ∷ [])
    && not (text_eq msg.file_key [])

module _ (desk : Desk) where
  abbrev pub added_download : (sid kind : Text) → Option Bytes → Reading Bool
  added_download sid kind none = read false
  added_download sid kind (some raw) = do
    ts ← time desk.env
    added_file sid (
        run_pipeline desk.web desk.tools
          (without_colons ts ++ txt "_supplement" ++ attachment_ext kind raw) raw)

  -- The part for an attachment.
  unfoldable pub supplement_file : Session → IncomingMessage → Reading Bool
  unfolding run_pipeline without_colons attachment_ext append_to_normalized
  supplement_file s msg =
      added_download s.id msg.msg_type (desk.download msg.message_id msg.file_key msg.msg_type)

  -- The block by the links of the text.
  abbrev pub block_by :
      (text : Text) → (documents : List (Text × (Text × Text))) → (pages : List Text) → Ingest Text
  block_by text (u ∷ us) pages = fetch_lark_urls desk.web (u ∷ us)
  block_by text [] (u ∷ us) = scrape_urls desk.web (u ∷ us)
  block_by text [] [] = accepted (if leb 10 (length text) then text else [])

  -- The block that a message in words adds, if any.
  unfoldable pub supplement_block : (text : Text) → Ingest Text
  unfolding extract_lark_urls extract_urls_simple fetch_lark_urls scrape_urls
  supplement_block text = block_by text (extract_lark_urls text) (extract_urls_simple text)

  -- _append_supplementary_material: an empty block adds nothing.
  unfoldable pub append_supplementary : Session → IncomingMessage → Reading Bool
  unfolding is_attachment supplement_file supplement_block append_to_normalized strip one_of
  append_supplementary s msg =
      let text = strip msg.content_text in
      if text_eq text [] && text_eq msg.file_key []
      then read false
      else if is_attachment msg
      then supplement_file s msg
      else (do block ← reading (supplement_block text); append_block s.id block)
