-- ===== src/Pipeline/Ingest/Files.antt =====
-- review_agent/pipeline/ingest.py, `IngestPipeline.run`, and the backends that read files: text.py,
-- pdf.py, image.py and audio.py. What the programs and services outside give for a file is a parameter.
pub mod Handled
use review_agent_v.Prelude.{
  Text, txt, text_eq, text_eq_iff, text_ne, String, ℕ, zero, suc, ◌+◌, ◌-◌, ◌*◌, ◌/◌, ◌%◌, ◌^◌, ◌≤◌,
  ◌<◌, min, ltb, leb, eqb, Bool, true, false, not, ◌&&◌, ◌||◌, Option, none, some, is_none, List,
  [], ◌∷◌, ◌++◌, length, take, drop, get_elem?, map, filter, any, all, find?, count, All,
  All-append, any-append, length-append, length-take, length-map, take-append-drop, take_all,
  drop_all, length-drop, if◌then◌else◌, is_space, starts_with, ends_with, contains, find_from,
  one_of, strip, lstrip, rstrip, rstrip_if, lstrip_if, ◌≡◌, ◌≢◌, refl, sym, ap, ◌∙◌, ◌⊎◌, ◌↔◌, inl,
  inr, arith, Bool-cases, Option-cases, ltb→lt, lt→ltb, leb→le, eqb_iff,
}
use review_agent_v.Pipeline.Deliver.Backends.{join}
use review_agent_v.Pipeline.Ingest.Formats
use review_agent_v.Pipeline.Ingest.Formats.{
  FileBackend, text, pdf, image, audio, web_page, stem_suffix, validate_size, can_handle,
}
use review_agent_v.Pipeline.Ingest.Result.{Ingest, accepted, rejected, raised, ◌>>=◌, ◌>>◌}
use review_agent_v.Pipeline.Ingest.Urls.{web_links, first_of_each}
use review_agent_v.Pipeline.Ingest.Fetch.{Web, scrape_urls}

abbrev pub Bytes : Type 0
Bytes = List ℕ

-- The programs and services. `none` stands for a program that is not there.
pub record Tools : Type 0 where
  -- mimetypes.guess_type(…) or ""
  pub guess_mime : Text → Text
  pub lower : Text → Text
  pub encode : Text → Bytes
  pub read_text : Bytes → Text
  -- what it prints, where it ends well and prints something
  pub pdftotext : Bytes → Option Text
  pub pdfminer : Bytes → Option (Ingest Text)
  pub tesseract : Bytes → Option Text
  -- the lines it prints, none where it fails
  pub whisper_cpp : Bytes → Option (List Text)
  pub whisper : Bytes → Option (Ingest Text)
  pub gemini_image : Option (Bytes → Ingest Text)
  pub openai_image : Option (Bytes → Ingest Text)
  pub gemini_audio : Option (Bytes → Ingest Text)
  pub openai_audio : Option (Bytes → Ingest Text)

-- `_prepend_meta` of image.py and audio.py
unfoldable pub image_meta : (name body : Text) → Text
image_meta name body =
    txt "[📎 图片已通过 OCR 提取: *" ++ (stem_suffix name).0 ++ txt "*]" ++ 10 ∷ 10 ∷ body

unfoldable pub audio_meta : (name body : Text) → Text
audio_meta name body = txt "[🎤 语音消息已转文字: *" ++ (stem_suffix name).0 ++ txt "*]" ++ 10 ∷ 10 ∷ body

abbrev is_blank : Text → Bool
is_blank t = elim (strip t) [ [] ↦ true | c ∷ s ↦ false ]

-- The text that a service gives, unless it is blank.
abbrev unless_blank : (message : Text) → (Text → Text) → Text → Ingest Text
unless_blank message f t = if is_blank t then rejected message else accepted (f t)

abbrev mined : Option (Ingest Text) → Ingest Text → Ingest Text
mined none last = last
mined (some answer) last = do t ← answer; if is_blank t then last else accepted t

-- PdfBackend, after the size is checked.
abbrev read_pdf : Tools → Bytes → Ingest Text
read_pdf tools raw = elim (tools.pdftotext raw) [
  | some t ↦ accepted t
  | none ↦
      mined (tools.pdfminer raw)
        (rejected (txt "PDF 解析没装（pdftotext / pdfminer.six 都没找到）。你直接贴正文给我也行。"))
]

-- ImageBackend: the services in their order, where the OCR gave nothing.
abbrev by_image_service :
    (gemini openai : Option (Bytes → Ingest Text)) → (name : Text) → Bytes → Ingest Text
by_image_service (some gemini) openai name raw = do
  t ← gemini raw
  unless_blank (txt "Gemini Vision 没识别到内容。可能是空白图或纯装饰图。") (image_meta name) t
by_image_service none (some openai) name raw = do
  t ← openai raw
  unless_blank (txt "OpenAI Vision 没识别到内容。可能是空白图或纯装饰图。") (image_meta name) t
by_image_service none none name raw = rejected (
    txt
      "OCR 没装 tesseract，也没有 GEMINI_API_KEY / OPENAI_API_KEY 做 vision 兜底。让 admin 跑 `review-agent install-multimodal` 一键装本地 OCR，或在 secrets.env 里填 GEMINI_API_KEY 或 OPENAI_API_KEY。当前你直接贴正文给我也行。")

abbrev read_image : Tools → (name : Text) → Bytes → Ingest Text
read_image tools name raw = elim (tools.tesseract raw) [
  | some (c ∷ t) ↦ accepted (image_meta name (c ∷ t))
  | _ ↦ by_image_service tools.gemini_image tools.openai_image name raw
]

-- The lines of `_run_whisper_cpp` that are kept.
unfoldable pub speech_lines : List Text → List Text
unfolding strip starts_with
speech_lines [] = []
speech_lines (line ∷ lines) =
    let kept = strip line in
    let rest = speech_lines lines in
    if is_blank line || starts_with kept (txt "[") then rest else kept ∷ rest

-- The text of a service for speech.
abbrev speech : (message name : Text) → (silent : List Text) → Text → Ingest Text
speech message name silent t =
    if is_blank t || one_of (strip t) silent
    then rejected message
    else accepted (audio_meta name (strip t))

-- AudioBackend: what comes after whisper.cpp, in its order.
abbrev by_audio_service : Tools → (name : Text) → Bytes → Ingest Text
by_audio_service tools name raw = elim (tools.whisper raw) [
  | some answer ↦ (do t ← answer; speech (txt "语音转文字返回空。试试重发或换格式（OGG/M4A/MP3）。") name [] t)
  | none ↦ elim tools.gemini_audio [
    | some gemini ↦ (do
      t ← gemini raw
      speech (txt "Gemini 没识别到语音内容。可能太短或全静音。") name (txt "[no speech detected]" ∷ []) t)
    | none ↦ elim tools.openai_audio [
      | some openai ↦ (do t ← openai raw; speech (txt "Whisper API 返回空。语音可能太短或全静音。") name [] t)
      | none ↦ rejected (
          txt
            "语音转文字没装（whisper-cpp / openai-whisper / GEMINI_API_KEY / OPENAI_API_KEY 都没有）。让 admin 跑 `review-agent install-multimodal` 一键装本地 whisper，或在 secrets.env 里填 GEMINI_API_KEY 或 OPENAI_API_KEY。当前你直接贴文字给我也行。")
    ]
  ]
]

abbrev by_whisper_cpp : Text → Ingest Text → Text → Ingest Text
by_whisper_cpp name next [] = next
by_whisper_cpp name next (c ∷ t) = accepted (audio_meta name (c ∷ t))

abbrev read_audio : Tools → (name : Text) → Bytes → Ingest Text
read_audio tools name raw = elim (tools.whisper_cpp raw) [
  | none ↦ by_audio_service tools name raw
  | some lines ↦
      by_whisper_cpp name (by_audio_service tools name raw)
        (strip (join (10 ∷ []) (speech_lines lines)))
]

abbrev scrape_some : Web → List Text → Ingest Text
scrape_some web [] = rejected (txt "没在内容里找到 URL，请贴正文给我。")
scrape_some web (u ∷ us) = scrape_urls web (u ∷ us)

-- WebScrapBackend.ingest, with `_extract_urls`
unfoldable pub read_links : Web → Text → Ingest Text
unfolding scrape_urls web_links first_of_each strip
read_links web content = scrape_some web (first_of_each (λ u. u) [] (web_links (strip content)))

-- `backend.ingest`, for the file's name and bytes
unfoldable pub ingest_file : Web → Tools → FileBackend → (name : Text) → Bytes → Ingest Text
unfolding read_links validate_size speech_lines image_meta audio_meta strip join
ingest_file web tools text name raw = do
  validate_size text (length raw)
  accepted (tools.read_text raw)
ingest_file web tools pdf name raw = do validate_size pdf (length raw); read_pdf tools raw
ingest_file web tools image name raw = do
  validate_size image (length raw)
  read_image tools name raw
ingest_file web tools audio name raw = do
  validate_size audio (length raw)
  read_audio tools name raw
ingest_file web tools web_page name raw = read_links web (tools.read_text raw)

unfoldable pub first_handler : List FileBackend → (mime ext : Text) → Option FileBackend
unfolding can_handle
first_handler [] mime ext = none
first_handler (b ∷ bs) mime ext =
    if can_handle b mime ext then some b else first_handler bs mime ext

abbrev ingest_by : Web → Tools → (name : Text) → Bytes → Option FileBackend → Ingest Text
ingest_by web tools name raw none = raised (txt "no backend")
ingest_by web tools name raw (some b) = ingest_file web tools b name raw

-- IngestPipeline.run on a file that was just written: the text that goes to normalized.md.
unfoldable pub run_pipeline : Web → Tools → (name : Text) → Bytes → Ingest Text
unfolding stem_suffix first_handler ingest_file
run_pipeline web tools name raw = ingest_by web tools name raw (
    first_handler (text ∷ pdf ∷ image ∷ audio ∷ web_page ∷ []) (tools.guess_mime name)
      (tools.lower (stem_suffix name).1))
