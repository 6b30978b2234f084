-- ===== src/Pipeline/Ingest/Formats.antt =====
-- Which files the backends of review_agent/pipeline/ingest_backends read, and how large they may be.
use mathlib.Core.List.{reverse}
use review_agent_v.Prelude.{
  Text, txt, text_eq, ℕ, ◌*◌, ◌/◌, ltb, eqb, Bool, ◌||◌, List, [], ◌∷◌, ◌++◌, if◌then◌else◌,
  starts_with, one_of,
}
use review_agent_v.Pipeline.Scan.Parse.{show}
use review_agent_v.Pipeline.Ingest.Result.{Ingest, accepted, rejected}

abbrev rev_span : Text → Text → Text × Text
rev_span acc [] = (acc, [])
rev_span acc (c ∷ s) = if eqb c 46 then (acc, c ∷ s) else rev_span (c ∷ acc) s

-- The stem and the suffix of a name that is given from its end.
abbrev split_rev : Text → Text × Text → Text × Text
split_rev name (ext, []) = (name, [])
split_rev name (ext, dot ∷ []) = (name, [])
split_rev name ([], dot ∷ c ∷ stem) = (name, [])
split_rev name (d ∷ ext, dot ∷ c ∷ stem) = (reverse (c ∷ stem), dot ∷ d ∷ ext)

-- path.stem and path.suffix, by the name of the file
unfoldable pub stem_suffix : Text → Text × Text
stem_suffix name = split_rev name (rev_span [] (reverse name))

-- The classes of `ingest_backends` in build_app.
pub data FileBackend : Type 0 where
  text pdf image audio web_page : FileBackend

-- _DEFAULT_MAX, by the kind of the backend
abbrev pub default_max : FileBackend → ℕ
default_max text = 1 * 1024 * 1024
default_max pdf = 20 * 1024 * 1024
default_max image = 10 * 1024 * 1024
default_max audio = 50 * 1024 * 1024
default_max web_page = 1 * 1024 * 1024

-- The message with both sizes in MB.
unfoldable pub size_message : FileBackend → ℕ → Text
size_message b size =
    txt "材料太大了（"
    ++ show (size / (1024 * 1024))
    ++ txt "MB），超过了 "
    ++ show (default_max b / (1024 * 1024))
    ++ txt "MB 上限。切小一点再发一遍。"

unfoldable pub validate_size : FileBackend → ℕ → Ingest (Unit {0})
unfolding size_message
validate_size b size =
    if ltb (default_max b) size then rejected (size_message b size) else accepted tt

abbrev image_mimes : List Text
image_mimes =
    txt "image/png"
    ∷ txt "image/jpeg"
    ∷ txt "image/jpg"
    ∷ txt "image/webp"
    ∷ txt "image/bmp"
    ∷ txt "image/tiff"
    ∷ txt "image/gif"
    ∷ []

abbrev image_exts : List Text
image_exts =
    txt ".png"
    ∷ txt ".jpg"
    ∷ txt ".jpeg"
    ∷ txt ".webp"
    ∷ txt ".bmp"
    ∷ txt ".tiff"
    ∷ txt ".tif"
    ∷ txt ".gif"
    ∷ []

abbrev audio_mimes : List Text
audio_mimes =
    txt "audio/mpeg"
    ∷ txt "audio/mp3"
    ∷ txt "audio/mp4"
    ∷ txt "audio/wav"
    ∷ txt "audio/ogg"
    ∷ txt "audio/webm"
    ∷ txt "audio/x-m4a"
    ∷ txt "audio/aac"
    ∷ txt "audio/flac"
    ∷ txt "audio/opus"
    ∷ []

abbrev audio_exts : List Text
audio_exts =
    txt ".mp3"
    ∷ txt ".wav"
    ∷ txt ".ogg"
    ∷ txt ".m4a"
    ∷ txt ".aac"
    ∷ txt ".flac"
    ∷ txt ".webm"
    ∷ txt ".opus"
    ∷ []

-- `can_handle`, with the extension in lower case.
unfoldable pub can_handle : FileBackend → (mime ext : Text) → Bool
unfolding starts_with one_of
can_handle text mime ext =
    starts_with mime (txt "text/") || one_of ext (txt ".md" ∷ txt ".txt" ∷ txt ".markdown" ∷ [])
can_handle pdf mime ext = text_eq mime (txt "application/pdf") || text_eq ext (txt ".pdf")
can_handle image mime ext = one_of mime image_mimes || one_of ext image_exts
can_handle audio mime ext = one_of mime audio_mimes || one_of ext audio_exts
can_handle web_page mime ext = text_eq ext (txt ".url") || text_eq mime (txt "text/x-uri")
