-- ===== src/Pipeline/Ingest/Files/Handled.antt =====
-- Files that are too large.
use review_agent_v.Prelude.{Text, ℕ, ◌<◌, length, ◌≡◌, ◌≢◌, refl, lt→ltb}
use review_agent_v.Pipeline.Ingest.Result.{Ingest, rejected, ◌>>◌}
use review_agent_v.Pipeline.Ingest.Fetch.{Web}
use review_agent_v.Pipeline.Ingest.Formats.{
  FileBackend, text, pdf, image, audio, web_page, default_max, validate_size, size_message,
}
use review_agent_v.Pipeline.Ingest.Files.{Tools, Bytes, ingest_file}

validate_size_rejects :
    (b : FileBackend) (n : ℕ) → default_max b < n → validate_size b n ≡ rejected (size_message b n)
unfolding validate_size
validate_size_rejects b n h = rw (lt→ltb (default_max b) n h) refl

checked :
    (size : Ingest (Unit {0})) (rest : Ingest Text) (m : Text)
    → size ≡ rejected m
    → (size >> rest) ≡ rejected m
checked size rest m h = rw h refl

-- A file that is larger than the limit of its backend is rejected with the message about its
-- size, whatever the tools would give; the backend for files of links is left out.
pub ingest_file_rejects_large :
    (web : Web) (tools : Tools) (b : FileBackend) (name : Text) (raw : Bytes)
    → b ≢ web_page
    → default_max b < length raw
    → ingest_file web tools b name raw ≡ rejected (size_message b (length raw))
unfolding ingest_file
ingest_file_rejects_large web tools text name raw n h =
    checked (validate_size text (length raw)) _ _ (validate_size_rejects text (length raw) h)
ingest_file_rejects_large web tools pdf name raw n h =
    checked (validate_size pdf (length raw)) _ _ (validate_size_rejects pdf (length raw) h)
ingest_file_rejects_large web tools image name raw n h =
    checked (validate_size image (length raw)) _ _ (validate_size_rejects image (length raw) h)
ingest_file_rejects_large web tools audio name raw n h =
    checked (validate_size audio (length raw)) _ _ (validate_size_rejects audio (length raw) h)
ingest_file_rejects_large web tools web_page name raw n h = absurd (n refl)
