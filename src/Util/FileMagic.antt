-- ===== src/Util/FileMagic.antt =====
-- review_agent/util/file_magic.py: the extension of a file, from its first bytes.
use review_agent_v.Prelude.{
  Text, txt, text_eq, ℕ, ◌-◌, ltb, Bool, not, ◌&&◌, ◌||◌, List, [], ◌∷◌, length, take, drop,
  if◌then◌else◌,
}

-- raw[i:j]
abbrev slice : (i j : ℕ) → List ℕ → List ℕ
slice i j raw = take (j - i) (drop i raw)

-- raw[i:j] == b
abbrev at : (i j : ℕ) → List ℕ → List ℕ → Bool
at i j b raw = text_eq (slice i j raw) b

abbrev bin : Text
bin = txt ".bin"

-- The rules in their order: the test, and what it gives.
abbrev pub Rules : Type 0
Rules = List ((List ℕ → Bool) × Text)

unfoldable pub first_rule : Rules → List ℕ → Text
first_rule [] raw = bin
first_rule ((test, ext) ∷ rules) raw = if test raw then ext else first_rule rules raw

abbrev pub image_rules : Rules
image_rules =
    (at 0 8 (137 ∷ 80 ∷ 78 ∷ 71 ∷ 13 ∷ 10 ∷ 26 ∷ 10 ∷ []), txt ".png")
    ∷ (at 0 3 (255 ∷ 216 ∷ 255 ∷ []), txt ".jpg")
    ∷ (at 0 4 (txt "GIF8"), txt ".gif")
    ∷ (λ raw. at 0 4 (txt "RIFF") raw && at 8 12 (txt "WEBP") raw, txt ".webp")
    ∷ (at 0 2 (txt "BM"), txt ".bmp")
    ∷ (λ raw. at 0 4 (73 ∷ 73 ∷ 42 ∷ 0 ∷ []) raw || at 0 4 (77 ∷ 77 ∷ 0 ∷ 42 ∷ []) raw, txt ".tiff")
    ∷ []

unfoldable pub detect_image_ext : List ℕ → Text
unfolding first_rule text_eq
detect_image_ext raw = if ltb (length raw) 8 then bin else first_rule image_rules raw

abbrev pub audio_rules : Rules
audio_rules =
    (at 0 4 (txt "OggS"), txt ".ogg")
    ∷ (
      λ raw. at 0 3 (txt "ID3") raw || at 0 2 (255 ∷ 251 ∷ []) raw || at 0 2 (255 ∷ 243 ∷ []) raw,
      txt ".mp3",
    )
    ∷ (λ raw. at 0 4 (txt "RIFF") raw && at 8 12 (txt "WAVE") raw, txt ".wav")
    ∷ (at 4 8 (txt "ftyp"), txt ".m4a")
    ∷ (at 0 4 (txt "fLaC"), txt ".flac")
    ∷ []

unfoldable pub detect_audio_ext : List ℕ → Text
unfolding first_rule text_eq
detect_audio_ext raw = if ltb (length raw) 12 then bin else first_rule audio_rules raw

abbrev pub file_rules : Rules
file_rules =
    (at 0 4 (txt "%PDF"), txt ".pdf")
    ∷ (at 0 2 (txt "PK"), txt ".zip")
    ∷ (at 0 5 (txt "{\\rtf"), txt ".rtf")
    ∷ []

unfoldable pub detect_file_ext : List ℕ → Text
unfolding first_rule text_eq detect_image_ext detect_audio_ext
detect_file_ext raw =
    let img = detect_image_ext raw in
    let aud = detect_audio_ext raw in
    if not (text_eq img bin)
    then img
    else if not (text_eq aud bin)
    then aud
    else first_rule file_rules raw
