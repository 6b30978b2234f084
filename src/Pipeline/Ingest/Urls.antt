-- ===== src/Pipeline/Ingest/Urls.antt =====
-- The links in a message: `_extract_urls_simple` of review_agent/core/dispatcher.py, and the patterns of
-- review_agent/pipeline/ingest_backends/lark_doc.py, bitable.py and youtube.py.
pub mod Kept
use review_agent_v.Prelude.{
  Text, txt, ℕ, zero, suc, ◌-◌, ltb, leb, eqb, Bool, true, false, not, ◌&&◌, ◌||◌, Option, none,
  some, List, [], ◌∷◌, ◌++◌, length, take, drop, map, any, if◌then◌else◌, is_space, starts_with,
  ends_with, one_of, rstrip_if,
}

-- The longest beginning whose characters pass the test, and the rest.
unfoldable pub span : (ℕ → Bool) → Text → Text × Text
span p [] = ([], [])
span p (c ∷ s) = let (taken, rest) = span p s in if p c then (c ∷ taken, rest) else ([], c ∷ s)

-- The first of the words that the text starts with, and what is behind it.
unfoldable pub one_prefix : List Text → Text → Option (Text × Text)
unfolding starts_with
one_prefix [] s = none
one_prefix (p ∷ ps) s = if starts_with s p then some (p, drop (length p) s) else one_prefix ps s

-- A pattern that is tried at one place: the text that it matches there, and its groups.
abbrev pub Pattern : Type 0 → Type 0
Pattern A = Text → Option (Text × A)

-- `pattern.finditer`: the matches from left to right, after `skip` characters that belong to the last.
unfoldable pub find_all : {A : Type 0} → Pattern A → (skip : ℕ) → Text → List (Text × A)
find_all m skip [] = []
find_all m (suc skip) (c ∷ s) = find_all m skip s
find_all m zero (c ∷ s) = elim (m (c ∷ s)) [
  | none ↦ find_all m zero s
  | some (found, groups) ↦ (found, groups) ∷ find_all m (length found - 1) s
]

-- The loop with the set `seen`.
unfoldable pub first_of_each : {A : Type 0} → (A → Text) → (seen : List Text) → List A → List A
unfolding one_of
first_of_each key seen [] = []
first_of_each key seen (x ∷ xs) =
    if one_of (key x) seen
    then first_of_each key seen xs
    else x ∷ first_of_each key (key x ∷ seen) xs

infixl 5 ◌>>=◌
abbrev ◌>>=◌ : {A B : Type 0} → Option A → (A → Option B) → Option B
none >>= f = none
some a >>= f = f a

-- https?://
abbrev schemes : List Text
schemes = txt "https://" ∷ txt "http://" ∷ []

-- [^\s<>"')\]]
abbrev is_url_char : ℕ → Bool
is_url_char c =
    not (is_space c || eqb c 60 || eqb c 62 || eqb c 34 || eqb c 39 || eqb c 41 || eqb c 93)

-- https?://[^\s<>"')\]]+
unfoldable pub web_pattern : Pattern (Unit {0})
unfolding span one_prefix is_space
web_pattern s = do
  (scheme, rest) ← one_prefix schemes s
  let (path, after) = span is_url_char rest
  elim path [ [] ↦ none | c ∷ path' ↦ some (scheme ++ c ∷ path', tt) ]

-- [^/\s]
abbrev is_host_char : ℕ → Bool
is_host_char c = not (eqb c 47 || is_space c)

-- [A-Za-z0-9_-]
abbrev pub is_token_char : ℕ → Bool
is_token_char c =
    leb 65 c && leb c 90 || leb 97 c && leb c 122 || leb 48 c && leb c 57 || eqb c 95 || eqb c 45

-- [^/\s]+\.(?:feishu\.cn|larksuite\.com), where a slash follows
unfoldable pub is_lark_host : Text → Bool
unfolding ends_with
is_lark_host host =
    ends_with host (txt ".feishu.cn") && ltb 10 (length host)
    || ends_with host (txt ".larksuite.com") && ltb 14 (length host)

-- A link to a Lark host with one of the folders: what is matched so far, the folder, and what follows.
unfoldable pub lark_link : List Text → Text → Option (Text × Text × Text)
unfolding span one_prefix is_space is_lark_host
lark_link folders s = do
  (scheme, rest) ← one_prefix schemes s
  let (host, path) = span is_host_char rest
  (folder, after) ← one_prefix folders path
  if is_lark_host host then some (scheme ++ host ++ folder, folder, after) else none

abbrev doc_folders : List Text
doc_folders = txt "/docx/" ∷ txt "/docs/" ∷ txt "/wiki/" ∷ []

-- A link with a token behind the folder: the folder, the token, and what follows.
unfoldable pub token_link : List Text → Text → Option (Text × Text × Text × Text)
unfolding lark_link
token_link folders s = do
  (start, folder, after) ← lark_link folders s
  let (token, rest) = span is_token_char after
  elim token [ [] ↦ none | c ∷ token' ↦ some (start ++ c ∷ token', folder, c ∷ token', rest) ]

-- The name of the folder, between its slashes.
abbrev folder_name : Text → Text
folder_name folder = take (length folder - 2) (drop 1 folder)

unfoldable pub doc_pattern : Pattern (Text × Text)
unfolding token_link
doc_pattern s = do
  (url, folder, token, rest) ← token_link doc_folders s
  some (url, (folder_name folder, token))

unfoldable pub sheet_pattern : Pattern Text
unfolding token_link
sheet_pattern s = do
  (url, folder, token, rest) ← token_link (txt "/sheets/" ∷ []) s
  some (url, token)

-- .*?table=[A-Za-z0-9_-]+ on the rest of a line: the match, and the token.
unfoldable pub table_part : Text → Option (Text × Text)
unfolding one_prefix span
table_part [] = none
table_part (c ∷ s) =
    let here = (do
      (word, rest) ← one_prefix (txt "table=" ∷ []) (c ∷ s)
      let (token, after) = span is_token_char rest
      elim token [ [] ↦ none | d ∷ token' ↦ some (word ++ d ∷ token', d ∷ token') ]) in
    let rest = table_part s in
    elim here [
      | some found ↦ some found
      | none ↦ if eqb c 10 then none else (do (part, token) ← rest; some (c ∷ part, token))
    ]

-- (?:\?.*?table=(?P<table_id>…))?
abbrev with_table : Text → Option (Text × Text)
with_table [] = none
with_table (c ∷ s) =
    if eqb c 63 then (do (part, token) ← table_part s; some (c ∷ part, token)) else none

unfoldable pub bitable_pattern : Pattern (Text × Text)
unfolding token_link table_part
bitable_pattern s = do
  (url, folder, token, rest) ← token_link (txt "/base/" ∷ []) s
  elim (with_table rest) [
    | none ↦ some (url, (token, []))
    | some (part, table) ↦ some (url ++ part, (token, table))
  ]

-- An optional beginning.
abbrev skip_one : List Text → Text → Text × Text
skip_one words s = elim (one_prefix words s) [ none ↦ ([], s) | some found ↦ found ]

abbrev video_places : List Text
video_places =
    txt "youtube.com/watch?v="
    ∷ txt "youtube.com/shorts/"
    ∷ txt "youtube.com/embed/"
    ∷ txt "youtube.com/v/"
    ∷ txt "youtu.be/"
    ∷ []

unfoldable pub youtube_pattern : Pattern Text
unfolding one_prefix span
youtube_pattern s = do
  let (scheme, s1) = skip_one schemes s
  let (www, s2) = skip_one (txt "www." ∷ []) s1
  (place, s3) ← one_prefix video_places s2
  let (token, rest) = span is_token_char s3
  if leb 11 (length token)
      then some (scheme ++ www ++ place ++ take 11 token, take 11 token)
      else none

abbrev fst_of : {A : Type 0} → Text × A → Text
fst_of p = p.0

-- extract_lark_urls: the link, with its kind and token
unfoldable pub extract_lark_urls : Text → List (Text × (Text × Text))
unfolding find_all first_of_each doc_pattern
extract_lark_urls text = first_of_each fst_of [] (find_all doc_pattern 0 text)

-- extract_bitable_urls
unfoldable pub extract_bitable_urls : Text → List (Text × (Text × Text))
unfolding find_all first_of_each bitable_pattern
extract_bitable_urls text = first_of_each fst_of [] (find_all bitable_pattern 0 text)

-- extract_sheet_urls
unfoldable pub extract_sheet_urls : Text → List (Text × Text)
unfolding find_all first_of_each sheet_pattern
extract_sheet_urls text = first_of_each fst_of [] (find_all sheet_pattern 0 text)

-- extract_youtube_urls
unfoldable pub extract_youtube_urls : Text → List (Text × Text)
unfolding find_all first_of_each youtube_pattern
extract_youtube_urls text = first_of_each (λ p. p.1) [] (find_all youtube_pattern 0 text)

-- The characters of ".,;:!?）)"
abbrev url_ends : ℕ → Bool
url_ends c = any (eqb c) (txt ".,;:!?）)")

-- re.match(r"https?://[^/]+\.(?:feishu\.cn|larksuite\.com)/(docx|docs|wiki)/", u)
unfoldable pub is_lark_doc : Text → Bool
unfolding one_prefix span is_lark_host
is_lark_doc u =
    elim (do
      (scheme, rest) ← one_prefix schemes u
      let (host, path) = span (λ c. not (eqb c 47)) rest
      (folder, after) ← one_prefix doc_folders path
      some (is_lark_host host)) [ none ↦ false | some b ↦ b ]

-- The second loop of `_extract_urls_simple`.
unfoldable pub keep_web : (seen : List Text) → List Text → List Text
unfolding one_of is_lark_doc
keep_web seen [] = []
keep_web seen (u ∷ us) =
    if one_of u seen
    then keep_web seen us
    else if is_lark_doc u
    then keep_web (u ∷ seen) us
    else u ∷ keep_web (u ∷ seen) us

-- The links, in the first two lines of `_extract_urls_simple`.
unfoldable pub web_links : Text → List Text
unfolding find_all web_pattern rstrip_if
web_links text = map (λ u. rstrip_if url_ends (fst_of u)) (find_all web_pattern 0 text)

-- _extract_urls_simple
unfoldable pub extract_urls_simple : Text → List Text
unfolding web_links keep_web
extract_urls_simple text = keep_web [] (web_links text)
