-- ===== src/Lark/Post.antt =====
-- `_extract_post_text` of review_agent/routers/lark_webhook.py. A title or a text of an element that is no
-- text makes `join` raise; a name that is none counts as an exception too.
use review_agent_v.Prelude.{
  Text, txt, text_eq, Bool, not, Option, none, some, List, [], ◌∷◌, ◌++◌, filter, if◌then◌else◌,
  one_of,
}
use review_agent_v.Prelude.Json.{Json, str, arr, obj, Items, nil, cons, Fields, get, truthy}
use review_agent_v.Pipeline.Deliver.Backends.{join}

-- d.get(key, default), for texts
abbrev pub text_or : Text → Option Json → Option Text
text_or default none = some default
text_or default (some (str t)) = some t
text_or default (some v) = none

infixl 5 ◌>>=◌
abbrev ◌>>=◌ : {A B : Type 0} → Option A → (A → Option B) → Option B
none >>= f = none
some a >>= f = f a

-- el.get('user_name') or el.get('user_id', '')
abbrev name_of : Fields → Option Text
name_of el = elim (get "user_name" el) [
  | some (str (c ∷ name)) ↦ some (c ∷ name)
  | some v ↦ if truthy v then none else text_or [] (get "user_id" el)
  | none ↦ text_or [] (get "user_id" el)
]

-- A title that is not false, or no title.
abbrev title_of : Option Json → Option Text
title_of none = some []
title_of (some (str t)) = some t
title_of (some v) = if truthy v then none else some []

-- A tag that is no text is none of the known ones.
abbrev tag_of : Option Json → Text
tag_of (some (str t)) = t
tag_of _ = []

-- What one element adds to the line.
unfoldable pub element : Fields → Option (List Text)
unfolding one_of text_eq get truthy
element el =
    let tag = tag_of (get "tag" el) in
    if one_of tag (txt "text" ∷ txt "a" ∷ txt "code_inline" ∷ txt "emotion" ∷ [])
    then (do t ← text_or [] (get "text" el); some (t ∷ []))
    else if text_eq tag (txt "at")
    then (do name ← name_of el; some ((txt "@" ++ name) ∷ []))
    else if text_eq tag (txt "img")
    then some (txt "[图片]" ∷ [])
    else if text_eq tag (txt "media")
    then some (txt "[媒体]" ∷ [])
    else some []

-- The line of a paragraph; what is no dict is left out.
unfoldable pub line_of : Items → Option (List Text)
unfolding element
line_of nil = some []
line_of (cons (obj el) els) = do here ← element el; rest ← line_of els; some (here ++ rest)
line_of (cons v els) = line_of els

-- if line: parts.append("".join(line))
abbrev with_line : List Text → List Text → List Text
with_line [] parts = parts
with_line (t ∷ line) parts = join [] (t ∷ line) ∷ parts

-- The parts of the content; what is no list is left out.
unfoldable pub paragraphs : Items → Option (List Text)
unfolding line_of join
paragraphs nil = some []
paragraphs (cons (arr els) ps) = do
  line ← line_of els
  rest ← paragraphs ps
  some (with_line line rest)
paragraphs (cons v ps) = paragraphs ps

-- parsed.get("content") or [], where it is a list
abbrev content_items : Option Json → Items
content_items (some (arr els)) = els
content_items _ = nil

abbrev some_text : Text → Bool
some_text t = not (text_eq t [])

-- `_extract_post_text`; `none` is an exception.
unfoldable pub extract_post_text : Fields → Option Text
unfolding paragraphs get truthy text_eq join
extract_post_text parsed = do
  title ← title_of (get "title" parsed)
  parts ← paragraphs (content_items (get "content" parsed))
  some (join (10 ∷ []) (filter some_text (title ∷ parts)))
