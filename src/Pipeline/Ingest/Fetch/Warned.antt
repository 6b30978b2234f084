-- ===== src/Pipeline/Ingest/Fetch/Warned.antt =====
-- Documents that are read and hold the sign by which failures are counted.
use review_agent_v.Prelude.{Text, txt, ℕ, Bool, true, List, [], ◌∷◌, ◌++◌, all, All, ◌≡◌, refl}
use review_agent_v.Prelude.Parts.{contains-behind}
use review_agent_v.Pipeline.Ingest.Result.{Ingest, accepted, rejected}
use review_agent_v.Pipeline.Ingest.Fetch.{
  Web, section, is_warned, fetch_doc, doc_section, doc_results, unless, fetch_lark_urls,
}

-- The document is read, and its text has a "⚠".
abbrev pub IsReadWarned : Web → Text × (Text × Text) → Type 0
IsReadWarned web (url, (kind, token)) =
    (c : ℕ) × (text : Text) × (fetch_doc web kind token ≡ accepted (c ∷ text))
    × (is_warned (c ∷ text) ≡ true)

section_warned : (url text : Text) → is_warned text ≡ true → is_warned (section url text) ≡ true
unfolding is_warned
section_warned url text h =
    contains-behind (txt "## " ++ url) (10 ∷ 10 ∷ text) (txt "⚠")
      (contains-behind (10 ∷ 10 ∷ []) text (txt "⚠") h)

doc_section_warned :
    (url : Text) (r : Ingest Text) (c : ℕ) (text : Text)
    → r ≡ accepted (c ∷ text)
    → is_warned (c ∷ text) ≡ true
    → is_warned (doc_section url r) ≡ true
unfolding doc_section
doc_section_warned url r c text e h = rw e (section_warned url (c ∷ text) h)

all_warned :
    (web : Web) (urls : List (Text × (Text × Text)))
    → All (IsReadWarned web) urls
    → all is_warned (doc_results web urls) ≡ true
all_warned web [] h = refl
all_warned web ((url, (kind, token)) ∷ urls) ((c, text, e, s), h) =
    rw (doc_section_warned url (fetch_doc web kind token) c text e s, all_warned web urls h) refl

unless-true : (b : Bool) (m n : Text) → b ≡ true → unless b m n ≡ rejected m
unless-true b m n h = rw h refl

-- Where every document of a list that is not empty is read, and its text is not empty and has the
-- sign of a warning, the whole list is rejected.
pub fetch_lark_urls_rejects_read :
    (web : Web) (url kind token : Text) (urls : List (Text × (Text × Text)))
    → All (IsReadWarned web) ((url, (kind, token)) ∷ urls)
    → (m : Text) × (fetch_lark_urls web ((url, (kind, token)) ∷ urls) ≡ rejected m)
unfolding fetch_lark_urls
fetch_lark_urls_rejects_read web url kind token urls h =
    (_, unless-true _ _ _ (all_warned web ((url, (kind, token)) ∷ urls) h))
