-- ===== src/Pipeline/Ingest/Fetch.antt =====
-- The texts behind the links of a message: `fetch_lark_urls`, `fetch_bitable_urls`, `fetch_sheet_urls`,
-- `fetch_urls` and `scrape_urls` of review_agent/pipeline/ingest_backends. What the requests of one link
-- give is a parameter, by its token or address.
pub mod Warned
use review_agent_v.Prelude.{
  Text, txt, text_eq, text_eq_iff, text_ne, String, ℕ, zero, suc, ◌+◌, ◌-◌, ◌*◌, ◌/◌, ◌%◌, ◌^◌, ◌≤◌,
  ◌<◌, min, ltb, leb, eqb, Bool, true, false, not, ◌&&◌, ◌||◌, Option, none, some, is_none, List,
  [], ◌∷◌, ◌++◌, length, take, drop, get_elem?, map, filter, any, all, find?, count, All,
  All-append, any-append, length-append, length-take, length-map, take-append-drop, take_all,
  drop_all, length-drop, if◌then◌else◌, is_space, starts_with, ends_with, contains, find_from,
  one_of, strip, lstrip, rstrip, rstrip_if, lstrip_if, ◌≡◌, ◌≢◌, refl, sym, ap, ◌∙◌, ◌⊎◌, ◌↔◌, inl,
  inr, arith, Bool-cases, Option-cases, ltb→lt, lt→ltb, leb→le, eqb_iff,
}
use review_agent_v.Prelude.Json.{Json, str, Fields, get}
use review_agent_v.Pipeline.Deliver.Backends.{join}
use review_agent_v.Pipeline.Scan.Parse.{show}
use review_agent_v.Pipeline.Ingest.Result.{Ingest, accepted, rejected, raised, ◌>>=◌}

-- The requests that are made for one link.
pub record Web : Type 0 where
  pub get_doc_raw : Text → Ingest Text
  pub get_wiki_node : Text → Ingest Fields
  pub bitable : (app_token table_id : Text) → Ingest Text
  pub sheet : (token : Text) → Ingest Text
  pub transcribe : (video_id : Text) → Option Text
  pub scrape : (url : Text) → Ingest Text

-- f"## {url}\n\n{text}"
abbrev pub section : (url text : Text) → Text
section url text = txt "## " ++ url ++ 10 ∷ 10 ∷ text

-- f"> ⚠ {what}{e}"
abbrev pub warning : (what e : Text) → Text
warning what e = txt "> ⚠ " ++ what ++ e

-- "⚠" in r
unfoldable pub is_warned : Text → Bool
unfolding contains
is_warned r = contains r (txt "⚠")

-- f"[{intro} {n} {what}]\n\n" and the sections with rules between them
unfoldable pub combined : (intro : Text) → ℕ → (what : Text) → List Text → Text
unfolding join
combined intro n what results =
    txt "["
    ++ intro
    ++ show n
    ++ what
    ++ txt "]"
    ++ 10 ∷ 10 ∷ join (10 ∷ 10 ∷ txt "---" ++ 10 ∷ 10 ∷ []) results

abbrev text_in : Option Json → Text
text_in (some (str s)) = s
text_in _ = []

-- a or b
abbrev or_else : Text → Text → Text
or_else [] b = b
or_else (c ∷ a) b = c ∷ a

abbrev doc_of : Web → (token doc_id : Text) → Ingest Text
doc_of web token [] = rejected (txt "wiki 节点 " ++ token ++ txt " 没有关联 doc_id")
doc_of web token (c ∷ doc_id) = web.get_doc_raw (c ∷ doc_id)

-- LarkDocBackend._fetch_one; an identifier of a node that is no text counts as none.
unfoldable pub fetch_doc : Web → (kind token : Text) → Ingest Text
fetch_doc web kind token =
    if one_of kind (txt "docx" ∷ txt "docs" ∷ [])
    then web.get_doc_raw token
    else if text_eq kind (txt "wiki")
    then (do
      node ← web.get_wiki_node token
      doc_of web token
          (or_else (text_in (get "obj_token" node)) (text_in (get "document_id" node))))
    else rejected (txt "未知 Lark URL 类型: " ++ kind)

-- The section of one document.
unfoldable pub doc_section : (url : Text) → Ingest Text → Text
doc_section url (accepted []) = section url (txt "> ⚠ 文档为空")
doc_section url (accepted (c ∷ text)) = section url (c ∷ text)
doc_section url (rejected e) = section url (warning (txt "无法读取（可能 bot 没权限或链接失效）：") e)
doc_section url (raised e) = section url (warning (txt "无法读取（可能 bot 没权限或链接失效）：") e)

abbrev pub doc_results : Web → List (Text × (Text × Text)) → List Text
doc_results web [] = []
doc_results web ((url, (kind, token)) ∷ urls) =
    doc_section url (fetch_doc web kind token) ∷ doc_results web urls

-- The rejection where all have failed.
abbrev pub unless : Bool → (message normalized : Text) → Ingest Text
unless true message normalized = rejected message
unless false message normalized = accepted normalized

abbrev pub unless_warned : (message normalized : Text) → List Text → Ingest Text
unless_warned message normalized results = unless (all is_warned results) message normalized

-- fetch_lark_urls, where the client is there
unfoldable pub fetch_lark_urls : Web → List (Text × (Text × Text)) → Ingest Text
unfolding doc_section fetch_doc is_warned combined
fetch_lark_urls web [] = rejected (txt "URL 列表是空的。")
fetch_lark_urls web (u ∷ us) =
    let results = doc_results web (u ∷ us) in
    unless_warned (txt "Lark 链接全部读取失败 — 检查 bot 是否被加入了文档协作者。（添加方式：飞书文档右上「分享」→ 添加应用 → 搜你的 bot）")
      (combined (txt "📄 已从 ") (length (u ∷ us)) (txt " 个 Lark 文档读取内容") results) results

-- The section of one table or sheet, with the words for a failure.
unfoldable pub table_section : (what url : Text) → Ingest Text → Text
table_section what url (accepted text) = section url text
table_section what url (rejected e) = section url (warning what e)
table_section what url (raised e) = section url (warning what e)

abbrev bitable_results : Web → List (Text × (Text × Text)) → List Text
bitable_results web [] = []
bitable_results web ((url, (app_token, table_id)) ∷ urls) =
    table_section (txt "无法读取 Bitable：") url (web.bitable app_token table_id)
    ∷ bitable_results web urls

-- fetch_bitable_urls, where the client is there
unfoldable pub fetch_bitable_urls : Web → List (Text × (Text × Text)) → Ingest Text
unfolding table_section is_warned combined
fetch_bitable_urls web [] = rejected (txt "URL 列表是空的。")
fetch_bitable_urls web (u ∷ us) =
    let results = bitable_results web (u ∷ us) in
    unless_warned (txt "Bitable 全部读取失败 — 检查 bot 是否有权限访问。（方式：Bitable 右上角「分享」→ 添加应用 → 搜你的 bot）")
      (combined (txt "📊 已从 ") (length (u ∷ us)) (txt " 个 Bitable 读取内容") results) results

abbrev sheet_results : Web → List (Text × Text) → List Text
sheet_results web [] = []
sheet_results web ((url, token) ∷ urls) =
    table_section (txt "无法读取 Sheet：") url (web.sheet token) ∷ sheet_results web urls

-- fetch_sheet_urls, where the client is there: nothing is rejected.
unfoldable pub fetch_sheet_urls : Web → List (Text × Text) → Ingest Text
unfolding table_section combined
fetch_sheet_urls web urls =
    accepted (combined (txt "📗 已从 ") (length urls) (txt " 个 Sheet 读取内容") (sheet_results web urls))

-- The section of one video; `_transcribe_one` raises nothing.
unfoldable pub video_section : (url : Text) → Option Text → Text
video_section url none = section url (txt "> ⚠ 没有可用的字幕/转录")
video_section url (some []) = section url (txt "> ⚠ 没有可用的字幕/转录")
video_section url (some (c ∷ text)) = section url (c ∷ text)

abbrev video_results : Web → List (Text × Text) → List Text
video_results web [] = []
video_results web ((url, video_id) ∷ urls) =
    video_section url (web.transcribe video_id) ∷ video_results web urls

-- YouTubeBackend.fetch_urls
unfoldable pub fetch_video_urls : Web → List (Text × Text) → Ingest Text
unfolding video_section is_warned combined
fetch_video_urls web [] = rejected (txt "URL 列表是空的。")
fetch_video_urls web (u ∷ us) =
    let results = video_results web (u ∷ us) in
    unless_warned (txt "所有 YouTube 视频都无法获取转录（可能没有字幕、区域限制、或视频不存在）。")
      (combined (txt "🎬 已从 ") (length (u ∷ us)) (txt " 个 YouTube 视频提取字幕") results) results

-- The sections of a page: none where it has no text.
unfoldable pub page_sections : (url : Text) → Ingest Text → List Text
page_sections url (accepted []) = []
page_sections url (accepted (c ∷ text)) = section url (c ∷ text) ∷ []
page_sections url (rejected e) = section url (warning (txt "抓取失败: ") e) ∷ []
page_sections url (raised e) = section url (warning (txt "抓取失败: ") e) ∷ []

abbrev page_results : Web → List Text → List Text
page_results web [] = []
page_results web (url ∷ urls) = page_sections url (web.scrape url) ++ page_results web urls

-- scrape_urls; `all` of no results is true too.
unfoldable pub scrape_urls : Web → List Text → Ingest Text
unfolding page_sections combined contains
scrape_urls web [] = rejected (txt "URL 列表是空的。")
scrape_urls web (u ∷ us) =
    let results = page_results web (u ∷ us) in
    unless (all (λ r. contains r (txt "抓取失败")) results)
      (txt "所有 URL 都抓不到内容（可能被反爬 / 需要登录 / 网络不通）。请直接贴正文给我。")
      (combined (txt "🌐 已从 ") (length (u ∷ us)) (txt " 个网页抓取内容") results)
