-- ===== src/Pipeline/Deliver/Backends.antt =====
-- The backends of review_agent/pipeline/delivery_backends: what they send, and the hash by which a
-- delivery that was made is known again.
use review_agent_v.Prelude.{
  Text, txt, ℕ, ◌-◌, ltb, Bool, true, false, Option, none, some, List, [], ◌∷◌, ◌++◌, length, take,
  strip, one_of, if◌then◌else◌,
}
use review_agent_v.Core.Storage.Tables.{Dir}
use review_agent_v.Util.Md.{text_hash}

pub record Target : Type 0 where
  pub name : Text
  pub backend : Text
  pub open_id : Text
  pub path : Text
  pub payload : List Text
  pub role : Text

pub record DeliveryResult : Type 0 where
  pub backend : Text
  pub ok : Bool
  pub detail : Text
  pub lark_msg_id : Text
  pub doc_url : Text

-- The classes of backends, with the limit on the length of a message.
pub data Backend : Type 0 where
  lark_dm slack_dm : (max_chars : ℕ) → Backend
  lark_doc local_path : Backend

-- How `backend.deliver` ends.
pub data Attempt : Type 0 where
  result : DeliveryResult → Attempt
  raised : (message : Text) → Attempt

-- a or b
unfoldable pub or_text : Text → Text → Text
or_text [] b = b
or_text (c ∷ a) b = c ∷ a

-- ",".join(parts)
unfoldable pub join : Text → List Text → Text
join sep [] = []
join sep (p ∷ []) = p
join sep (p ∷ q ∷ ps) = p ++ (sep ++ join sep (q ∷ ps))

abbrev or_empty : Option Text → Text
or_empty none = []
or_empty (some t) = t

abbrev if_asked : Target → Option Text → Text
if_asked t summary = if one_of (txt "summary") t.payload then or_empty summary else []

-- The parts that a file that is there gives.
abbrev present : Option Text → List Text
present none = []
present (some t) = t ∷ []

-- The hash that `_deliver_one` computes; only three classes have one.
unfoldable pub body_hash : (Text → Text) → Backend → Target → Dir → Text → Text
unfolding text_hash join one_of
body_hash sha256 (lark_dm n) t files doc_url =
    text_hash sha256 (if_asked t files.summary ++ doc_url)
body_hash sha256 local_path t files doc_url = text_hash sha256 (join (txt ",") t.payload)
body_hash sha256 lark_doc t files doc_url =
    text_hash sha256 (txt "doc:" ++ join (txt ",") t.payload)
body_hash sha256 (slack_dm n) t files doc_url = []

abbrev url_part : Text → Text → List Text
url_part intro [] = []
url_part intro (c ∷ url) = (intro ++ (c ∷ url)) ∷ []

-- `text[: max_chars - 20] + "\n…(truncated)"` where the text is longer
unfoldable pub truncated : ℕ → Text → Text
truncated max_chars text =
    if ltb max_chars (length text)
    then take (max_chars - 20) text ++ (10 ∷ txt "…(truncated)")
    else text

-- The message of LarkDmBackend; `none` where summary.md is asked for and missing.
unfoldable pub lark_dm_text : ℕ → Target → Dir → Text → Option Text
unfolding truncated strip join one_of
lark_dm_text max_chars t files doc_url =
    let url = url_part (10 ∷ txt "📄 Lark Doc: ") doc_url in
    let message = λ (parts : List Text). truncated max_chars (strip (join (10 ∷ 10 ∷ []) parts)) in
    if one_of (txt "summary") t.payload
    then (elim files.summary [ none ↦ none | some summary ↦ some (message (summary ∷ url)) ])
    else some (message url)

-- The message of SlackDmBackend.
unfoldable pub slack_dm_text : Target → Dir → Text → Text
unfolding strip join one_of
slack_dm_text t files doc_url =
    let url = url_part (10 ∷ txt "📄 Full report: ") doc_url in
    let parts = (if one_of (txt "summary") t.payload then present files.summary else []) in
    strip (join (10 ∷ 10 ∷ []) (parts ++ url))

abbrev made : Text → Bool → Text → Text → DeliveryResult
made name ok msg url = record {
  backend = name;
  ok = ok;
  detail = [];
  lark_msg_id = msg;
  doc_url = url;
}

abbrev not_made : Text → Text → DeliveryResult
not_made name why = record {
  backend = name;
  ok = false;
  detail = why;
  lark_msg_id = [];
  doc_url = [];
}

-- The document's address, if there is a document.
abbrev doc_result : Text → DeliveryResult
doc_result [] = made (txt "lark_doc") false [] []
doc_result (c ∷ doc_id) =
    made (txt "lark_doc") true [] (txt "https://feishu.cn/docx/" ++ (c ∷ doc_id))

abbrev sent_dm : Option Text → Attempt
sent_dm none = raised (txt "send_dm_text")
sent_dm (some msg) = result (made (txt "lark_dm") true msg [])

abbrev sent_slack : Option Text → Attempt
sent_slack none = result (not_made (txt "slack_dm") (txt "slack DM failed"))
sent_slack (some msg) = result (made (txt "slack_dm") true msg [])

-- backend.deliver(t, session, ctx), where the call that it makes has the answer `sent`.
unfoldable pub attempt : Backend → Target → Dir → Text → Option Text → Attempt
unfolding lark_dm_text slack_dm_text
attempt (lark_dm n) t files doc_url sent = elim (lark_dm_text n t files doc_url) [
  | none ↦ raised (txt "summary.md")
  | some text ↦ sent_dm sent
]
attempt (slack_dm n) t files doc_url sent = elim (slack_dm_text t files doc_url) [
  | [] ↦ result (not_made (txt "slack_dm") (txt "nothing to deliver (empty summary)"))
  | c ∷ text ↦ sent_slack sent
]
attempt lark_doc t files doc_url none = raised (txt "create_doc")
attempt lark_doc t files doc_url (some doc_id) = result (doc_result doc_id)
attempt local_path t files doc_url none = raised (txt "archive")
attempt local_path t files doc_url (some _) = result (made (txt "local_path") true [] [])
