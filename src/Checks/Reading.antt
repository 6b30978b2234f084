-- ===== src/Checks/Reading.antt =====
-- The theorems on the material of a review, at concrete values.
use review_agent_v.Prelude.{
  Text, txt, text_eq, ℕ, zero, suc, ◌<◌, true, not, ◌&&◌, none, some, List, [], ◌∷◌, length, All,
  one_of, ◌≡◌, ◌≢◌, refl, sym, ap, arith,
}
use review_agent_v.Prelude.Json.{end}
use mathlib.Core.Path.{subst}
use review_agent_v.Core.Enums.{Role}
use review_agent_v.Core.Models.{User, Session}
use review_agent_v.Core.Storage.Sessions.{new_session, create_session}
use review_agent_v.Core.Storage.Users.{get_user}
use review_agent_v.Core.Dispatcher.World.{World, llm_failure}
use review_agent_v.Core.Material.Reading.{Desk}
use review_agent_v.Core.Material.Supplement.{supplement_file}
use review_agent_v.Core.Material.Supplement.Appends.{normalized_of}
use review_agent_v.Core.Material.Supplement.Replaces.{IsReplaced, supplement_file-IsReplaced}
use review_agent_v.Core.Material.Gate.{open_session, handle_no_session}
use review_agent_v.Core.Material.Gate.Settles.{IsSettled, handle_no_session_settles}
use review_agent_v.Core.Dispatcher.Incoming.{dispatch}
use review_agent_v.Core.Dispatcher.Incoming.Caught.{dispatch_caught}
use review_agent_v.Lark.Message.{IncomingMessage}
use review_agent_v.Pipeline.Ingest.Result.{accepted, rejected}
use review_agent_v.Pipeline.Ingest.Urls.{extract_urls_simple, web_links, is_lark_doc}
use review_agent_v.Pipeline.Ingest.Urls.Kept.{IsDistinct, extract_urls_simple_kept}
use review_agent_v.Pipeline.Ingest.Fetch.{Web, fetch_lark_urls, fetch_doc, is_warned}
use review_agent_v.Pipeline.Ingest.Fetch.Warned.{IsReadWarned, fetch_lark_urls_rejects_read}
use review_agent_v.Pipeline.Ingest.Formats.{text, web_page, default_max, size_message}
use review_agent_v.Pipeline.Ingest.Files.{Tools, ingest_file}
use review_agent_v.Pipeline.Ingest.Files.Handled.{ingest_file_rejects_large}
use review_agent_v.Checks.Samples.{ann, session, store, lower}
use review_agent_v.Checks.Dispatching.{env, world}

-- Every document has the same text, and no other link is read.
abbrev web : Web
web = record {
  get_doc_raw = λ token. accepted (txt "plan ⚠");
  get_wiki_node = λ token. accepted end;
  bitable = λ app table. rejected (txt "no");
  sheet = λ token. rejected (txt "no");
  transcribe = λ video_id. none;
  scrape = λ url. rejected (txt "no");
}

abbrev tools : Tools
tools = record {
  guess_mime = λ name. [];
  lower = lower;
  encode = λ t. t;
  read_text = λ raw. raw;
  pdftotext = λ raw. none;
  pdfminer = λ raw. none;
  tesseract = λ raw. none;
  whisper_cpp = λ raw. none;
  whisper = λ raw. none;
  gemini_image = none;
  openai_image = none;
  gemini_audio = none;
  openai_audio = none;
}

abbrev desk : Desk
desk = record {
  env = env;
  web = web;
  tools = tools;
  download = λ message_id file_key kind. some (txt "%PDF-1.7 ");
  session_id = λ n. txt "s9";
  admin_style = [];
  review_rules = [];
  profile_for = λ oid. [];
  auto_register = true;
  display_name = λ oid. none;
}

abbrev message : Text → Text → IncomingMessage
message msg_type body = record {
  event_id = txt "e9";
  sender_open_id = txt "ou_ann";
  chat_type = txt "p2p";
  msg_type = msg_type;
  content_raw = [];
  content_text = body;
  chat_id = txt "c1";
  create_time = txt "1";
  message_id = txt "m1";
  file_key = txt "k1";
}

abbrev bob : User
bob = record {
  open_id = txt "ou_bob";
  display_name = txt "Bob";
  roles = Role.responder ∷ [];
  pairing_responder_oid = none;
  created_at = [];
  updated_at = [];
}

abbrev staffed : World
staffed = record world { storage = record store { users = ann ∷ bob ∷ [] } }

bob_found : get_user (txt "ou_bob") staffed.storage ≡ some bob
unfolding get_user text_eq
bob_found = refl

abbrev begun : Session
begun = new_session (txt "s9") (txt "ou_ann") (txt "ou_bob") (txt "t9")

opened : (open_session desk (txt "ou_ann") (txt "ou_bob") staffed).1 ≡ some begun
unfolding open_session create_session get_user text_eq
opened = refl

handle_no_session_settles_example :
    IsSettled (txt "s9") (handle_no_session desk ann (message (txt "sticker") []) staffed)
handle_no_session_settles_example =
    handle_no_session_settles desk ann bob (message (txt "sticker") []) staffed 111 (txt "u_bob")
      begun refl bob_found opened

dispatch_caught_example : (dispatch desk (txt "scan") end world).0 ≢ llm_failure
dispatch_caught_example = dispatch_caught desk (txt "scan") end world

supplement_file-IsReplaced_example :
    IsReplaced desk session.id
      (normalized_of session.id world)
      (some (txt "%PDF-1.7 "))
      (supplement_file desk session (message (txt "file") []) world)
supplement_file-IsReplaced_example =
    supplement_file-IsReplaced desk session (message (txt "file") []) world

extract_urls_simple_kept_example :
    IsDistinct (extract_urls_simple (txt "see http://a.b, http://a.b/ and http://a.b."))
    × (one_of
          (txt "http://a.b")
          (extract_urls_simple (txt "see http://a.b, http://a.b/ and http://a.b."))
        ≡ (one_of (txt "http://a.b") (web_links (txt "see http://a.b, http://a.b/ and http://a.b."))
            && not (is_lark_doc (txt "http://a.b"))))
extract_urls_simple_kept_example =
    extract_urls_simple_kept (txt "see http://a.b, http://a.b/ and http://a.b.") (txt "http://a.b")

abbrev link : Text
link = txt "https://x.feishu.cn/docx/T1"

read_warned : All (IsReadWarned web) ((link, (txt "docx", txt "T1")) ∷ [])
unfolding fetch_doc is_warned one_of
read_warned = ((112, txt "lan ⚠", refl, refl), tt)

fetch_lark_urls_rejects_read_example :
    (m : Text) × (fetch_lark_urls web ((link, (txt "docx", txt "T1")) ∷ []) ≡ rejected m)
fetch_lark_urls_rejects_read_example =
    fetch_lark_urls_rejects_read web link (txt "docx") (txt "T1") [] read_warned

-- As many bytes.
unfoldable bytes : ℕ → List ℕ
bytes zero = []
bytes (suc n) = 0 ∷ bytes n

length-bytes : (n : ℕ) → length (bytes n) ≡ n
unfolding bytes
length-bytes zero = refl
length-bytes (suc n) = ap suc (length-bytes n)

limit_below : default_max text < 1048577
limit_below = omega arith

too_large : default_max text < length (bytes 1048577)
too_large = subst (λ n. default_max text < n) (sym (length-bytes 1048577)) limit_below

not_links : text ≢ web_page
not_links h = cc

ingest_file_rejects_large_example :
    ingest_file web tools text (txt "a.md") (bytes 1048577)
    ≡ rejected (size_message text (length (bytes 1048577)))
ingest_file_rejects_large_example =
    ingest_file_rejects_large web tools text (txt "a.md") (bytes 1048577) not_links too_large
