-- ===== src/Lark/Webhook.antt =====
-- review_agent/routers/lark_webhook.py, from a request to the queue of tasks, with review_agent/lark/webhook.py.
-- What a request gives to the parts outside of the source is a parameter. A field that is asked for as a text
-- or a dict and is none counts as an exception.
pub mod Signature
pub mod Stored
pub mod Forged
use review_agent_v.Prelude.{
  Text, txt, text_eq, text_eq_iff, text_ne, String, ℕ, zero, suc, ◌+◌, ◌-◌, ◌*◌, ◌/◌, ◌%◌, ◌^◌, ◌≤◌,
  ◌<◌, min, ltb, leb, eqb, Bool, true, false, not, ◌&&◌, ◌||◌, Option, none, some, is_none, List,
  [], ◌∷◌, ◌++◌, length, take, drop, get_elem?, map, filter, any, all, find?, count, All,
  All-append, any-append, length-append, length-take, length-map, take-append-drop, take_all,
  drop_all, length-drop, if◌then◌else◌, is_space, starts_with, ends_with, contains, find_from,
  one_of, strip, lstrip, rstrip, rstrip_if, lstrip_if, ◌≡◌, ◌≢◌, refl, sym, ap, ◌∙◌, ◌⊎◌, ◌↔◌, inl,
  inr, arith, Bool-cases, Option-cases, ltb→lt, lt→ltb, leb→le, eqb_iff,
}
use review_agent_v.Prelude.Json.{Json, str, obj, null, Fields, end, get, truthy, is_text}
use review_agent_v.Core.Storage.Tables.{Storage, Event}
use review_agent_v.Core.Storage.Events.{event_seen, record_event, mark_event_handled}
use review_agent_v.Lark.Message.{IncomingMessage, to_fields}
use review_agent_v.Lark.Post.{extract_post_text, text_or}
use review_agent_v.Tasks.Queue.{TaskQueue, enqueue}
use review_agent_v.Util.Md.{text_hash}
use Prim.Native.Nat.{bit_or, bit_xor}

-- out, after the characters of both
unfoldable pub differences : (out : ℕ) → Text → Text → ℕ
differences out [] t = out
differences out (c ∷ s) [] = out
differences out (c ∷ s) (d ∷ t) = differences (bit_or out (bit_xor c d)) s t

-- _consttime_eq
unfoldable pub consttime_eq : Text → Text → Bool
unfolding differences
consttime_eq a b = if not (eqb (length a) (length b)) then false else eqb (differences 0 a b) 0

-- The headers that are read, and the body.
pub record Request : Type 0 where
  pub timestamp : Text
  pub nonce : Text
  pub signature : Text
  pub body : List ℕ

-- What the router was made with, and the parts outside: utf-8, sha256 in hexadecimal, json.loads of bytes
-- and of a text, and the decryption of an envelope.
pub record Hook : Type 0 where
  pub encrypt_key : Text
  pub verification_token : Text
  pub encode : Text → List ℕ
  pub sha256_hex : List ℕ → Text
  pub sha256 : Text → Text
  pub loads_bytes : List ℕ → Option Json
  pub loads : Text → Option Json
  pub decrypt : Json → (encrypt_key : Text) → Option Fields

pub data Answer : Type 0 where
  invalid_json bad_signature no_encrypt_key bad_token crashed : Answer
  challenge : Option Json → Answer
  no_event_id dup ignored accepted : Answer

-- not t
abbrev pub is_empty_text : Text → Bool
is_empty_text t = text_eq t []

-- verify_v2_signature
unfoldable pub verify_v2_signature : Hook → Request → Bool
unfolding consttime_eq text_eq
verify_v2_signature hook r =
    if is_empty_text r.timestamp
      || is_empty_text r.nonce
      || is_empty_text r.signature
      || is_empty_text hook.encrypt_key
    then false
    else consttime_eq
        (hook.sha256_hex (
          hook.encode r.timestamp ++ hook.encode r.nonce ++ hook.encode hook.encrypt_key ++ r.body))
        r.signature

-- x or {}
abbrev pub dict_or_empty : Option Json → Option Fields
dict_or_empty none = some end
dict_or_empty (some (obj d)) = some d
dict_or_empty (some v) = if truthy v then none else some end

infixl 5 ◌>>=◌
abbrev ◌>>=◌ : {A B : Type 0} → Option A → (A → Option B) → Option B
none >>= f = none
some a >>= f = f a

-- d.get(key, {})
abbrev dict_at : Option Json → Option Fields
dict_at none = some end
dict_at (some (obj d)) = some d
dict_at (some v) = none

-- What is read from an event that is not a duplicate.
pub record Parsed : Type 0 where
  pub event_type : Text
  pub message : IncomingMessage

-- The text and the file key of a content, by the type of the message.
abbrev of_content : Text → (content_raw : Text) → Option Json → Option (Text × Text)
of_content msg_type content_raw none = some (content_raw, [])
of_content msg_type content_raw (some (obj d)) =
    if text_eq msg_type (txt "text")
    then (do t ← text_or [] (get "text" d); some (t, []))
    else if text_eq msg_type (txt "post")
    then (do t ← extract_post_text d; some (t, []))
    else if one_of msg_type (txt "file" ∷ txt "image" ∷ txt "audio" ∷ [])
    then (do
      file_key ← text_or [] (get "file_key" d)
      key ← text_or file_key (get "image_key" d)
      some ([], key))
    else some ([], [])
of_content msg_type content_raw (some v) =
    if one_of msg_type (txt "text" ∷ txt "post" ∷ txt "file" ∷ txt "image" ∷ txt "audio" ∷ [])
    then none
    else some ([], [])

-- raw_body or b"{}"
abbrev pub body_or_dict : List ℕ → List ℕ
body_or_dict [] = txt "{}"
body_or_dict (c ∷ body) = c ∷ body

module _ (hook : Hook) where
  -- From the event to the message.
  unfoldable pub parse_event : (event_id : Text) → (header : Fields) → Fields → Option Parsed
  unfolding get truthy text_eq one_of extract_post_text
  parse_event event_id header d = do
    event_type ← text_or [] (get "event_type" header)
    event ← dict_or_empty (get "event" d)
    msg ← dict_or_empty (get "message" event)
    sender ← dict_or_empty (get "sender" event)
    sender_id ← dict_at (get "sender_id" sender)
    sender_oid ← text_or [] (get "open_id" sender_id)
    msg_type ← text_or [] (get "message_type" msg)
    content_raw ← text_or [] (get "content" msg)
    read ← of_content msg_type content_raw (hook.loads content_raw)
    chat_type ← text_or (txt "p2p") (get "chat_type" msg)
    chat_id ← text_or [] (get "chat_id" msg)
    create_time ← text_or [] (get "create_time" msg)
    message_id ← text_or [] (get "message_id" msg)
    some record {
      event_type = event_type;
      message = record {
        event_id = event_id;
        sender_open_id = sender_oid;
        chat_type = chat_type;
        msg_type = msg_type;
        content_raw = content_raw;
        content_text = read.0;
        chat_id = chat_id;
        create_time = create_time;
        message_id = message_id;
        file_key = read.1;
      };
    }

  -- The row of the event.
  abbrev pub event_row : (now : Text) → (size : ℕ) → (event_id : Text) → Parsed → Event
  event_row now size event_id p = record {
    event_id = event_id;
    sender_oid = p.message.sender_open_id;
    event_type = p.event_type;
    msg_type = p.message.msg_type;
    size_bytes = size;
    content_hash = text_hash hook.sha256 p.message.content_raw;
    summary = take 30 p.message.content_text;
    handled = false;
    created_at = now;
  }

  abbrev pub handled : (event_id : Text) → TaskQueue → TaskQueue
  handled event_id q = record q { storage = mark_event_handled event_id q.storage }

  -- The part from `storage.record_event` on.
  unfoldable pub take_event :
      (now : Text) → (size : ℕ) → (event_id : Text) → Parsed → TaskQueue → Answer × TaskQueue
  unfolding record_event mark_event_handled enqueue to_fields text_hash text_eq
  take_event now size event_id p q =
      let m = p.message in
      let q1 = record q { storage = record_event (event_row now size event_id p) q.storage } in
      if text_eq p.event_type (txt "im.message.receive_v1")
      then (
        accepted,
        handled event_id
            (enqueue now (txt "incoming_message") (to_fields m) (some m.sender_open_id) q1).0,
      )
      else (ignored, handled event_id q1)

  abbrev pub take_parsed :
      (now : Text) → (size : ℕ) → (event_id : Text) → Option Parsed → TaskQueue → Answer × TaskQueue
  take_parsed now size event_id none q = (crashed, q)
  take_parsed now size event_id (some p) q = take_event now size event_id p q

  -- The part from the look for a duplicate on.
  unfoldable pub take_new :
      (now : Text)
      → (size : ℕ) → (event_id : Text) → (header : Fields) → Fields
      → TaskQueue
      → Answer × TaskQueue
  unfolding parse_event take_event event_seen
  take_new now size event_id header d q =
      if event_seen event_id q.storage
      then (dup, q)
      else take_parsed now size event_id (parse_event event_id header d) q

  abbrev pub take_id :
      (now : Text) → (size : ℕ) → Option Text → Fields → Fields → TaskQueue → Answer × TaskQueue
  take_id now size none header d q = (crashed, q)
  take_id now size (some []) header d q = (no_event_id, q)
  take_id now size (some (c ∷ event_id)) header d q = take_new now size (c ∷ event_id) header d q

  abbrev pub take_header :
      (now : Text) → (size : ℕ) → Option Fields → Fields → TaskQueue → Answer × TaskQueue
  take_header now size none d q = (crashed, q)
  take_header now size (some header) d q =
      take_id now size (text_or [] (get "event_id" header)) header d q

  -- obj.get("token") and verification_token and obj["token"] != verification_token
  unfoldable pub is_bad_token : Fields → Bool
  unfolding get truthy is_text text_eq
  is_bad_token d = elim (get "token" d) [
    | none ↦ false
    | some v ↦
        truthy v
        && not (is_empty_text hook.verification_token)
        && not (is_text hook.verification_token (some v))
  ]

  -- The part after the envelope is open.
  unfoldable pub take_plain : (now : Text) → (size : ℕ) → Fields → TaskQueue → Answer × TaskQueue
  unfolding take_new is_bad_token is_text get truthy
  take_plain now size d q =
      if is_text (txt "url_verification") (get "type" d)
      then (challenge (get "challenge" d), q)
      else if is_bad_token d
      then (bad_token, q)
      else take_header now size (dict_or_empty (get "header" d)) d q

  abbrev pub take_decrypted :
      (now : Text) → (size : ℕ) → Option Fields → TaskQueue → Answer × TaskQueue
  take_decrypted now size none q = (crashed, q)
  take_decrypted now size (some d) q = take_plain now size d q

  abbrev pub take_envelope :
      (now : Text) → (size : ℕ) → Option Json → Fields → TaskQueue → Answer × TaskQueue
  take_envelope now size none d q = take_plain now size d q
  take_envelope now size (some envelope) d q =
      if is_empty_text hook.encrypt_key
      then (no_encrypt_key, q)
      else take_decrypted now size (hook.decrypt envelope hook.encrypt_key) q

  -- A body that is no dict has no `get`.
  abbrev pub take_object : (now : Text) → (size : ℕ) → Option Json → TaskQueue → Answer × TaskQueue
  take_object now size none q = (crashed, q)
  take_object now size (some (obj d)) q = take_envelope now size (get "encrypt" d) d q
  take_object now size (some v) q = (crashed, q)

  -- if encrypt_key and request.headers.get("X-Lark-Signature"): if not wh.verify_v2_signature(…)
  unfoldable pub is_bad_signature : Request → Bool
  unfolding verify_v2_signature text_eq
  is_bad_signature r =
      not (is_empty_text hook.encrypt_key)
      && not (is_empty_text r.signature)
      && not (verify_v2_signature hook r)

  abbrev pub take_body : (now : Text) → Request → Option Json → TaskQueue → Answer × TaskQueue
  take_body now r none q = (invalid_json, q)
  take_body now r (some v) q =
      if is_bad_signature r then (bad_signature, q) else take_object now (length r.body) (some v) q

  -- lark_webhook
  unfoldable pub lark_webhook : (now : Text) → Request → TaskQueue → Answer × TaskQueue
  unfolding is_bad_signature take_plain
  lark_webhook now r q = take_body now r (hook.loads_bytes (body_or_dict r.body)) q
