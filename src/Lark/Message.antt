-- ===== src/Lark/Message.antt =====
-- `IncomingMessage` of review_agent/lark/types.py, and the dict that goes through the queue of tasks.
use review_agent_v.Prelude.{
  Text, txt, Bool, true, ◌&&◌, Option, none, some, List, [], ◌∷◌, if◌then◌else◌, one_of,
}
use review_agent_v.Prelude.Json.{Json, str, Fields, field, end, get}

pub record IncomingMessage : Type 0 where
  pub event_id : Text
  pub sender_open_id : Text
  pub chat_type : Text
  pub msg_type : Text
  pub content_raw : Text
  pub content_text : Text
  pub chat_id : Text
  pub create_time : Text
  pub message_id : Text
  pub file_key : Text

infixl 5 ◌>>=◌
abbrev ◌>>=◌ : {A B : Type 0} → Option A → (A → Option B) → Option B
none >>= f = none
some a >>= f = f a

-- incoming.__dict__
unfoldable pub to_fields : IncomingMessage → Fields
to_fields m = field "event_id" (str m.event_id) (
    field "sender_open_id" (str m.sender_open_id) (
      field "chat_type" (str m.chat_type) (
        field "msg_type" (str m.msg_type) (
          field "content_raw" (str m.content_raw) (
            field "content_text" (str m.content_text) (
              field "chat_id" (str m.chat_id) (
                field "create_time" (str m.create_time) (
                  field "message_id" (str m.message_id)
                    (field "file_key" (str m.file_key) end)))))))))

abbrev a_text : Option Json → Option Text
a_text (some (str t)) = some t
a_text _ = none

-- The one argument with a default.
abbrev text_or : Text → Option Json → Option Text
text_or default none = some default
text_or default (some (str t)) = some t
text_or default (some _) = none

abbrev names : List Text
names =
    txt "event_id"
    ∷ txt "sender_open_id"
    ∷ txt "chat_type"
    ∷ txt "msg_type"
    ∷ txt "content_raw"
    ∷ txt "content_text"
    ∷ txt "chat_id"
    ∷ txt "create_time"
    ∷ txt "message_id"
    ∷ txt "file_key"
    ∷ []

-- The keys are names of arguments.
abbrev are_known : Fields → Bool
are_known end = true
are_known (field k v rest) = one_of (txt k) names && are_known rest

abbrev message : Fields → Option IncomingMessage
message d = do
  event_id ← a_text (get "event_id" d)
  sender_open_id ← a_text (get "sender_open_id" d)
  chat_type ← a_text (get "chat_type" d)
  msg_type ← a_text (get "msg_type" d)
  content_raw ← a_text (get "content_raw" d)
  content_text ← a_text (get "content_text" d)
  chat_id ← a_text (get "chat_id" d)
  create_time ← a_text (get "create_time" d)
  message_id ← a_text (get "message_id" d)
  file_key ← text_or [] (get "file_key" d)
  some record {
    event_id = event_id;
    sender_open_id = sender_open_id;
    chat_type = chat_type;
    msg_type = msg_type;
    content_raw = content_raw;
    content_text = content_text;
    chat_id = chat_id;
    create_time = create_time;
    message_id = message_id;
    file_key = file_key;
  }

-- `IncomingMessage(**payload)`; `none` is a TypeError, and a value that is no text counts as one.
unfoldable pub of_fields : Fields → Option IncomingMessage
unfolding one_of get
of_fields d = if are_known d then message d else none
