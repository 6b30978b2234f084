-- ===== src/Checks/Messaging.antt =====
-- The theorems on messages, webhooks and requests, at concrete values.
use review_agent_v.Prelude.{
  Text, txt, text_eq, ℕ, zero, suc, ◌≤◌, leb, true, false, ◌&&◌, none, some, [], length, ◌≡◌, refl,
  ◌↔◌, arith,
}
use review_agent_v.Prelude.Json.{str, obj, arr, cons, nil, num, pos, Fields, end, field, get}
use review_agent_v.Lark.Message.{IncomingMessage}
use review_agent_v.Lark.Webhook
use review_agent_v.Lark.Webhook.{Hook, Request, accepted, consttime_eq, lark_webhook, body_or_dict}
use review_agent_v.Lark.Webhook.Stored.{lark_webhook-IsOnce}
use review_agent_v.Lark.Webhook.Signature.{consttime_eq_iff}
use review_agent_v.Lark.Webhook.Forged.{without_secrets, unsigned_needs_no_secret}
use review_agent_v.Lark.Client.{
  Net, Client, answer, dict, judge, expired, request_with_retry, raised, unreachable,
}
use review_agent_v.Lark.Client.Retries.{expired_tokens_reach_the_end}
use review_agent_v.Llm.Deepseek
use review_agent_v.Slack.Event.{SlackEvent}
use review_agent_v.Slack.Adapter
use review_agent_v.Slack.Adapter.{
  Adapter, Python, handle_message, seen_before, posted_text, reply_text,
}
use review_agent_v.Slack.Adapter.Twice.{handle_message_again}
use review_agent_v.Slack.Adapter.Gate.{IsGated, handle_message-IsGated}
use review_agent_v.Tasks.Queue.{TaskQueue}
use review_agent_v.Checks.Samples.{store}

abbrev queue : TaskQueue
queue = record { storage = store; queues = [] }

abbrev message : IncomingMessage
message = record {
  event_id = txt "e9";
  sender_open_id = txt "ou_ann";
  chat_type = txt "p2p";
  msg_type = txt "text";
  content_raw = txt "{}";
  content_text = txt "hello";
  chat_id = txt "c1";
  create_time = txt "1";
  message_id = txt "m1";
  file_key = [];
}

-- A plain event with a text.
abbrev event : Fields
event =
    field "header"
      (obj (
        field "event_id" (str (txt "e7"))
          (field "event_type" (str (txt "im.message.receive_v1")) end)))
      (field "event"
        (obj (
          field "message"
            (obj
              (field "message_type" (str (txt "text")) (field "content" (str (txt "hello")) end)))
            end))
        end)

abbrev hook : Hook
hook = record {
  encrypt_key = txt "secret";
  verification_token = txt "token";
  encode = λ t. t;
  sha256_hex = λ raw. raw;
  sha256 = λ t. t;
  loads_bytes = λ raw. some (obj event);
  loads = λ t. none;
  decrypt = λ v k. none;
}

abbrev request : Request
request = record { timestamp = []; nonce = []; signature = []; body = txt "{…}" }

taken : (lark_webhook hook (txt "t1") request queue).0 ≡ accepted
unfolding lark_webhook text_eq get
taken = refl

lark_webhook-IsOnce_example :
    lark_webhook hook (txt "t2") request (lark_webhook hook (txt "t1") request queue).1
    ≡ (Webhook.dup, (lark_webhook hook (txt "t1") request queue).1)
lark_webhook-IsOnce_example = lark_webhook-IsOnce hook request (txt "t1") (txt "t2") queue taken

no_envelope : get "encrypt" event ≡ none
unfolding get
no_envelope = refl

no_token : get "token" event ≡ none
unfolding get
no_token = refl

unsigned_needs_no_secret_example :
    lark_webhook hook (txt "t1") request queue
    ≡ lark_webhook (without_secrets hook) (txt "t1") request queue
unsigned_needs_no_secret_example =
    unsigned_needs_no_secret hook (txt "t1") request queue event refl refl no_envelope no_token

consttime_eq_iff_example : (consttime_eq (txt "a1") (txt "a2") ≡ true) ↔ (txt "a1" ≡ txt "a2")
consttime_eq_iff_example = consttime_eq_iff (txt "a1") (txt "a2")

-- A token is granted each time, and is never good.
abbrev net : Net
net = record {
  time = λ n. n;
  granted = λ n. some (txt "t", 7200);
  response = λ n. answer 200 (dict (field "code" (num (pos 99991663)) end));
}

always_expired : (n : ℕ) → judge (net.response n) ≡ expired
unfolding judge get
always_expired n = refl

always_granted : (n : ℕ) → (t : Text) × (life : ℕ) × (net.granted n ≡ some (t, life))
always_granted n = (txt "t", 7200, refl)

abbrev client : Client
client = record { token = none; expires_at = 0; reads = 0; grants = 0; requests = 0 }

expired_tokens_reach_the_end_example : (request_with_retry net client).0 ≡ raised unreachable
expired_tokens_reach_the_end_example =
    expired_tokens_reach_the_end net client always_expired always_granted

-- An error of the network, then an answer.
abbrev response : ℕ → Deepseek.Response
response zero = Deepseek.http_error
response (suc n) = Deepseek.answer 200 (
    some (
      obj (
        field "choices"
          (arr (cons (obj (field "message" (obj (field "content" (str (txt "yes")) end)) end)) nil))
          end)))

abbrev slack_event : SlackEvent
slack_event = record {
  event_id = none;
  bot_id = none;
  subtype = none;
  user = some (txt "U1");
  channel = some (txt "D1");
  channel_type = none;
  team = none;
  team_id = none;
  thread_ts = none;
  ts = some (txt "1.5");
  text = some (txt "hello");
  files = [];
}

abbrev python : Python
python = record { is_word = λ c. leb 97 c && leb c 122; dumps = λ d. [] }

abbrev adapter : Adapter
adapter = record { dedup = record { max = 2000; ttl = 300; cache = [] }; queue = queue }

abbrev reading : ℕ → Adapter.Reading
reading now = record { first_now = now; second_now = now; millis = []; now = txt "t1"; size = 9 }

not_seen : (seen_before slack_event (reading 5) adapter.dedup).0 ≡ false
unfolding seen_before
not_seen = refl

handle_message_again_example :
    handle_message python
      (txt "B1")
      slack_event
      (reading 100)
      (handle_message python (txt "B1") slack_event (reading 5) adapter)
    ≡ handle_message python (txt "B1") slack_event (reading 5) adapter
handle_message_again_example =
    handle_message_again python (txt "B1") slack_event (reading 5) (reading 100) adapter not_seen
      (omega arith) (omega arith) (omega arith)

handle_message-IsGated_example :
    IsGated
      (txt "B1")
      slack_event
      (reading 5)
      adapter
      (handle_message python (txt "B1") slack_event (reading 5) adapter)
handle_message-IsGated_example =
    handle_message-IsGated python (txt "B1") slack_event (reading 5) adapter

short_text : length (txt "All is well.") ≤ 39000
short_text = omega arith
