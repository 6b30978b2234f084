-- ===== src/Slack/Adapter.antt =====
-- review_agent/slack/adapter.py: an event of Slack on its way to the dispatcher, and a message to a user.
pub mod Twice
pub mod Gate
pub mod Sending
use review_agent_v.Prelude.{
  Text, txt, text_eq, text_eq_iff, text_ne, String, ℕ, zero, suc, ◌+◌, ◌-◌, ◌*◌, ◌/◌, ◌%◌, ◌^◌, ◌≤◌,
  ◌<◌, min, ltb, leb, eqb, Bool, true, false, not, ◌&&◌, ◌||◌, Option, none, some, is_none, List,
  [], ◌∷◌, ◌++◌, length, take, drop, get_elem?, map, filter, any, all, find?, count, All,
  All-append, any-append, length-append, length-take, length-map, take-append-drop, take_all,
  drop_all, length-drop, if◌then◌else◌, is_space, starts_with, ends_with, contains, find_from,
  one_of, strip, lstrip, rstrip, rstrip_if, lstrip_if, ◌≡◌, ◌≢◌, refl, sym, ap, ◌∙◌, ◌⊎◌, ◌↔◌, inl,
  inr, arith, Bool-cases, Option-cases, ltb→lt, lt→ltb, leb→le, eqb_iff,
}
use review_agent_v.Prelude.Json.{Json, str, bool, Fields, field, end}
use review_agent_v.Core.Storage.Tables.{Storage, Event}
use review_agent_v.Core.Storage.Events.{record_event}
use review_agent_v.Lark.Message.{IncomingMessage, to_fields}
use review_agent_v.Slack.Dedup.{Dedup, seen}
use review_agent_v.Slack.Mrkdwn.{truncate_for_slack}
use review_agent_v.Slack.Event.{
  SlackEvent, SlackEventContext, get_or, is_dm, mention, extract_context,
}
use review_agent_v.Tasks.Queue.{TaskQueue, enqueue}

-- What the adapter keeps between events.
pub record Adapter : Type 0 where
  pub dedup : Dedup
  pub queue : TaskQueue

-- What is read from outside for an event: two readings of the monotonic clock, the time of the day in
-- milliseconds and as the storage writes it, and the length of the event as json.
pub record Reading : Type 0 where
  pub first_now : ℕ
  pub second_now : ℕ
  pub millis : Text
  pub now : Text
  pub size : ℕ

-- The parameters of Python: `\w`, and json.dumps.
pub record Python : Type 0 where
  pub is_word : ℕ → Bool
  pub dumps : Fields → Text

-- _build_context, as the dict that is passed on
unfoldable pub context_fields : SlackEventContext → Fields
context_fields c = field "event_id" (str c.event_id) (
    field "user_id" (str c.user_id) (
      field "user_name" (str []) (
        field "channel_id" (str c.channel_id) (
          field "team_id" (str c.team_id) (
            field "thread_ts" (str c.thread_ts) (
              field "msg_ts" (str c.msg_ts) (
                field "text" (str c.text) (
                  field "is_dm" (bool c.is_dm) (
                    field "is_mentioned" (bool c.is_mentioned) (
                      field "msg_type" (str c.msg_type) (
                        field "file_url" (str c.file_url) (
                          field "file_name" (str c.file_name)
                            (field "file_mimetype" (str c.file_mimetype) end)))))))))))))

-- slack_to_incoming
unfoldable pub slack_to_incoming : Python → (millis : Text) → SlackEventContext → IncomingMessage
unfolding context_fields
slack_to_incoming py millis c = record {
  event_id = c.event_id;
  sender_open_id = c.user_id;
  chat_type = if c.is_dm then txt "p2p" else txt "group";
  msg_type = c.msg_type;
  content_raw = py.dumps (context_fields c);
  content_text = c.text;
  chat_id = c.channel_id;
  create_time = millis;
  message_id = c.event_id;
  file_key = c.file_url;
}

-- f"{event.get('channel','')}:{event.get('ts','')}"
abbrev pub dedup_key : SlackEvent → Text
dedup_key e = get_or [] e.channel ++ txt ":" ++ get_or [] e.ts

-- The second look at the cache, by the identifier of the event where it has one.
abbrev pub second_look : (event_id : Text) → (now : ℕ) → Bool × Dedup → Bool × Dedup
second_look event_id now (true, d) = (true, d)
second_look [] now (false, d) = (false, d)
second_look (c ∷ event_id) now (false, d) = seen (c ∷ event_id) now d

-- Whether one of the keys was seen, and the cache after it.
unfoldable pub seen_before : SlackEvent → Reading → Dedup → Bool × Dedup
unfolding seen
seen_before e r d =
    second_look (get_or [] e.event_id) r.second_now (seen (dedup_key e) r.first_now d)

-- event.get("bot_id") or event.get("subtype") == "bot_message", or it is the bot's own
unfoldable pub is_by_bot : (bot_user_id : Text) → SlackEvent → Bool
unfolding text_eq
is_by_bot bot_user_id e =
    not (text_eq (get_or [] e.bot_id) [])
    || text_eq (get_or [] e.subtype) (txt "bot_message")
    || is_user e.user
  where
    is_user : Option Text → Bool
    is_user none = false
    is_user (some u) = text_eq u bot_user_id

-- The gate for channels: a direct message, or the bot's mention in the text.
unfoldable pub is_for_bot : (bot_user_id : Text) → SlackEvent → Bool
unfolding is_dm contains
is_for_bot bot_user_id e = is_dm e || contains (get_or [] e.text) (mention bot_user_id)

-- The row for the event; whether it was seen before does not matter here.
abbrev slack_row : IncomingMessage → Reading → Event
slack_row m r = record {
  event_id = m.event_id;
  sender_oid = m.sender_open_id;
  event_type = txt "slack_message";
  msg_type = m.msg_type;
  size_bytes = r.size;
  content_hash = [];
  summary = take 30 m.content_text;
  handled = false;
  created_at = r.now;
}

-- The last steps: the row of the event, and the task for the dispatcher.
unfoldable pub enqueue_message : IncomingMessage → Reading → TaskQueue → TaskQueue
unfolding record_event to_fields enqueue
enqueue_message m r q =
    (enqueue r.now (txt "incoming_message") (to_fields m) (some m.sender_open_id)
      (record q { storage = record_event (slack_row m r) q.storage })).0

module _ (py : Python) (bot_user_id : Text) where
  -- What follows for an event that was not seen before.
  unfoldable pub admit : SlackEvent → Reading → TaskQueue → TaskQueue
  unfolding is_by_bot is_for_bot extract_context slack_to_incoming enqueue_message
  admit e r q =
      if is_by_bot bot_user_id e
      then q
      else if is_for_bot bot_user_id e
      then enqueue_message
          (slack_to_incoming py r.millis (extract_context py.is_word bot_user_id e)) r q
      else q

  abbrev pub after_dedup : SlackEvent → Reading → TaskQueue → Bool × Dedup → Adapter
  after_dedup e r q (true, d) = record { dedup = d; queue = q }
  after_dedup e r q (false, d) = record { dedup = d; queue = admit e r q }

  -- _handle_message
  unfoldable pub handle_message : SlackEvent → Reading → Adapter → Adapter
  unfolding seen_before admit
  handle_message e r a = after_dedup e r a.queue (seen_before e r a.dedup)

-- `_safe_dm`: the text that is posted, by the conversion of markdown.
unfoldable pub posted_text : (markdown_to_slack : Text → Text) → (text_markdown : Text) → Text
unfolding truncate_for_slack
posted_text markdown_to_slack text_markdown =
    take 100 (truncate_for_slack (markdown_to_slack text_markdown) 39000)

-- `send_reply_to_thread`: the text that is posted there.
unfoldable pub reply_text : (markdown_to_slack : Text → Text) → (text_markdown : Text) → Text
unfolding truncate_for_slack
reply_text markdown_to_slack text_markdown =
    truncate_for_slack (markdown_to_slack text_markdown) 39000
