-- ===== src/Slack/Adapter/Gate.antt =====
-- Which events become tasks.
use review_agent_v.Prelude.{Text, Bool, true, false, ◌≡◌, refl, ◌⊎◌, inl, inr, Bool-cases}
use review_agent_v.Slack.Event.{SlackEvent}
use review_agent_v.Slack.Adapter
use review_agent_v.Slack.Adapter.{
  Adapter, Python, is_by_bot, is_for_bot, seen_before, after_dedup, handle_message, admit,
}
use review_agent_v.Slack.Dedup.{Dedup}
use review_agent_v.Tasks.Queue.{TaskQueue}

-- The tasks are as they were, or the event is new, by a user, and for the bot.
abbrev pub IsGated :
    (bot_user_id : Text) → SlackEvent → Adapter.Reading → (before after : Adapter) → Type 0
IsGated bot_user_id e r before after =
    (after.queue ≡ before.queue)
    ⊎ (((seen_before e r before.dedup).0 ≡ false)
        × (is_by_bot bot_user_id e ≡ false)
        × (is_for_bot bot_user_id e ≡ true))

admitted :
    (py : Python) (bot_user_id : Text) (e : SlackEvent) (r : Adapter.Reading) (q : TaskQueue)
    → (admit py bot_user_id e r q ≡ q)
      ⊎ ((is_by_bot bot_user_id e ≡ false) × (is_for_bot bot_user_id e ≡ true))
unfolding admit
admitted py bot_user_id e r q = elim (Bool-cases (is_by_bot bot_user_id e)) [
  | inl by_bot ↦ inl (rw by_bot refl)
  | inr by_user ↦ elim (Bool-cases (is_for_bot bot_user_id e)) [
    | inl for_bot ↦ inr (by_user, for_bot)
    | inr other ↦ inl (rw (by_user, other) refl)
  ]
]

IsGated-after :
    (py : Python) (bot_user_id : Text) (e : SlackEvent) (r : Adapter.Reading) (q : TaskQueue)
    (p : Bool × Dedup)
    → ((after_dedup py bot_user_id e r q p).queue ≡ q)
      ⊎ ((p.0 ≡ false) × (is_by_bot bot_user_id e ≡ false) × (is_for_bot bot_user_id e ≡ true))
IsGated-after py bot_user_id e r q (true, d) = inl refl
IsGated-after py bot_user_id e r q (false, d) = elim (admitted py bot_user_id e r q) [
  | inl same ↦ inl same
  | inr (by_user, for_bot) ↦ inr (refl, by_user, for_bot)
]

-- A Slack event changes the tasks only if it was not seen before, is not by a bot, and is a
-- direct message or mentions the bot.
pub handle_message-IsGated :
    (py : Python) (bot_user_id : Text) (e : SlackEvent) (r : Adapter.Reading) (a : Adapter)
    → IsGated bot_user_id e r a (handle_message py bot_user_id e r a)
unfolding handle_message
handle_message-IsGated py bot_user_id e r a =
    IsGated-after py bot_user_id e r a.queue (seen_before e r a.dedup)
