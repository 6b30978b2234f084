-- ===== src/Slack.antt =====
-- review_agent/slack: the messages of Slack, from an event to the queue of tasks, and what is sent back.
pub mod Dedup
pub mod Mrkdwn
pub mod Event
pub mod Adapter
