-- ===== src/Lark.antt =====
-- review_agent/lark and the webhook of review_agent/routers: the messages that come in, and the requests to
-- Lark.
pub mod Message
pub mod Post
pub mod Webhook
pub mod Client
