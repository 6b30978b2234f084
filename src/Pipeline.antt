-- ===== src/Pipeline.antt =====
-- review_agent/pipeline: from a reply or a model's answer to the next state of a session.
pub mod Intents
pub mod QaLoop
pub mod Scan
pub mod FinalGate
pub mod Deliver
pub mod Extract
pub mod ConfirmTopic
pub mod Ingest
