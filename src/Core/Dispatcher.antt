-- ===== src/Core/Dispatcher.antt =====
-- review_agent/core/dispatcher.py: from an inbound message to the next stage of a session.
pub mod World
pub mod Stages
pub mod CloseChain
pub mod Scanning
pub mod Handlers
pub mod Registration
pub mod Incoming
