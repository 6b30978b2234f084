-- ===== src/Core/Material.antt =====
-- review_agent/core/dispatcher.py: the material of a review, from the first message to what is added later.
pub mod Reading
pub mod Supplement
pub mod Intake
pub mod Gate
pub mod Later
