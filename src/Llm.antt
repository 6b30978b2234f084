-- ===== src/Llm.antt =====
-- review_agent/llm: the calls of the model.
pub mod Deepseek
