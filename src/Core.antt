-- ===== src/Core.antt =====
-- review_agent/core: the enumerations, the records and the storage.
pub mod Enums
pub mod Cursor
pub mod Models
pub mod Storage
pub mod Dispatcher
pub mod Material
