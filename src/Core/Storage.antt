-- ===== src/Core/Storage.antt =====
-- review_agent/core/storage.py: the tables of the database (schema.sql) and the files of each
-- session. A table is the list of its rows, in the order of insertion; `now_iso()` and `ulid()` are
-- arguments. The files of a session hang on its identifier, which names their directory.
pub mod Tables
pub mod Users
pub mod Sessions
pub mod Findings
pub mod Events
pub mod Tasks
pub mod Audit
