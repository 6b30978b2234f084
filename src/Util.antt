-- ===== src/Util.antt =====
-- review_agent/util: hashing and quoting of texts, formats of files, paths, identifiers.
pub mod Md
pub mod FileMagic
pub mod Ids
