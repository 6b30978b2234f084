-- ===== src/Pipeline/Ingest.antt =====
-- review_agent/pipeline/ingest.py and ingest_backends: from a link or a file that a requester sends to the
-- text that is reviewed. What is on the network or in other programs is a parameter.
pub mod Urls
pub mod Result
pub mod Fetch
pub mod Formats
pub mod Files
