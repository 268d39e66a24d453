-- ===== src/Ingest.antt =====
-- src/ingest: the records of what was stored and may not be indexed.
pub mod Intents
