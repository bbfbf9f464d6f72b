-- ===== src/Ingest.antt =====
-- server/src/ingest: what happens to a session on its way into the archive.
pub mod TeamStamp
pub mod Scanner
pub mod Tests
