-- ===== src/Ingest.antt =====
-- internal/ingest: the buffer of accepted events and the live-tail fan-out.
pub mod Buffer
pub mod Extractor
pub mod Fanout
