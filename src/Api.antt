-- ===== src/Api.antt =====
-- internal/api: the handlers of POST /ingest/{source_name} and of /api/rehydrate.
pub mod Auth
pub mod Ingest
pub mod Rehydrate
