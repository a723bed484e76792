-- ===== src/Retention.antt =====
-- internal/retention and the eviction loop of internal/api/evictor.go.
pub mod Plan
pub mod Host
pub mod Run
pub mod Evictor
