-- ===== src/Api/Rehydrate.antt =====
-- internal/api/rehydrate.go: segments are fetched from the archive, and removed again.
pub mod Request
pub mod Job
pub mod Removal
pub mod Selected
pub mod Back
