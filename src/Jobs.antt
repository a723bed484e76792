-- ===== src/Jobs.antt =====
-- internal/jobs: operations that outlive the request that starts them.
pub mod Manager
pub mod Lifecycle
pub mod Foreground
