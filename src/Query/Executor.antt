-- ===== src/Query/Executor.antt =====
-- internal/query/executor.go: a query over the segments of the catalog.
pub mod Format
pub mod Statement
pub mod Request
pub mod Engine
pub mod Counting
pub mod Busy
pub mod Facets
pub mod Pages
pub mod Sent
