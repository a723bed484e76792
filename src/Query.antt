-- ===== src/Query.antt =====
-- internal/query: the filter tree (filter.go), its evaluation against an event (match.go) and the
-- values that both work on.
pub mod Value
pub mod Event
pub mod Filter
pub mod Match
pub mod Sql
pub mod Compile
pub mod Executor
