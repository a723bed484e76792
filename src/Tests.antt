-- ===== src/Tests.antt =====
-- Runs of the definitions on concrete inputs, and each theorem applied at one.
mod Sample
mod Filters
mod Matches
mod Searches
mod Sql
mod Segments
mod Ingestion
mod Registries
mod Executions
mod Background
mod Migrated
mod Requests
mod Rehydrations
