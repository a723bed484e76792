-- ===== src/Facets.antt =====
-- internal/facets: the registry of facets.
pub mod Definition
pub mod Registry
pub mod Edits
pub mod Shown
pub mod Shape
pub mod Rows
pub mod Refines
pub mod Lookup
pub mod Protected
pub mod Listed
pub mod Described
