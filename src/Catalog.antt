-- ===== src/Catalog.antt =====
-- internal/catalog: the table of segments.
pub mod Segment
pub mod Order
pub mod Table
pub mod Queries
pub mod Range
pub mod Keys
pub mod Writes
pub mod Lookup
pub mod CustomFacets
pub mod Jobs
pub mod Migrations
