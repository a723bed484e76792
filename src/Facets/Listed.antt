-- ===== src/Facets/Listed.antt =====
-- internal/facets/registry.go: List.
use logpond.Base.Text.{Bytes}
use logpond.Base.Assoc.{Assoc}
use logpond.Catalog.CustomFacets.{Facets}
use logpond.Facets.Definition.{Definition}

abbrev pub name_of : Definition → Bytes
name_of d = d.name
