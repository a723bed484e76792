-- ===== src/Facets/Described.antt =====
-- internal/facets/registry.go: what the configuration makes of each name, told without the registry, and
-- that the registry keeps to it.
use logpond.Base.{List, [], ◌∷◌, Option, none, some, if◌then◌else◌, zero, suc}
use logpond.Base.Text.{Bytes, codes, equal}
use logpond.Base.Int.{ℤ, pos, negsuc}
use logpond.Base.Assoc.{Assoc}
use logpond.Catalog.Segment.{zero_time}
use logpond.Catalog.CustomFacets.{Facets}
use logpond.Facets.Definition.{
  builtin, custom, none_set, config, Definition, resolve_label, resolve_value_type,
}
use logpond.Facets.Registry.{ConfigFacet, Config, Registry, customs}

-- A cap that is set, or the one that stands when none is.
abbrev pub wanted : ℤ → ℤ → ℤ
wanted (pos zero) standing = standing
wanted (pos (suc n)) standing = pos (suc n)
wanted (negsuc n) standing = standing

abbrev pub configured : (Config → ℤ) → ℤ → Option Config → ℤ
configured read standing none = standing
configured read standing (some c) = wanted (read c) standing

-- A built-in facet is named as its field.
abbrev pub built_in : Bytes → Bytes → ℤ → Definition
built_in name label limit = record {
  name = name;
  field = name;
  display_label = label;
  cardinality_cap = limit;
  value_type = codes "string";
  kind = builtin;
  source = none_set;
  created_at = zero_time;
  updated_at = zero_time;
}

abbrev pub declared : ℤ → ConfigFacet → Definition
declared standing f = record {
  name = f.name;
  field = f.field;
  display_label = resolve_label f.display_label f.name;
  cardinality_cap = wanted f.cardinality_cap standing;
  value_type = resolve_value_type f.value_type;
  kind = custom;
  source = config;
  created_at = zero_time;
  updated_at = zero_time;
}

-- The first of the name.
abbrev pub first_declared : ℤ → Bytes → List ConfigFacet → Option Definition
first_declared standing k [] = none
first_declared standing k (f ∷ fs) =
    let later = first_declared standing k fs in
    if equal f.name k then some (declared standing f) else later

-- The built-in facets with their caps, and then the facets of the configuration.
abbrev pub described : Option Config → Bytes → Option Definition
described cfg k =
    if equal (codes "service") k
    then some
        (built_in (codes "service") (codes "Service") (configured (λ c. c.service) (pos 100) cfg))
    else if equal (codes "level") k
    then some (built_in (codes "level") (codes "Level") (configured (λ c. c.level) (pos 10) cfg))
    else if equal (codes "host") k
    then some (built_in (codes "host") (codes "Host") (configured (λ c. c.host) (pos 50) cfg))
    else if equal (codes "source") k
    then some (built_in (codes "source") (codes "Source") (configured (λ c. c.source) (pos 50) cfg))
    else first_declared (configured (λ c. c.default_cardinality_cap) (pos 50) cfg) k (customs cfg)

or_later : Option Definition → Option Definition → Option Definition
or_later none later = later
or_later (some d) later = some d

abbrev built_ins : Option Config → Assoc Definition
built_ins cfg =
    (
      codes "service",
      built_in (codes "service") (codes "Service") (configured (λ c. c.service) (pos 100) cfg),
    )
    ∷ (
      codes "level",
      built_in (codes "level") (codes "Level") (configured (λ c. c.level) (pos 10) cfg),
    )
    ∷ (codes "host", built_in (codes "host") (codes "Host") (configured (λ c. c.host) (pos 50) cfg))
    ∷ (
      codes "source",
      built_in (codes "source") (codes "Source") (configured (λ c. c.source) (pos 50) cfg),
    )
    ∷ []
