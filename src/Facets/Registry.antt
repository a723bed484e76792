-- ===== src/Facets/Registry.antt =====
-- internal/facets/registry.go: the registry, its load and its edits. `logger` is left out; a registry
-- with no catalog, whose edits all fail, is too.
use logpond.Base.{List, [], ◌∷◌, ◌++◌, Option, none, some, filter, if◌then◌else◌}
use logpond.Base.Text.{Bytes, codes, equal}
use logpond.Base.Int.{ℤ, pos}
use logpond.Base.Assoc.{Assoc, lookup, has, put}
use logpond.Catalog.Segment.{zero_time}
use logpond.Catalog.CustomFacets.{CustomFacet, Facets, source_ui, list_custom_facets}
use logpond.Facets.Definition.{
  Kind, builtin, custom, none_set, config, ui, Definition, zero_definition, resolve_label,
  resolve_value_type, string_of, int_of, is_above,
}

-- An element of `facets.custom` of the configuration.
pub record ConfigFacet : Type 0 where
  pub name : Bytes
  pub field : Bytes
  pub display_label : Bytes
  pub cardinality_cap : ℤ
  pub value_type : Bytes

-- The block `facets` of the configuration; the caps of the built-in facets by their names.
pub record Config : Type 0 where
  pub default_cardinality_cap : ℤ
  pub service : ℤ
  pub level : ℤ
  pub host : ℤ
  pub source : ℤ
  pub custom : List ConfigFacet

pub data Warning : Type 0 where
  config_ignored : Bytes → Warning
  ui_hidden : Bytes → Kind → Warning

pub record Registry : Type 0 where
  pub defs : Assoc Definition
  pub order : List Bytes
  pub warnings : List Warning

pub record BuiltinSpec : Type 0 where
  pub name : Bytes
  pub field : Bytes
  pub label : Bytes
  pub cap : ℤ

abbrev pub builtin_specs : List BuiltinSpec
builtin_specs =
    record {
      name = codes "service";
      field = codes "service";
      label = codes "Service";
      cap = pos 100;
    }
    ∷ record { name = codes "level"; field = codes "level"; label = codes "Level"; cap = pos 10 }
    ∷ record { name = codes "host"; field = codes "host"; label = codes "Host"; cap = pos 50 }
    ∷ record { name = codes "source"; field = codes "source"; label = codes "Source"; cap = pos 50 }
    ∷ []

-- overrideForBuiltin
unfoldable pub override_for_builtin : Bytes → Config → Option ℤ
override_for_builtin name c =
    if equal name (codes "service")
    then some c.service
    else if equal name (codes "level")
    then some c.level
    else if equal name (codes "host")
    then some c.host
    else if equal name (codes "source")
    then some c.source
    else none

-- `defs[d.Name] = d; order = append(order, d.Name)`
unfoldable pub add : Definition → Registry → Registry
add d r = record r { defs = put d.name d r.defs; order = r.order ++ d.name ∷ [] }

abbrev warn : Warning → Registry → Registry
warn w r = record r { warnings = r.warnings ++ w ∷ [] }

abbrev capped_by : Option ℤ → ℤ → ℤ
capped_by none limit = limit
capped_by (some n) limit = if is_above n then n else limit

abbrev overridden : Option Config → BuiltinSpec → ℤ
overridden none b = b.cap
overridden (some c) b = capped_by (override_for_builtin b.name c) b.cap

unfoldable pub builtin_definition : Option Config → BuiltinSpec → Definition
builtin_definition cfg b = record {
  name = b.name;
  field = b.field;
  display_label = b.label;
  cardinality_cap = overridden cfg b;
  value_type = codes "string";
  kind = builtin;
  source = none_set;
  created_at = zero_time;
  updated_at = zero_time;
}

unfoldable pub default_cap : Option Config → ℤ
default_cap none = pos 50
default_cap (some c) =
    if is_above c.default_cardinality_cap then c.default_cardinality_cap else pos 50

unfoldable pub config_definition : ℤ → ConfigFacet → Definition
config_definition limit f = record {
  name = f.name;
  field = f.field;
  display_label = resolve_label f.display_label f.name;
  cardinality_cap = if is_above f.cardinality_cap then f.cardinality_cap else limit;
  value_type = resolve_value_type f.value_type;
  kind = custom;
  source = config;
  created_at = zero_time;
  updated_at = zero_time;
}

unfoldable pub ui_definition : ℤ → CustomFacet → Definition
ui_definition limit row = record {
  name = row.name;
  field = row.field;
  display_label = resolve_label (string_of row.display_label) row.name;
  cardinality_cap =
      if is_above (int_of row.cardinality_cap) then int_of row.cardinality_cap else limit;
  value_type = resolve_value_type row.value_type;
  kind = custom;
  source = ui;
  created_at = row.created_at;
  updated_at = row.updated_at;
}

abbrev pub add_builtins : Option Config → List BuiltinSpec → Registry → Registry
add_builtins cfg [] r = r
add_builtins cfg (b ∷ bs) r = add_builtins cfg bs (add (builtin_definition cfg b) r)

unfoldable pub add_config : ℤ → ConfigFacet → Registry → Registry
add_config limit f r =
    if has f.name r.defs then warn (config_ignored f.name) r else add (config_definition limit f) r

abbrev pub add_configs : ℤ → List ConfigFacet → Registry → Registry
add_configs limit [] r = r
add_configs limit (f ∷ fs) r = add_configs limit fs (add_config limit f r)

abbrev pub hidden : CustomFacet → Registry → Option Definition → Registry
hidden row r none = r
hidden row r (some d) = warn (ui_hidden row.name d.kind) r

unfoldable pub add_row : ℤ → CustomFacet → Registry → Registry
add_row limit row r =
    if has row.name r.defs
    then hidden row r (lookup row.name r.defs)
    else add (ui_definition limit row) r

abbrev pub add_rows : ℤ → Facets → Registry → Registry
add_rows limit [] r = r
add_rows limit (row ∷ rows) r = add_rows limit rows (add_row limit row r)

abbrev pub customs : Option Config → List ConfigFacet
customs none = []
customs (some c) = c.custom

abbrev pub empty : Registry
empty = record { defs = []; order = []; warnings = [] }

-- rebuildLocked, up to the rows
unfoldable pub base : Option Config → Registry
base cfg = add_configs (default_cap cfg) (customs cfg) (add_builtins cfg builtin_specs empty)

-- rebuildLocked
unfoldable pub rebuild : Option Config → Facets → Registry
rebuild cfg rows = add_rows (default_cap cfg) rows (base cfg)

-- loadUIRows
unfoldable pub load_ui_rows : Facets → Facets
load_ui_rows t = filter (λ f. equal f.source source_ui) (list_custom_facets t)

-- Load
unfoldable pub load : Option Config → Facets → Registry
load cfg t = rebuild cfg (load_ui_rows t)

abbrev pub cons_found : Option Definition → List Definition → List Definition
cons_found none rest = zero_definition ∷ rest
cons_found (some d) rest = d ∷ rest

-- List; a missing key reads as the zero Definition.
unfoldable pub list_from : List Bytes → Assoc Definition → List Definition
list_from [] defs = []
list_from (n ∷ ns) defs = cons_found (lookup n defs) (list_from ns defs)
