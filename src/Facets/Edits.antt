-- ===== src/Facets/Edits.antt =====
-- internal/facets/registry.go: the edits of facets that the operator makes, on the table and the
-- registry together. A failed statement of the catalog is `catalog_error`.
use logpond.Base.{
  Bool, false, not, ◌&&◌, ◌||◌, List, [], ◌∷◌, Option, none, some, all, if◌then◌else◌, leb, ◌==◌, ℕ,
}
use logpond.Base.Text.{Bytes, equal}
use logpond.Base.Int.{ℤ, pos, ltb_ℤ}
use logpond.Base.Assoc.{lookup, has, put, remove}
use logpond.Base.Result.{Result, ok, err}
use logpond.Catalog.Segment.{zero_time}
use logpond.Catalog.CustomFacets.{
  CustomFacet, CustomFacetUpdate, Facets, source_ui, get_custom_facet, insert_custom_facet,
  update_custom_facet, delete_custom_facet,
}
use logpond.Facets.Definition.{
  custom, ui, Definition, is_ui, resolve_label, resolve_value_type, string_of, int_of, is_above,
  default_cap_or,
}
use logpond.Facets.Registry.{Registry, add}

pub data Error : Type 0 where
  conflict : Error
  not_found : Error
  invalid : Error
  catalog_error : Error

pub record CreateInput : Type 0 where
  pub name : Bytes
  pub field : Bytes
  pub display_label : Bytes
  pub cardinality_cap : ℤ
  pub value_type : Bytes

pub record PatchInput : Type 0 where
  pub display_label : Option Bytes
  pub cardinality_cap : Option ℤ

-- The table of the catalog and the registry.
pub record Store : Type 0 where
  pub table : Facets
  pub registry : Registry

-- A rune outside ASCII is refused, as each of its bytes is here.
abbrev pub is_name_char : ℕ → Bool
is_name_char c =
    (leb b'a' c && leb c b'z')
    || (leb b'A' c && leb c b'Z')
    || (leb b'0' c && leb c b'9')
    || c == b'_'
    || c == b'-'
    || c == b'.'

-- `n < 0`
abbrev pub is_below : ℤ → Bool
is_below n = ltb_ℤ n (pos 0)

-- validateCreate: whether there is no error
unfoldable pub validate_create : CreateInput → Bool
validate_create i =
    not (equal i.name [])
    && not (equal i.field [])
    && all is_name_char i.name
    && not (is_below i.cardinality_cap)

-- The row that CreateUI inserts.
unfoldable pub created_row : CreateInput → CustomFacet
created_row i = record {
  name = i.name;
  field = i.field;
  display_label = if equal i.display_label [] then none else some i.display_label;
  cardinality_cap = if is_above i.cardinality_cap then some i.cardinality_cap else none;
  value_type = resolve_value_type i.value_type;
  source = source_ui;
  created_at = zero_time;
  updated_at = zero_time;
}

unfoldable pub created_definition : CreateInput → CustomFacet → Definition
created_definition i stored = record {
  name = stored.name;
  field = stored.field;
  display_label = resolve_label (string_of stored.display_label) stored.name;
  cardinality_cap = default_cap_or (int_of stored.cardinality_cap) i.cardinality_cap;
  value_type = resolve_value_type stored.value_type;
  kind = custom;
  source = ui;
  created_at = stored.created_at;
  updated_at = stored.updated_at;
}

abbrev pub read_created :
    CreateInput → Registry → Facets → Option CustomFacet → Result Error (Store × Definition)
read_created i r t none = err catalog_error
read_created i r t (some stored) =
    let d = created_definition i stored in ok (record { table = t; registry = add d r }, d)

abbrev pub insert_created :
    CreateInput → Registry → Option Facets → Result Error (Store × Definition)
insert_created i r none = err catalog_error
insert_created i r (some t) = read_created i r t (get_custom_facet t i.name)

-- CreateUI
unfoldable pub create_ui : ℤ → CreateInput → Store → Result Error (Store × Definition)
create_ui now i s =
    if not (validate_create i)
    then err invalid
    else if has i.name s.registry.defs
    then err conflict
    else insert_created i s.registry (insert_custom_facet now (created_row i) s.table)

abbrev pub is_below? : Option ℤ → Bool
is_below? none = false
is_below? (some n) = is_below n

-- The entry that UpdateUI writes; a cap that the row does not have stays what it was.
unfoldable pub patched : CustomFacet → Definition → Definition
patched row d = record d {
  display_label = resolve_label (string_of row.display_label) row.name;
  cardinality_cap =
      if is_above (int_of row.cardinality_cap)
      then int_of row.cardinality_cap
      else d.cardinality_cap;
  updated_at = row.updated_at;
}

abbrev pub write_patched :
    Bytes
    → Definition
    → Registry
    → Option (Facets × CustomFacet)
    → Result Error (Store × Definition)
write_patched name d r none = err not_found
write_patched name d r (some (t, row)) =
    let d' = patched row d in
    ok (record { table = t; registry = record r { defs = put name d' r.defs } }, d')

abbrev pub column_update : PatchInput → CustomFacetUpdate
column_update i = record { display_label = i.display_label; cardinality_cap = i.cardinality_cap }

abbrev pub update_existing :
    ℤ → Bytes → PatchInput → Store → Option Definition → Result Error (Store × Definition)
update_existing now name i s none = err not_found
update_existing now name i s (some d) =
    if not (is_ui d.kind d.source)
    then err conflict
    else if is_below? i.cardinality_cap
    then err invalid
    else write_patched name d s.registry (update_custom_facet now name (column_update i) s.table)

-- UpdateUI
unfoldable pub update_ui : ℤ → Bytes → PatchInput → Store → Result Error (Store × Definition)
update_ui now name i s = update_existing now name i s (lookup name s.registry.defs)

-- The first occurrence of the name leaves the order.
abbrev pub remove_first : Bytes → List Bytes → List Bytes
remove_first name [] = []
remove_first name (n ∷ ns) =
    let rest = remove_first name ns in if equal n name then ns else n ∷ rest

abbrev pub forget : Bytes → Registry → Registry
forget name r = record r { defs = remove name r.defs; order = remove_first name r.order }

abbrev pub delete_stored : Bytes → Registry → Bool × Facets → Result Error Store
delete_stored name r (deleted, t) =
    if deleted then ok (record { table = t; registry = forget name r }) else err not_found

abbrev pub delete_existing : Bytes → Store → Option Definition → Result Error Store
delete_existing name s none = err not_found
delete_existing name s (some d) =
    if not (is_ui d.kind d.source)
    then err conflict
    else delete_stored name s.registry (delete_custom_facet name s.table)

-- DeleteUI
unfoldable pub delete_ui : Bytes → Store → Result Error Store
delete_ui name s = delete_existing name s (lookup name s.registry.defs)
