-- ===== src/Catalog/CustomFacets.antt =====
-- internal/catalog/catalog.go: the statements on the table custom_facets, whose primary key is the
-- name. A NULL column is `none`.
use logpond.Base.{
  Bool, not, ◌&&◌, List, [], ◌∷◌, ◌++◌, Option, none, some, map, any, filter, if◌then◌else◌,
}
use logpond.Base.Text.{Bytes, codes, equal}
use logpond.Base.Int.{ℤ, pos, ltb_ℤ}
use logpond.Catalog.Segment.{zero_time}
use logpond.Catalog.Order.{order_by}

pub record CustomFacet : Type 0 where
  pub name : Bytes
  pub field : Bytes
  pub display_label : Option Bytes
  pub cardinality_cap : Option ℤ
  pub value_type : Bytes
  pub source : Bytes
  pub created_at : ℤ
  pub updated_at : ℤ

-- A pointer that is nil leaves its column unchanged.
pub record CustomFacetUpdate : Type 0 where
  pub display_label : Option Bytes
  pub cardinality_cap : Option ℤ

abbrev pub source_config : Bytes
source_config = codes "config"

abbrev pub source_ui : Bytes
source_ui = codes "ui"

abbrev pub Facets : Type 0
Facets = List CustomFacet

abbrev pub is_named : Bytes → CustomFacet → Bool
is_named name f = equal f.name name

abbrev pub created_before : CustomFacet → CustomFacet → Bool
created_before f g = ltb_ℤ f.created_at g.created_at

-- ListCustomFacets
unfoldable pub list_custom_facets : Facets → Facets
list_custom_facets t = order_by created_before t

-- GetCustomFacet
abbrev pub get_custom_facet : Facets → Bytes → Option CustomFacet
get_custom_facet [] name = none
get_custom_facet (f ∷ t) name =
    let later = get_custom_facet t name in if is_named name f then some f else later

abbrev is_zero_time : ℤ → Bool
is_zero_time at = not (ltb_ℤ at zero_time) && not (ltb_ℤ zero_time at)

abbrev or_now : ℤ → ℤ → ℤ
or_now now at = if is_zero_time at then now else at

unfoldable pub inserted_facet : ℤ → CustomFacet → CustomFacet
inserted_facet now f = record f {
  created_at = or_now now f.created_at;
  updated_at = or_now now f.updated_at;
  value_type = if equal f.value_type [] then codes "string" else f.value_type;
}

-- InsertCustomFacet; no result if the name is taken.
unfoldable pub insert_custom_facet : ℤ → CustomFacet → Facets → Option Facets
insert_custom_facet now f t =
    if any (is_named f.name) t then none else some (t ++ inserted_facet now f ∷ [])

abbrev label_column : Option Bytes → Option Bytes → Option Bytes
label_column none old = old
label_column (some s) old = if equal s [] then none else some s

abbrev pub cap_column : Option ℤ → Option ℤ → Option ℤ
cap_column none old = old
cap_column (some n) old = if ltb_ℤ (pos 0) n then some n else none

unfoldable pub updated_facet : ℤ → CustomFacetUpdate → CustomFacet → CustomFacet
updated_facet now u f = record f {
  display_label = label_column u.display_label f.display_label;
  cardinality_cap = cap_column u.cardinality_cap f.cardinality_cap;
  updated_at = now;
}

-- A write to the rows of one name.
abbrev pub update_named : Bytes → (CustomFacet → CustomFacet) → Facets → Facets
update_named name f = map (λ g. if is_named name g then f g else g)

abbrev pub read_back : Facets → Option CustomFacet → Option (Facets × CustomFacet)
read_back t none = none
read_back t (some f) = some (t, f)

-- UpdateCustomFacet: the new table and the row that the query behind it reads; no result is
-- sql.ErrNoRows.
unfoldable pub update_custom_facet :
    ℤ → Bytes → CustomFacetUpdate → Facets → Option (Facets × CustomFacet)
update_custom_facet now name u t =
    if any (is_named name) t
    then read_back (update_named name (updated_facet now u) t)
        (get_custom_facet (update_named name (updated_facet now u) t) name)
    else none

-- DeleteCustomFacet: whether a row was there, and the new table.
unfoldable pub delete_custom_facet : Bytes → Facets → Bool × Facets
delete_custom_facet name t = (any (is_named name) t, filter (λ f. not (is_named name f)) t)
