-- ===== src/Facets/Refines.antt =====
-- internal/facets/registry.go: the registry beside the table, after edits of the operator.
pub mod Created
pub mod Updated
pub mod Deleted
pub mod Run
use logpond.Base.{
  ◌≡◌, refl, sym, subst, ap, ◌∙◌, Bool, true, false, not, List, [], ◌∷◌, ◌++◌, Option, some, none,
  map, arith, All, map-All, any, filter, Bool-cases, inl, inr, if◌then◌else◌, ◌⊎◌, ||-eq-false,
}
use logpond.Base.Text.{Bytes, codes, equal, equal_iff, equal_refl}
use logpond.Base.Int.{ℤ, pos}
use logpond.Base.Assoc.{
  Assoc, lookup, has, put, remove, keys, put-fresh, keys-put_fresh, keys-put, lookup→has,
  lookup_none→has,
}
use logpond.Base.Result.{Result, ok, err}
use logpond.Base.Unique.{snoc-IsUnique, update_at-IsUnique, filter-IsUnique}
use logpond.Catalog.CustomFacets.{
  CustomFacet, CustomFacetUpdate, Facets, source_ui, is_named, created_before, get_custom_facet,
  update_named, inserted_facet, updated_facet, insert_custom_facet, update_custom_facet,
  delete_custom_facet,
}
use logpond.Facets.Definition.{
  Definition, is_ui, is_above, int_of, string_of, default_cap_or, resolve_label,
}
use logpond.Facets.Registry.{
  Registry, Config, add, base, default_cap, rebuild, load, load_ui_rows, ui_definition,
}
use logpond.Facets.Edits.{
  Error, Store, insert_created, CreateInput, PatchInput, create_ui, update_ui, delete_ui,
  created_row, created_definition, validate_create, patched,
}
use logpond.Facets.Shown.{
  entry, shown, show_one, add_rows-defs, shown-snoc, set, set-fresh, shown-update_named,
  shown-filter, remove-fresh,
}
use logpond.Facets.Shape.{Distinct, NotUi, base-NotUi, IsShaped, rebuild-IsShaped}
use logpond.Facets.Rows.{
  HasNames, name_of, load_ui_rows-snoc, load_ui_rows-update_named, load_ui_rows-filter,
  load_ui_rows-All, get_custom_facet-snoc, get_custom_facet-update_named, get_custom_facet-All,
}

-- The registry is what a load of the table gives, but for the warnings; names are keys.
pub record IsSync (cfg : Option Config) (s : Store) : Type 0 where
  pub defs : s.registry.defs ≡ (load cfg s.table).defs
  pub order : s.registry.order ≡ (load cfg s.table).order
  pub names : HasNames s.table

pub load-defs :
    (cfg : Option Config) (t : Facets)
    → (load cfg t).defs ≡ shown (default_cap cfg) (load_ui_rows t) (base cfg).defs
unfolding load rebuild
load-defs cfg t = add_rows-defs (default_cap cfg) (load_ui_rows t) (base cfg)

pub load-IsShaped : (cfg : Option Config) (t : Facets) → IsShaped (load cfg t)
unfolding load
load-IsShaped cfg t = rebuild-IsShaped cfg (load_ui_rows t)

-- The order follows from the entries.
pub sync :
    (cfg : Option Config) (s : Store)
    → s.registry.defs ≡ (load cfg s.table).defs
    → s.registry.order ≡ keys s.registry.defs
    → HasNames s.table
    → IsSync cfg s
sync cfg s d o n = record {
  defs = d;
  order = o ∙ ap keys d ∙ sym (load-IsShaped cfg s.table).keyed;
  names = n;
}

pub IsSync-keys :
    (cfg : Option Config) (s : Store) → IsSync cfg s → s.registry.order ≡ keys s.registry.defs
IsSync-keys cfg s h = h.order ∙ (load-IsShaped cfg s.table).keyed ∙ ap keys (sym h.defs)

pub IsSync-Distinct : (cfg : Option Config) (s : Store) → IsSync cfg s → Distinct s.registry.defs
IsSync-Distinct cfg s h = subst Distinct (sym h.defs) (load-IsShaped cfg s.table).distinct

pub IsSync-shown :
    (cfg : Option Config) (s : Store)
    → IsSync cfg s
    → s.registry.defs ≡ shown (default_cap cfg) (load_ui_rows s.table) (base cfg).defs
IsSync-shown cfg s h = h.defs ∙ load-defs cfg s.table

pub load-IsSync :
    (cfg : Option Config) (t : Facets)
    → HasNames t
    → IsSync cfg (record { table = t; registry = load cfg t })
load-IsSync cfg t h = record { defs = refl; order = refl; names = h }
