-- ===== src/Tests/Registries.antt =====
-- Runs of internal/facets/registry.go.
use logpond.Base.{◌≡◌, refl, List, [], ◌∷◌, some, none}
use logpond.Base.Text.{Bytes, codes, equal}
use logpond.Base.Int.{pos}
use logpond.Base.Result.{err}
use logpond.Catalog.Order.{insert, order_by}
use logpond.Catalog.CustomFacets.{
  CustomFacet, source_ui, inserted_facet, insert_custom_facet, updated_facet, update_custom_facet,
  delete_custom_facet, list_custom_facets,
}
use logpond.Facets.Definition.{is_blank_label, title_case, resolve_label, resolve_value_type}
use logpond.Facets.Registry.{
  Config, add, add_config, add_row, base, builtin_definition, config_definition, default_cap, load,
  load_ui_rows, override_for_builtin, rebuild, ui_definition,
}
use logpond.Facets.Edits.{
  CreateInput, PatchInput, create_ui, update_ui, delete_ui, created_row, created_definition,
  patched, validate_create, conflict, invalid, not_found,
}
use logpond.Facets.Refines.Run.{Edit, create, update, delete, reload, edit, edits, loaded}

label_title : title_case (codes "user_agent-os") ≡ codes "User Agent Os"
unfolding title_case
label_title = refl

label_blank : resolve_label (32 ∷ 194 ∷ 160 ∷ 226 ∷ 128 ∷ 175 ∷ []) (codes "pod") ≡ codes "Pod"
unfolding resolve_label is_blank_label title_case
label_blank = refl

abbrev config : Config
config = record {
  default_cardinality_cap = pos 50;
  service = pos 200;
  level = pos 0;
  host = pos 50;
  source = pos 50;
  custom =
      record {
        name = codes "region";
        field = codes "attributes.region";
        display_label = [];
        cardinality_cap = pos 0;
        value_type = codes "text";
      }
      ∷ [];
}

abbrev team : CustomFacet
team = record {
  name = codes "team";
  field = codes "attributes.team";
  display_label = none;
  cardinality_cap = some (pos 7);
  value_type = codes "string";
  source = source_ui;
  created_at = pos 3;
  updated_at = pos 3;
}

abbrev pod : Bytes → CreateInput
pod name = record {
  name = name;
  field = codes "attributes.pod";
  display_label = [];
  cardinality_cap = pos 0;
  value_type = [];
}

abbrev relabel : PatchInput
relabel = record { display_label = some (codes "Owner"); cardinality_cap = none }

abbrev session : List Edit
session =
    create (pos 5) (pod (codes "pod"))
    ∷ create (pos 6) (pod (codes "service"))
    ∷ update (pos 7) (codes "team") relabel
    ∷ reload
    ∷ delete (codes "pod")
    ∷ delete (codes "region")
    ∷ []

session_order :
    (edits (some config) session (loaded (some config) (team ∷ []))).registry.order
    ≡ codes "service"
      ∷ codes "level"
      ∷ codes "host"
      ∷ codes "source"
      ∷ codes "region"
      ∷ codes "team"
      ∷ []
unfolding edits edit create_ui update_ui delete_ui load rebuild base load_ui_rows list_custom_facets
    order_by validate_create equal insert add_row add_config add builtin_definition
    config_definition ui_definition insert_custom_facet created_row inserted_facet
    created_definition update_custom_facet delete_custom_facet updated_facet is_blank_label
    resolve_label resolve_value_type title_case patched default_cap override_for_builtin
session_order = refl

refusals :
    (create_ui (pos 5) (pod (codes "a b")) (loaded none []) ≡ err invalid)
    × (create_ui (pos 5) (pod (codes "host")) (loaded none []) ≡ err conflict)
    × (update_ui (pos 5) (codes "pod") relabel (loaded none []) ≡ err not_found)
    × (delete_ui (codes "host") (loaded none []) ≡ err conflict)
unfolding create_ui update_ui delete_ui load rebuild base validate_create equal load_ui_rows
    list_custom_facets order_by add builtin_definition
refusals = (refl, refl, refl, refl)
