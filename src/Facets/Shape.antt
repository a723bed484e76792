-- ===== src/Facets/Shape.antt =====
-- internal/facets/registry.go: what holds of the map and the order of every registry that is loaded.
use logpond.Base.{
  ◌≡◌, refl, sym, subst, ap, ◌∙◌, false, List, [], ◌∷◌, ◌++◌, Option, some, none, All, All-append,
  Bool-cases, inl, inr, ||-false, ||-eq-false,
}
use logpond.Base.Text.{Bytes, equal}
use logpond.Base.Int.{ℤ}
use logpond.Base.Assoc.{Assoc, lookup, has, keys, put-fresh, keys-put_fresh}
use logpond.Catalog.CustomFacets.{CustomFacet, Facets}
use logpond.Base.Unique.{equal_comm}
use logpond.Facets.Definition.{Definition, is_ui}
use logpond.Facets.Registry.{
  Registry, Config, ConfigFacet, add, add_row, add_rows, hidden, ui_definition, add_config,
  add_configs, add_builtins, builtin_specs, builtin_definition, config_definition, empty, base,
  default_cap, customs, rebuild,
}

abbrev pub Distinct : Assoc Definition → Type 0
Distinct [] = Unit
Distinct ((k, d) ∷ m) = (has k m ≡ false) × Distinct m

-- An entry under its own name.
abbrev pub Named : Bytes × Definition → Type 0
Named (k, d) = k ≡ d.name

abbrev pub NotUi : Bytes × Definition → Type 0
NotUi (k, d) = is_ui d.kind d.source ≡ false

pub record IsShaped (r : Registry) : Type 0 where
  pub keyed : r.order ≡ keys r.defs
  pub distinct : Distinct r.defs
  pub named : All Named r.defs

has-snoc :
    (k j : Bytes) (d : Definition) (m : Assoc Definition)
    → has k m ≡ false
    → equal j k ≡ false
    → has k (m ++ (j, d) ∷ []) ≡ false
has-snoc k j d [] h e = ||-false e refl
has-snoc k j d ((i, u) ∷ m) h e =
    let (first, later) = ||-eq-false (equal i k) _ h in ||-false first (has-snoc k j d m later e)

snoc-Distinct :
    (k : Bytes) (d : Definition) (m : Assoc Definition)
    → Distinct m
    → has k m ≡ false
    → Distinct (m ++ (k, d) ∷ [])
snoc-Distinct k d [] h e = (refl, tt)
snoc-Distinct k d ((i, u) ∷ m) h e =
    let (first, later) = ||-eq-false (equal i k) _ e in
    (has-snoc i k d m h.0 (equal_comm i k first), snoc-Distinct k d m h.1 later)

-- An entry under a new name.
pub add-IsShaped :
    (d : Definition) (r : Registry) → has d.name r.defs ≡ false → IsShaped r → IsShaped (add d r)
unfolding add
add-IsShaped d r e h = record {
  keyed = ap (λ ks. ks ++ d.name ∷ []) h.keyed ∙ sym (keys-put_fresh d.name d r.defs e);
  distinct =
      subst Distinct (sym (put-fresh d.name d r.defs e))
        (snoc-Distinct d.name d r.defs h.distinct e);
  named =
      subst (All Named) (sym (put-fresh d.name d r.defs e))
        (All-append Named r.defs ((d.name, d) ∷ []) h.named (refl, tt));
}

add_row-IsShaped :
    (limit : ℤ) (row : CustomFacet) (r : Registry) → IsShaped r → IsShaped (add_row limit row r)
unfolding add_row ui_definition
add_row-IsShaped limit row r h = elim (Bool-cases (has row.name r.defs)) [
  | inl e ↦ rw e (unwarned (lookup row.name r.defs))
  | inr e ↦ rw e (add-IsShaped (ui_definition limit row) r e h)
]
  where
    unwarned : (o : Option Definition) → IsShaped (hidden row r o)
    unwarned none = h
    unwarned (some d) = record { keyed = h.keyed; distinct = h.distinct; named = h.named }

pub add_rows-IsShaped :
    (limit : ℤ) (rows : Facets) (r : Registry) → IsShaped r → IsShaped (add_rows limit rows r)
add_rows-IsShaped limit [] r h = h
add_rows-IsShaped limit (row ∷ rows) r h =
    add_rows-IsShaped limit rows (add_row limit row r) (add_row-IsShaped limit row r h)

-- A registry with no facet of the operator.
record IsBase (r : Registry) : Type 0 where
  shaped : IsShaped r
  not_ui : All NotUi r.defs

add-IsBase :
    (d : Definition) (r : Registry)
    → has d.name r.defs ≡ false
    → is_ui d.kind d.source ≡ false
    → IsBase r
    → IsBase (add d r)
unfolding add
add-IsBase d r e n h = record {
  shaped = add-IsShaped d r e h.shaped;
  not_ui =
      subst (All NotUi) (sym (put-fresh d.name d r.defs e))
        (All-append NotUi r.defs ((d.name, d) ∷ []) h.not_ui (n, tt));
}

add_config-IsBase :
    (limit : ℤ) (f : ConfigFacet) (r : Registry) → IsBase r → IsBase (add_config limit f r)
unfolding add_config config_definition
add_config-IsBase limit f r h = elim (Bool-cases (has f.name r.defs)) [
  | inl e ↦ rw e (record {
    shaped = record {
      keyed = h.shaped.keyed;
      distinct = h.shaped.distinct;
      named = h.shaped.named;
    };
    not_ui = h.not_ui;
  })
  | inr e ↦ rw e (add-IsBase (config_definition limit f) r e refl h)
]

add_configs-IsBase :
    (limit : ℤ) (fs : List ConfigFacet) (r : Registry) → IsBase r → IsBase (add_configs limit fs r)
add_configs-IsBase limit [] r h = h
add_configs-IsBase limit (f ∷ fs) r h =
    add_configs-IsBase limit fs (add_config limit f r) (add_config-IsBase limit f r h)

add_builtins-IsBase : (cfg : Option Config) → IsBase (add_builtins cfg builtin_specs empty)
unfolding add builtin_definition equal
add_builtins-IsBase cfg = record {
  shaped = record {
    keyed = refl;
    distinct = (refl, (refl, (refl, (refl, tt))));
    named = (refl, (refl, (refl, (refl, tt))));
  };
  not_ui = (refl, (refl, (refl, (refl, tt))));
}

base-IsBase : (cfg : Option Config) → IsBase (base cfg)
unfolding base
base-IsBase cfg =
    add_configs-IsBase (default_cap cfg) (customs cfg) (add_builtins cfg builtin_specs empty)
      (add_builtins-IsBase cfg)

pub base-NotUi : (cfg : Option Config) → All NotUi (base cfg).defs
base-NotUi cfg = (base-IsBase cfg).not_ui

pub rebuild-IsShaped : (cfg : Option Config) (rows : Facets) → IsShaped (rebuild cfg rows)
unfolding rebuild
rebuild-IsShaped cfg rows =
    add_rows-IsShaped (default_cap cfg) rows (base cfg) (base-IsBase cfg).shaped
