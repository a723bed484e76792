-- ===== src/Facets/Refines/Deleted.antt =====
-- internal/facets/registry.go: the registry beside the table, after DeleteUI.
use logpond.Base.{
  ◌≡◌, refl, sym, subst, ap, ◌∙◌, true, false, not, [], ◌∷◌, Option, some, none, any, filter,
  Bool-cases, inl, inr,
}
use logpond.Base.Text.{Bytes, equal, equal_iff}
use logpond.Base.Assoc.{Assoc, lookup, has, remove, keys}
use logpond.Base.Result.{Result, ok, err}
use logpond.Base.Unique.{filter-IsUnique}
use logpond.Catalog.CustomFacets.{Facets, is_named, delete_custom_facet}
use logpond.Facets.Definition.{Definition, is_ui}
use logpond.Facets.Registry.{Config, base, default_cap, load, load_ui_rows}
use logpond.Facets.Edits.{Error, delete_existing, forget, remove_first, Store, delete_ui}
use logpond.Facets.Shown.{shown, shown-filter, remove-fresh}
use logpond.Facets.Shape.{Distinct, base-NotUi}
use logpond.Facets.Rows.{name_of, load_ui_rows-filter}
use logpond.Facets.Lookup.{lookup-fresh}
use logpond.Facets.Refines.{IsSync, sync, IsSync-keys, IsSync-shown, IsSync-Distinct, load-defs}

abbrev pub without : Bytes → Facets → Facets
without name t = filter (λ f. not (is_named name f)) t

-- What a deletion of the entry `d` writes.
pub record Removes (name : Bytes) (s s' : Store) (d : Definition) : Type 0 where
  pub from_ui : is_ui d.kind d.source ≡ true
  pub written : s' ≡ record { table = without name s.table; registry = forget name s.registry }

module _ (name : Bytes) (s s' : Store) where
  refused : {A : Type 0} {e : Error} → ◌≡◌ {A = Result Error Store} (err e) (ok s') → A
  refused q = absurd (cc)

  existing_ok : (d : Definition) → delete_existing name s (some d) ≡ ok s' → Removes name s s' d
  unfolding delete_custom_facet
  existing_ok d q = elim (Bool-cases (is_ui d.kind d.source)) [
    | inr u ↦ refused (rw u at q)
    | inl u ↦ elim (Bool-cases (any (is_named name) s.table)) [
      | inr a ↦ refused (rw (u, a) at q)
      | inl a ↦ record { from_ui = u; written = same (rw (u, a) at q) }
    ]
  ]
    where
      same : {s1 : Store} → ◌≡◌ {A = Result Error Store} (ok s1) (ok s') → s' ≡ s1
      same k = cc

  pub deleted_ok :
      (o : Option Definition)
      → lookup name s.registry.defs ≡ o
      → delete_existing name s o ≡ ok s'
      → (d : Definition) × (lookup name s.registry.defs ≡ some d) × Removes name s s' d
  deleted_ok none p q = refused q
  deleted_ok (some d) p q = (d, p, existing_ok d q)

-- Names stand once in the order.
remove_first-keys :
    (name : Bytes) (m : Assoc Definition)
    → Distinct m
    → remove_first name (keys m) ≡ keys (remove name m)
remove_first-keys name [] h = refl
remove_first-keys name ((j, v) ∷ m) h = elim (Bool-cases (equal j name)) [
  | inl e ↦ rw e (
      sym
        (ap keys (remove-fresh name m (subst (λ k. has k m ≡ false) ((equal_iff j name).0 e) h.0))))
  | inr e ↦ rw e (ap (◌∷◌ j) (remove_first-keys name m h.1))
]

-- After DeleteUI the registry is what a load of the new table gives.
pub delete_ui-IsSync :
    (cfg : Option Config) (name : Bytes) (s s' : Store)
    → IsSync cfg s
    → delete_ui name s ≡ ok s'
    → IsSync cfg s'
unfolding delete_ui
delete_ui-IsSync cfg name s s' h e =
    let (d, found, w) = deleted_ok name s s' (lookup name s.registry.defs) refl e in
    let limit = default_cap cfg in
    let m : Assoc Definition = (base cfg).defs in
    let rows : Facets = load_ui_rows s.table in
    let fresh : has name m ≡ false =
      lookup-fresh limit name rows m d (base-NotUi cfg)
        (subst (λ x. lookup name x ≡ some d) (IsSync-shown cfg s h) found) w.from_ui in
    let loads : remove name s.registry.defs ≡ (load cfg (without name s.table)).defs =
      ap (remove name) (IsSync-shown cfg s h)
      ∙ sym (shown-filter limit name rows m)
      ∙ ap (shown limit (without name rows)) (remove-fresh name m fresh)
      ∙ ap (λ x. shown limit x m) (sym (load_ui_rows-filter (λ f. not (is_named name f)) s.table))
      ∙ sym (load-defs cfg (without name s.table)) in
    subst (IsSync cfg) (sym w.written) (
      sync cfg _ loads
        (ap (remove_first name) (IsSync-keys cfg s h)
          ∙ remove_first-keys name s.registry.defs (IsSync-Distinct cfg s h))
        (filter-IsUnique name_of (λ f. not (is_named name f)) s.table h.names))
