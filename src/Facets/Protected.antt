-- ===== src/Facets/Protected.antt =====
-- internal/facets/registry.go: built-in and configured facets under the edits of the operator.
use logpond.Base.{
  ◌≡◌, refl, sym, subst, ap, ◌∙◌, true, false, List, [], ◌∷◌, Option, some, some-injective, arith,
  Bool-cases, inl, inr,
}
use logpond.Base.Text.{Bytes, equal, equal_iff}
use logpond.Base.Int.{ℤ}
use logpond.Base.Assoc.{
  Assoc, lookup, has, put-fresh, lookup→has, lookup-put_other, lookup-remove_other,
}
use logpond.Base.Result.{Result, ok, err}
use logpond.Catalog.CustomFacets.{Facets}
use logpond.Facets.Definition.{Definition, is_ui}
use logpond.Facets.Registry.{Config, add, base, default_cap, rebuild, load, load_ui_rows}
use logpond.Facets.Edits.{
  Error, Store, CreateInput, PatchInput, create_ui, update_ui, delete_ui, created_definition,
  patched,
}
use logpond.Facets.Shown.{add_rows-defs}
use logpond.Facets.Shape.{base-NotUi}
use logpond.Facets.Lookup.{lookup-append, lookup-shown_old, lookup-NotUi}
use logpond.Facets.Refines.Created.{created_ok, new_row, created_definition-name}
use logpond.Facets.Refines.Updated.{updated_ok}
use logpond.Facets.Refines.Deleted.{deleted_ok}
use logpond.Facets.Refines.Run.{
  Edit, create, update, delete, reload, edit, edits, state_or, deleted_or, loaded,
}

-- Two entries of which one is the operator's have different names.
apart :
    (k j : Bytes) (m : Assoc Definition) {d u : Definition}
    → lookup k m ≡ some d
    → is_ui d.kind d.source ≡ false
    → lookup j m ≡ some u
    → is_ui u.kind u.source ≡ true
    → equal j k ≡ false
apart k j m {d = d} {u = u} p q r s = elim (Bool-cases (equal j k)) [
  | inr e ↦ e
  | inl e ↦ absurd (
      clash (some-injective d u (sym p ∙ subst (λ x. lookup x m ≡ some u) ((equal_iff j k).0 e) r)))
]
  where
    clash : d ≡ u → ⊥
    clash e = ground (arith, subst (λ x. is_ui x.kind x.source ≡ false) e q, s)

lookup-load :
    (cfg : Option Config) (t : Facets) (k : Bytes)
    → has k (base cfg).defs ≡ true
    → lookup k (load cfg t).defs ≡ lookup k (base cfg).defs
unfolding load rebuild
lookup-load cfg t k h =
    ap (lookup k) (add_rows-defs (default_cap cfg) (load_ui_rows t) (base cfg))
    ∙ lookup-shown_old (default_cap cfg) k (load_ui_rows t) (base cfg).defs h

module _ (cfg : Option Config) (k : Bytes) (d : Definition)
    (is_base : lookup k (base cfg).defs ≡ some d) where
  given : is_ui d.kind d.source ≡ false
  given = lookup-NotUi k (base cfg).defs (base-NotUi cfg) is_base

  kept-create :
      (now : ℤ) (i : CreateInput) (s : Store)
      → lookup k s.registry.defs ≡ some d
      → lookup k (edit cfg (create now i) s).registry.defs ≡ some d
  unfolding edit add
  kept-create now i s h = by (create_ui now i s) refl
    where
      by :
          (r : Result Error (Store × Definition))
          → create_ui now i s ≡ r
          → lookup k (state_or s r).registry.defs ≡ some d
      by (err x) q = h
      by (ok (s', v)) q =
          let (fresh, new, same) = created_ok now i s s' v q in
          let w : Definition = created_definition i (new_row now i) in
          let unused : has w.name s.registry.defs ≡ false =
            subst (λ x. has x s.registry.defs ≡ false) (sym (created_definition-name now i))
              fresh in
          ap (λ (x : Store). lookup k x.registry.defs) same
          ∙ ap (lookup k) (put-fresh w.name w s.registry.defs unused)
          ∙ lookup-append k s.registry.defs ((w.name, w) ∷ []) (lookup→has k s.registry.defs h)
          ∙ h

  kept-update :
      (now : ℤ) (name : Bytes) (i : PatchInput) (s : Store)
      → lookup k s.registry.defs ≡ some d
      → lookup k (edit cfg (update now name i) s).registry.defs ≡ some d
  unfolding edit update_ui
  kept-update now name i s h = by (update_ui now name i s) refl
    where
      by :
          (r : Result Error (Store × Definition))
          → update_ui now name i s ≡ r
          → lookup k (state_or s r).registry.defs ≡ some d
      by (err x) q = h
      by (ok (s', v)) q =
          let (u, found, w) = updated_ok now name i s s' v (lookup name s.registry.defs) refl q in
          ap (λ (x : Store). lookup k x.registry.defs) w.written
          ∙ lookup-put_other k name (patched w.row u) s.registry.defs
              (apart k name s.registry.defs h given found w.from_ui)
          ∙ h

  kept-delete :
      (name : Bytes) (s : Store)
      → lookup k s.registry.defs ≡ some d
      → lookup k (edit cfg (delete name) s).registry.defs ≡ some d
  unfolding edit delete_ui
  kept-delete name s h = by (delete_ui name s) refl
    where
      by :
          (r : Result Error Store)
          → delete_ui name s ≡ r
          → lookup k (deleted_or s r).registry.defs ≡ some d
      by (err x) q = h
      by (ok s') q =
          let (u, found, w) = deleted_ok name s s' (lookup name s.registry.defs) refl q in
          ap (λ (x : Store). lookup k x.registry.defs) w.written
          ∙ lookup-remove_other k name s.registry.defs
              (apart k name s.registry.defs h given found w.from_ui)
          ∙ h

  kept-load : (t : Facets) → lookup k (load cfg t).defs ≡ some d
  kept-load t = lookup-load cfg t k (lookup→has k (base cfg).defs is_base) ∙ is_base

  kept :
      (e : Edit) (s : Store)
      → lookup k s.registry.defs ≡ some d
      → lookup k (edit cfg e s).registry.defs ≡ some d
  kept (create now i) s h = kept-create now i s h
  kept (update now name i) s h = kept-update now name i s h
  kept (delete name) s h = kept-delete name s h
  kept reload s h = unfold edit in kept-load s.table

  kept_all :
      (es : List Edit) (s : Store)
      → lookup k s.registry.defs ≡ some d
      → lookup k (edits cfg es s).registry.defs ≡ some d
  unfolding edits
  kept_all [] s h = h
  kept_all (e ∷ es) s h = kept_all es (edit cfg e s) (kept e s h)

  pub lookup-edits :
      (t : Facets) (es : List Edit) → lookup k (edits cfg es (loaded cfg t)).registry.defs ≡ some d
  lookup-edits t es = kept_all es (loaded cfg t) (kept-load t)
