-- ===== src/Facets/Refines/Created.antt =====
-- internal/facets/registry.go: the registry beside the table, after CreateUI.
use logpond.Base.{
  ◌≡◌, refl, sym, subst, ap, ◌∙◌, true, false, [], ◌∷◌, ◌++◌, Option, some, arith, All, any,
  Bool-cases, inl, inr, ◌⊎◌,
}
use logpond.Base.Text.{equal, equal_refl}
use logpond.Base.Int.{ℤ, pos, ltb_ℤ}
use logpond.Base.Assoc.{has, put, put-fresh, keys-put_fresh}
use logpond.Base.Result.{Result, ok, err}
use logpond.Base.Unique.{snoc-IsUnique}
use logpond.Catalog.CustomFacets.{
  CustomFacet, Facets, source_ui, is_named, created_before, get_custom_facet, inserted_facet,
  insert_custom_facet,
}
use logpond.Facets.Definition.{Definition, is_above}
use logpond.Facets.Registry.{Config, add, base, default_cap, load, load_ui_rows, ui_definition}
use logpond.Facets.Edits.{
  Error, Store, insert_created, CreateInput, create_ui, created_row, created_definition,
  validate_create,
}
use logpond.Facets.Shown.{shown, show_one, shown-snoc, show_one-fresh}
use logpond.Facets.Rows.{name_of, load_ui_rows-snoc, get_custom_facet-snoc}
use logpond.Facets.Refines.{IsSync, sync, IsSync-keys, IsSync-shown, load-defs}

-- A cap that the edit leaves open is the configured default, where an edit puts 50.
abbrev pub HasCap : Option Config → CreateInput → Type 0
HasCap cfg i = (is_above i.cardinality_cap ≡ true) ⊎ (default_cap cfg ≡ pos 50)

abbrev pub new_row : ℤ → CreateInput → CustomFacet
new_row now i = inserted_facet now (created_row i)

open_cap :
    (cfg : Option Config) (i : CreateInput)
    → HasCap cfg i
    → is_above i.cardinality_cap ≡ false
    → default_cap cfg ≡ pos 50
open_cap cfg i (inl p) e = absurd (ground (arith, p, e))
open_cap cfg i (inr p) e = p

created_definition-eq :
    (cfg : Option Config) (now : ℤ) (i : CreateInput)
    → HasCap cfg i
    → created_definition i (new_row now i) ≡ ui_definition (default_cap cfg) (new_row now i)
unfolding created_definition ui_definition inserted_facet created_row
created_definition-eq cfg now i h = elim (Bool-cases (is_above i.cardinality_cap)) [
  | inl e ↦ rw e (rw e refl)
  | inr e ↦ rw (e, open_cap cfg i h e) refl
]

pub created_ok :
    (now : ℤ) (i : CreateInput) (s s' : Store) (d : Definition)
    → create_ui now i s ≡ ok (s', d)
    → (has i.name s.registry.defs ≡ false)
      × (any (is_named i.name) s.table ≡ false)
      × (s' ≡ record {
        table = s.table ++ new_row now i ∷ [];
        registry = add (created_definition i (new_row now i)) s.registry;
      })
unfolding create_ui insert_custom_facet inserted_facet created_row equal
created_ok now i s s' d h = elim (Bool-cases (validate_create i)) [
  | inr v ↦ refused (rw v at h)
  | inl v ↦ elim (Bool-cases (has i.name s.registry.defs)) [
    | inl k ↦ refused (rw (v, k) at h)
    | inr k ↦ elim (Bool-cases (any (is_named i.name) s.table)) [
      | inl a ↦ refused (rw (v, k, a) at h)
      | inr a ↦ (
        k,
        a,
        accepted (get_custom_facet-snoc s.table (new_row now i) i.name a (equal_refl i.name))
            (rw (v, k, a) at h),
      )
    ]
  ]
]
  where
    refused :
        {A : Type 0} {e : Error}
        → ◌≡◌ {A = Result Error (Store × Definition)} (err e) (ok (s', d))
        → A
    refused q = absurd (cc)

    accepted :
        get_custom_facet (s.table ++ new_row now i ∷ []) i.name ≡ some (new_row now i)
        → insert_created i s.registry (some (s.table ++ new_row now i ∷ [])) ≡ ok (s', d)
        → s' ≡ record {
          table = s.table ++ new_row now i ∷ [];
          registry = add (created_definition i (new_row now i)) s.registry;
        }
    accepted g q = same (rw g at q)
      where
        same :
            {s1 : Store} {d1 : Definition}
            → ◌≡◌ {A = Result Error (Store × Definition)} (ok (s1, d1)) (ok (s', d))
            → s' ≡ s1
        same k = cc

new_row-created_before :
    (now : ℤ) (i : CreateInput) (t : Facets)
    → All (λ g. ltb_ℤ now g.created_at ≡ false) t
    → All (λ g. created_before (new_row now i) g ≡ false) t
unfolding inserted_facet created_row
new_row-created_before now i t h = h

new_row-source : (now : ℤ) (i : CreateInput) → equal (new_row now i).source source_ui ≡ true
unfolding inserted_facet created_row equal
new_row-source now i = refl

new_row-name : (now : ℤ) (i : CreateInput) → (new_row now i).name ≡ i.name
unfolding inserted_facet created_row
new_row-name now i = refl

pub created_definition-name :
    (now : ℤ) (i : CreateInput) → (created_definition i (new_row now i)).name ≡ i.name
unfolding created_definition inserted_facet created_row
created_definition-name now i = refl

-- After CreateUI the registry is what a load of the new table gives, if the clock has not gone back
-- and an open cap falls back to the configured default.
pub create_ui-IsSync :
    (cfg : Option Config) (now : ℤ) (i : CreateInput) (s s' : Store) (d : Definition)
    → IsSync cfg s
    → All (λ g. ltb_ℤ now g.created_at ≡ false) s.table
    → HasCap cfg i
    → create_ui now i s ≡ ok (s', d)
    → IsSync cfg s'
unfolding add
create_ui-IsSync cfg now i s s' d h late given e =
    let (fresh, new, same) = created_ok now i s s' d e in
    let row = new_row now i in
    let t' : Facets = s.table ++ row ∷ [] in
    let v : Definition = created_definition i row in
    let key : v.name ≡ row.name = created_definition-name now i ∙ sym (new_row-name now i) in
    let unused : has v.name s.registry.defs ≡ false =
      subst (λ k. has k s.registry.defs ≡ false) (sym (created_definition-name now i)) fresh in
    let before = s.registry.defs in
    let shows : put v.name v before ≡ show_one (default_cap cfg) row before =
      ap (λ k. put k v before) key
      ∙ put-fresh row.name v before (subst (λ k. has k before ≡ false) key unused)
      ∙ ap (λ u. before ++ (row.name, u) ∷ []) (created_definition-eq cfg now i given)
      ∙ sym (
          show_one-fresh (default_cap cfg) row before
            (subst (λ k. has k before ≡ false) key unused)) in
    let loads : put v.name v before ≡ (load cfg t').defs =
      shows
      ∙ ap (show_one (default_cap cfg) row) (IsSync-shown cfg s h)
      ∙ sym (shown-snoc (default_cap cfg) (load_ui_rows s.table) row (base cfg).defs)
      ∙ ap (λ rows. shown (default_cap cfg) rows (base cfg).defs)
          (sym (
            load_ui_rows-snoc s.table row (new_row-created_before now i s.table late)
              (new_row-source now i)))
      ∙ sym (load-defs cfg t') in
    subst (IsSync cfg) (sym same) (
      sync cfg _ loads
        (ap (λ ks. ks ++ v.name ∷ []) (IsSync-keys cfg s h)
          ∙ sym (keys-put_fresh v.name v before unused))
        (snoc-IsUnique name_of s.table row h.names
          (subst (λ k. any (is_named k) s.table ≡ false) (sym (new_row-name now i)) new)))
