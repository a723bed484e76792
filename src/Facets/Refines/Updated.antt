-- ===== src/Facets/Refines/Updated.antt =====
-- internal/facets/registry.go: the registry beside the table, after UpdateUI.
use logpond.Base.{
  ◌≡◌, refl, sym, subst, ap, ◌∙◌, true, false, Option, some, none, All, map-All, any, Bool-cases,
  inl, inr, if◌then◌else◌, ◌⊎◌,
}
use logpond.Base.Text.{Bytes}
use logpond.Base.Int.{ℤ}
use logpond.Base.Assoc.{Assoc, lookup, has, put, keys-put, lookup→has}
use logpond.Base.Result.{Result, ok, err}
use logpond.Base.Unique.{update_at-IsUnique}
use logpond.Catalog.CustomFacets.{
  CustomFacet, Facets, is_named, get_custom_facet, update_named, updated_facet, update_custom_facet,
  read_back, cap_column,
}
use logpond.Facets.Definition.{Definition, is_ui, is_above, int_of}
use logpond.Facets.Registry.{Config, base, default_cap, load, load_ui_rows, ui_definition}
use logpond.Facets.Edits.{
  Error, column_update, update_existing, write_patched, is_below?, Store, PatchInput, update_ui,
  patched,
}
use logpond.Facets.Shown.{shown, set, set-fresh, shown-update_named, Shows}
use logpond.Facets.Shape.{base-NotUi}
use logpond.Facets.Rows.{
  name_of, load_ui_rows-update_named, load_ui_rows-All, get_custom_facet-update_named,
  get_custom_facet-All,
}
use logpond.Facets.Lookup.{lookup-fresh, lookup-shown, lookup_fresh-none, put-set}
use logpond.Facets.Refines.{IsSync, sync, IsSync-keys, IsSync-shown, IsSync-Distinct, load-defs}

nothing : {o : Option Definition} {d : Definition} → o ≡ none → o ≡ some d → ⊥
nothing p q = cc

-- A cap of the patch is not 0, which the table keeps as no cap and the registry as the old one.
abbrev pub KeepsCap : PatchInput → Type 0
KeepsCap i = (i.cardinality_cap ≡ none) ⊎ (is_above (int_of i.cardinality_cap) ≡ true)

abbrev pub renewed : ℤ → Bytes → PatchInput → Facets → Facets
renewed now name i t = update_named name (updated_facet now (column_update i)) t

-- What a patch of the entry `d0` reads and writes.
pub record Writes (now : ℤ) (name : Bytes) (i : PatchInput) (s s' : Store) (d0 : Definition)
    : Type 0 where
  pub row : CustomFacet
  pub read : get_custom_facet (renewed now name i s.table) name ≡ some row
  pub from_ui : is_ui d0.kind d0.source ≡ true
  pub written : s' ≡ record {
    table = renewed now name i s.table;
    registry = record (s.registry) { defs = put name (patched row d0) s.registry.defs };
  }

module _ (now : ℤ) (name : Bytes) (i : PatchInput) (s s' : Store) (d : Definition) where
  refused :
      {A : Type 0} {e : Error}
      → ◌≡◌ {A = Result Error (Store × Definition)} (err e) (ok (s', d))
      → A
  refused q = absurd (cc)

  read_ok :
      (d0 : Definition) (o : Option CustomFacet)
      → is_ui d0.kind d0.source ≡ true
      → get_custom_facet (renewed now name i s.table) name ≡ o
      → write_patched name d0 s.registry (read_back (renewed now name i s.table) o) ≡ ok (s', d)
      → Writes now name i s s' d0
  read_ok d0 none u p q = refused q
  read_ok d0 (some row) u p q = record { row = row; read = p; from_ui = u; written = same q }
    where
      same :
          {s1 : Store} {d1 : Definition}
          → ◌≡◌ {A = Result Error (Store × Definition)} (ok (s1, d1)) (ok (s', d))
          → s' ≡ s1
      same k = cc

  existing_ok :
      (d0 : Definition)
      → update_existing now name i s (some d0) ≡ ok (s', d)
      → Writes now name i s s' d0
  unfolding update_custom_facet
  existing_ok d0 q = elim (Bool-cases (is_ui d0.kind d0.source)) [
    | inr u ↦ refused (rw u at q)
    | inl u ↦ elim (Bool-cases (is_below? i.cardinality_cap)) [
      | inl b ↦ refused (rw (u, b) at q)
      | inr b ↦ elim (Bool-cases (any (is_named name) s.table)) [
        | inr a ↦ refused (rw (u, b, a) at q)
        | inl a ↦
            read_ok d0 (get_custom_facet (renewed now name i s.table) name) u refl
              (rw (u, b, a) at q)
      ]
    ]
  ]

  pub updated_ok :
      (o : Option Definition)
      → lookup name s.registry.defs ≡ o
      → update_existing now name i s o ≡ ok (s', d)
      → (d0 : Definition) × (lookup name s.registry.defs ≡ some d0) × Writes now name i s s' d0
  updated_ok none p q = refused q
  updated_ok (some d0) p q = (d0, p, existing_ok d0 q)

kept_cap :
    (c old : Option ℤ) (limit : ℤ)
    → (c ≡ none) ⊎ (is_above (int_of c) ≡ true)
    → (if is_above (int_of (cap_column c old))
        then int_of (cap_column c old)
        else if is_above (int_of old)
        then int_of old
        else limit)
      ≡ (if is_above (int_of (cap_column c old)) then int_of (cap_column c old) else limit)
kept_cap none old limit h = elim (Bool-cases (is_above (int_of old))) [
  | inl e ↦ rw e refl
  | inr e ↦ rw e refl
]
kept_cap (some n) old limit (inl p) = absurd (cc)
kept_cap (some n) old limit (inr p) = rw (p, p) refl

patched-eq :
    (limit now : ℤ) (i : PatchInput) (f : CustomFacet)
    → KeepsCap i
    → let f' = updated_facet now (column_update i) f in
      patched f' (ui_definition limit f) ≡ ui_definition limit f'
unfolding patched ui_definition updated_facet
patched-eq limit now i f h =
    let f' = updated_facet now (column_update i) f in
    ap (λ n. record (ui_definition limit f') { cardinality_cap = n })
      (kept_cap i.cardinality_cap f.cardinality_cap limit h)

module _ (now : ℤ) (i : PatchInput) where
  updated-name : (f : CustomFacet) → (updated_facet now (column_update i) f).name ≡ f.name
  unfolding updated_facet
  updated-name f = refl

  updated-created_at :
      (f : CustomFacet) → (updated_facet now (column_update i) f).created_at ≡ f.created_at
  unfolding updated_facet
  updated-created_at f = refl

  updated-source : (f : CustomFacet) → (updated_facet now (column_update i) f).source ≡ f.source
  unfolding updated_facet
  updated-source f = refl

-- After UpdateUI the registry is what a load of the new table gives, if the patch does not ask for
-- the cap 0.
pub update_ui-IsSync :
    (cfg : Option Config) (now : ℤ) (name : Bytes) (i : PatchInput) (s s' : Store) (d : Definition)
    → IsSync cfg s
    → KeepsCap i
    → update_ui now name i s ≡ ok (s', d)
    → IsSync cfg s'
unfolding update_ui
update_ui-IsSync cfg now name i s s' d h keeps e =
    let (d0, found, w) = updated_ok now name i s s' d (lookup name s.registry.defs) refl e in
    let limit = default_cap cfg in
    let g : CustomFacet → CustomFacet = updated_facet now (column_update i) in
    let t' : Facets = renewed now name i s.table in
    let m : Assoc Definition = (base cfg).defs in
    let rows : Facets = load_ui_rows s.table in
    let here : has name s.registry.defs ≡ true = lookup→has name s.registry.defs found in
    let found' : lookup name (shown limit rows m) ≡ some d0 =
      subst (λ x. lookup name x ≡ some d0) (IsSync-shown cfg s h) found in
    let fresh : has name m ≡ false =
      lookup-fresh limit name rows m d0 (base-NotUi cfg) found' w.from_ui in
    let (f, old, read) =
      get_custom_facet-update_named name g (updated-name now i) s.table w.row w.read in
    let one = get_custom_facet-All s.table name f h.names old in
    let shows : d0 ≡ ui_definition limit f =
      lookup-shown limit name f rows m
        (load_ui_rows-All (λ row. is_named name row ≡ true → row ≡ f) s.table one)
        (λ x q. absurd (nothing (lookup_fresh-none name m fresh) q)) d0 found' in
    let v : Definition = patched w.row d0 in
    let all : All (Shows limit name g (updated-name now i) v) rows =
      map-All
        (λ row same named.
          ap (λ r. ui_definition limit (g r)) (same named)
          ∙ sym (patched-eq limit now i f keeps)
          ∙ ap (patched (g f)) (sym shows)
          ∙ ap (λ r. patched r d0) read)
        rows (load_ui_rows-All (λ row. is_named name row ≡ true → row ≡ f) s.table one) in
    let loads : put name v s.registry.defs ≡ (load cfg t').defs =
      put-set name v s.registry.defs (IsSync-Distinct cfg s h) here
      ∙ ap (set name v) (IsSync-shown cfg s h)
      ∙ sym (shown-update_named limit name g (updated-name now i) v rows m all)
      ∙ ap (shown limit (update_named name g rows)) (set-fresh name v m fresh)
      ∙ ap (λ x. shown limit x m)
          (sym (
            load_ui_rows-update_named name g (updated-created_at now i) (updated-source now i)
              s.table))
      ∙ sym (load-defs cfg t') in
    subst (IsSync cfg) (sym w.written) (
      sync cfg _ loads (IsSync-keys cfg s h ∙ sym (keys-put name v s.registry.defs here))
        (update_at-IsUnique name_of name g (updated-name now i) s.table h.names))
