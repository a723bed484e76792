-- ===== src/Facets/Rows.antt =====
-- internal/catalog/catalog.go and internal/facets/registry.go: the rows that a load reads, after each
-- statement on the table.
use logpond.Base.{
  ◌≡◌, refl, subst, ap, ◌∙◌, Bool, true, false, [], ◌∷◌, ◌++◌, Option, some, some-injective, map,
  arith, All, any, filter, filter-All, Bool-cases, inl, inr, if◌then◌else◌, ||-eq-false,
}
use logpond.Base.Text.{Bytes, equal, equal_iff}
use logpond.Base.Unique.{IsUnique}
use logpond.Catalog.Order.{order_by, All-order_by}
use logpond.Catalog.Order.Rows.{order_by-snoc, order_by-map, order_by-filter}
use logpond.Catalog.CustomFacets.{
  CustomFacet, Facets, source_ui, is_named, created_before, list_custom_facets, get_custom_facet,
  update_named,
}
use logpond.Facets.Registry.{load_ui_rows}

abbrev pub name_of : CustomFacet → Bytes
name_of f = f.name

abbrev pub HasNames : Facets → Type 0
HasNames t = IsUnique name_of t

abbrev is_from_ui : CustomFacet → Bool
is_from_ui f = equal f.source source_ui

created_asym : (f g : CustomFacet) → created_before f g ≡ true → created_before g f ≡ false
created_asym f g h = ground arith

created_trans :
    (f g h : CustomFacet)
    → created_before g f ≡ false
    → created_before h g ≡ false
    → created_before h f ≡ false
created_trans f g h p q = ground arith

filter-snoc :
    (t : Facets) (f : CustomFacet)
    → is_from_ui f ≡ true
    → filter is_from_ui (t ++ f ∷ []) ≡ filter is_from_ui t ++ f ∷ []
filter-snoc [] f h = rw h refl
filter-snoc (g ∷ t) f h = elim (Bool-cases (is_from_ui g)) [
  | inl e ↦ rw e (ap (◌∷◌ g) (filter-snoc t f h))
  | inr e ↦ rw e (filter-snoc t f h)
]

-- A row of the operator that is not older than any other is read last.
pub load_ui_rows-snoc :
    (t : Facets) (f : CustomFacet)
    → All (λ g. created_before f g ≡ false) t
    → equal f.source source_ui ≡ true
    → load_ui_rows (t ++ f ∷ []) ≡ load_ui_rows t ++ f ∷ []
unfolding load_ui_rows list_custom_facets
load_ui_rows-snoc t f h e =
    ap (filter is_from_ui) (order_by-snoc created_before t f h)
    ∙ filter-snoc (order_by created_before t) f e

module _ (name : Bytes) (g : CustomFacet → CustomFacet)
    (aged : (f : CustomFacet) → (g f).created_at ≡ f.created_at)
    (from : (f : CustomFacet) → (g f).source ≡ f.source) where
  abbrev changed : CustomFacet → CustomFacet
  changed f = if is_named name f then g f else f

  changed-created_at : (f : CustomFacet) → (changed f).created_at ≡ f.created_at
  changed-created_at f = elim (Bool-cases (is_named name f)) [
    | inl e ↦ rw e (aged f)
    | inr e ↦ rw e refl
  ]

  changed-source : (f : CustomFacet) → (changed f).source ≡ f.source
  changed-source f = elim (Bool-cases (is_named name f)) [
    | inl e ↦ rw e (from f)
    | inr e ↦ rw e refl
  ]

  filter-map : (t : Facets) → filter is_from_ui (map changed t) ≡ map changed (filter is_from_ui t)
  filter-map [] = refl
  filter-map (f ∷ t) =
      let same : is_from_ui (changed f) ≡ is_from_ui f =
        ap (λ s. equal s source_ui) (changed-source f) in
      elim (Bool-cases (is_from_ui f)) [
        | inl e ↦ rw (same ∙ e, e) (ap (◌∷◌ (changed f)) (filter-map t))
        | inr e ↦ rw (same ∙ e, e) (filter-map t)
      ]

  pub load_ui_rows-update_named :
      (t : Facets) → load_ui_rows (update_named name g t) ≡ update_named name g (load_ui_rows t)
  unfolding load_ui_rows list_custom_facets
  load_ui_rows-update_named t =
      ap (filter is_from_ui) (
        order_by-map created_before changed
          (λ f h.
            ap (λ at. created_before (record f { created_at = at }) (changed h))
              (changed-created_at f)
            ∙ ap (λ at. created_before f (record h { created_at = at })) (changed-created_at h))
          t)
      ∙ filter-map (order_by created_before t)

filter_comm :
    (p q : CustomFacet → Bool) (t : Facets) → filter p (filter q t) ≡ filter q (filter p t)
filter_comm p q [] = refl
filter_comm p q (f ∷ t) = elim (Bool-cases (p f)) [
  | inl e ↦ elim (Bool-cases (q f)) [
    | inl k ↦ rw (e, k, e) (ap (◌∷◌ f) (filter_comm p q t))
    | inr k ↦ rw (e, k) (filter_comm p q t)
  ]
  | inr e ↦ elim (Bool-cases (q f)) [
    | inl k ↦ rw (e, k) (rw e (filter_comm p q t))
    | inr k ↦ rw (e, k) (filter_comm p q t)
  ]
]

pub load_ui_rows-filter :
    (p : CustomFacet → Bool) (t : Facets) → load_ui_rows (filter p t) ≡ filter p (load_ui_rows t)
unfolding load_ui_rows list_custom_facets
load_ui_rows-filter p t =
    ap (filter is_from_ui) (order_by-filter created_before created_asym created_trans p t)
    ∙ filter_comm is_from_ui p (order_by created_before t)

pub load_ui_rows-All {κ} :
    (P : CustomFacet → Type κ) (t : Facets) → All P t → All P (load_ui_rows t)
unfolding load_ui_rows list_custom_facets
load_ui_rows-All P t h =
    filter-All P is_from_ui (order_by created_before t) (All-order_by created_before P t h)

-- The row that was inserted under a new name is the one that is read.
pub get_custom_facet-snoc :
    (t : Facets) (f : CustomFacet) (name : Bytes)
    → any (is_named name) t ≡ false
    → is_named name f ≡ true
    → get_custom_facet (t ++ f ∷ []) name ≡ some f
get_custom_facet-snoc [] f name h e = rw e refl
get_custom_facet-snoc (g ∷ t) f name h e =
    let (first, later) = ||-eq-false (is_named name g) _ h in
    rw first (get_custom_facet-snoc t f name later e)

picked :
    (b : Bool) (f : CustomFacet) (later : Option CustomFacet) {row : CustomFacet}
    → b ≡ true
    → (if b then some f else later) ≡ some row
    → f ≡ row
picked true f later e h = cc
picked false f later e h = absurd (cc)

pub get_custom_facet-update_named :
    (name : Bytes) (g : CustomFacet → CustomFacet)
    → ((f : CustomFacet) → (g f).name ≡ f.name)
    → (t : Facets) (row : CustomFacet) → get_custom_facet (update_named name g t) name ≡ some row
    → (f : CustomFacet) × (get_custom_facet t name ≡ some f) × (g f ≡ row)
get_custom_facet-update_named name g same [] row h = absurd (cc)
get_custom_facet-update_named name g same (f ∷ t) row h = elim (Bool-cases (is_named name f)) [
  | inl e ↦ (
    f,
    rw e refl,
    picked (is_named name (g f)) (g f) _ (ap (λ k. equal k name) (same f) ∙ e) (rw e at h),
  )
  | inr e ↦
      let (f', p, q) = get_custom_facet-update_named name g same t row (rw (e, e) at h) in
      (f', rw e p, q)
]

-- Names are keys: every row of a name is the row that is read.
pub get_custom_facet-All :
    (t : Facets) (name : Bytes) (f : CustomFacet)
    → HasNames t
    → get_custom_facet t name ≡ some f
    → All (λ row. is_named name row ≡ true → row ≡ f) t
get_custom_facet-All [] name f h e = tt
get_custom_facet-All (g ∷ t) name f h e = elim (Bool-cases (is_named name g)) [
  | inl p ↦ (
    λ _. some-injective g f (rw p at e),
    others t (subst (λ k. any (is_named k) t ≡ false) ((equal_iff g.name name).0 p) h.0),
  )
  | inr p ↦ (λ q. absurd (ground (arith, p, q)), get_custom_facet-All t name f h.1 (rw p at e))
]
  where
    others :
        (rest : Facets)
        → any (is_named name) rest ≡ false
        → All (λ row. is_named name row ≡ true → row ≡ f) rest
    others [] k = tt
    others (r ∷ rest) k =
        let (first, later) = ||-eq-false (is_named name r) _ k in
        (λ q. absurd (ground (arith, first, q)), others rest later)
