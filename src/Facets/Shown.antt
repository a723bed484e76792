-- ===== src/Facets/Shown.antt =====
-- internal/facets/registry.go: the entries that a load shows, as a function of the rows.
use logpond.Base.{
  ◌≡◌, refl, sym, subst, ap, ◌∙◌, true, false, not, [], ◌∷◌, ◌++◌, Option, some, none, arith, All,
  filter, Bool-cases, inl, inr, if◌then◌else◌, ◌||◌, ◌⊎◌,
}
use mathlib.Core.List.{append-nil}
use logpond.Base.Text.{Bytes, equal, equal_iff}
use logpond.Base.Int.{ℤ}
use logpond.Base.Assoc.{Assoc, lookup, has, remove, put-fresh}
use logpond.Catalog.CustomFacets.{CustomFacet, Facets, is_named, update_named}
use logpond.Facets.Definition.{Definition}
use logpond.Facets.Registry.{Registry, add, add_row, add_rows, hidden, ui_definition}

-- A new entry at the end.
abbrev pub entry : ℤ → CustomFacet → Assoc Definition
entry limit row = (row.name, ui_definition limit row) ∷ []

abbrev show_entry : Bytes → Definition → Assoc Definition → Assoc Definition
show_entry k d m = if has k m then m else m ++ (k, d) ∷ []

abbrev pub show_one : ℤ → CustomFacet → Assoc Definition → Assoc Definition
show_one limit row m = show_entry row.name (ui_definition limit row) m

abbrev pub shown : ℤ → Facets → Assoc Definition → Assoc Definition
shown limit [] m = m
shown limit (row ∷ rows) m = shown limit rows (show_one limit row m)

add_row-defs :
    (limit : ℤ) (row : CustomFacet) (r : Registry)
    → (add_row limit row r).defs ≡ show_one limit row r.defs
unfolding add_row add ui_definition
add_row-defs limit row r = elim (Bool-cases (has row.name r.defs)) [
  | inl e ↦ rw e (unwarned (lookup row.name r.defs))
  | inr e ↦ rw e (put-fresh row.name (ui_definition limit row) r.defs e)
]
  where
    unwarned : (o : Option Definition) → (hidden row r o).defs ≡ r.defs
    unwarned none = refl
    unwarned (some d) = refl

pub add_rows-defs :
    (limit : ℤ) (rows : Facets) (r : Registry)
    → (add_rows limit rows r).defs ≡ shown limit rows r.defs
add_rows-defs limit [] r = refl
add_rows-defs limit (row ∷ rows) r =
    add_rows-defs limit rows (add_row limit row r)
    ∙ ap (shown limit rows) (add_row-defs limit row r)

pub show_one-fresh :
    (limit : ℤ) (row : CustomFacet) (m : Assoc Definition)
    → has row.name m ≡ false
    → show_one limit row m ≡ m ++ entry limit row
show_one-fresh limit row m h = rw h refl

pub shown-snoc :
    (limit : ℤ) (rows : Facets) (row : CustomFacet) (m : Assoc Definition)
    → shown limit (rows ++ row ∷ []) m ≡ show_one limit row (shown limit rows m)
shown-snoc limit [] row m = refl
shown-snoc limit (r ∷ rows) row m = shown-snoc limit rows row (show_one limit r m)

-- A new value at a key, where it is there.
abbrev pub set : Bytes → Definition → Assoc Definition → Assoc Definition
set k d [] = []
set k d ((j, u) ∷ m) = if equal j k then (j, d) ∷ set k d m else (j, u) ∷ set k d m

has-set : (j k : Bytes) (d : Definition) (m : Assoc Definition) → has j (set k d m) ≡ has j m
has-set j k d [] = refl
has-set j k d ((i, u) ∷ m) = elim (Bool-cases (equal i k)) [
  | inl e ↦ rw e (ap (◌||◌ (equal i j)) (has-set j k d m))
  | inr e ↦ rw e (ap (◌||◌ (equal i j)) (has-set j k d m))
]

set-append :
    (k : Bytes) (d : Definition) (m n : Assoc Definition)
    → set k d (m ++ n) ≡ set k d m ++ set k d n
set-append k d [] n = refl
set-append k d ((i, u) ∷ m) n = elim (Bool-cases (equal i k)) [
  | inl e ↦ rw e (ap (◌∷◌ (i, d)) (set-append k d m n))
  | inr e ↦ rw e (ap (◌∷◌ (i, u)) (set-append k d m n))
]

pub set-fresh :
    (k : Bytes) (d : Definition) (m : Assoc Definition) → has k m ≡ false → set k d m ≡ m
set-fresh k d [] h = refl
set-fresh k d ((i, u) ∷ m) h = elim (Bool-cases (equal i k)) [
  | inl e ↦ absurd (ground (arith, h, e))
  | inr e ↦ rw e (ap (◌∷◌ (i, u)) (set-fresh k d m (ground (arith, h, e))))
]

show_entry-set_named :
    (k j : Bytes) (d u : Definition) (m : Assoc Definition)
    → equal j k ≡ true
    → show_entry j d (set k d m) ≡ set k d (show_entry j u m)
show_entry-set_named k j d u m e = elim (Bool-cases (has j m)) [
  | inl h ↦ rw (has-set j k d m, h) refl
  | inr h ↦ rw (has-set j k d m, h) (sym (set-append k d m ((j, u) ∷ []) ∙ rw e refl))
]

show_entry-set_other :
    (k j : Bytes) (d u : Definition) (m : Assoc Definition)
    → equal j k ≡ false
    → show_entry j u (set k d m) ≡ set k d (show_entry j u m)
show_entry-set_other k j d u m e = elim (Bool-cases (has j m)) [
  | inl h ↦ rw (has-set j k d m, h) refl
  | inr h ↦ rw (has-set j k d m, h) (sym (set-append k d m ((j, u) ∷ []) ∙ rw e refl))
]

module _ (limit : ℤ) (name : Bytes) (g : CustomFacet → CustomFacet)
    (same : (row : CustomFacet) → (g row).name ≡ row.name) (d : Definition) where
  -- The row of the name shows as the new definition.
  abbrev pub Shows : CustomFacet → Type 0
  Shows row = is_named name row ≡ true → ui_definition limit (g row) ≡ d

  abbrev changed : CustomFacet → CustomFacet
  changed row = if is_named name row then g row else row

  show_one-set :
      (row : CustomFacet) (m : Assoc Definition)
      → Shows row
      → show_one limit (changed row) (set name d m) ≡ set name d (show_one limit row m)
  show_one-set row m h = elim (Bool-cases (is_named name row)) [
    | inl e ↦ rw e (
        ap (λ k. show_entry k (ui_definition limit (g row)) (set name d m)) (same row)
        ∙ ap (λ v. show_entry row.name v (set name d m)) (h e)
        ∙ show_entry-set_named name row.name d (ui_definition limit row) m e)
    | inr e ↦ rw e (show_entry-set_other name row.name d (ui_definition limit row) m e)
  ]

  -- A change of the row of a name changes the entry of that name.
  pub shown-update_named :
      (rows : Facets) (m : Assoc Definition)
      → All Shows rows
      → shown limit (update_named name g rows) (set name d m) ≡ set name d (shown limit rows m)
  shown-update_named [] m h = refl
  shown-update_named (row ∷ rows) m h =
      ap (shown limit (update_named name g rows)) (show_one-set row m h.0)
      ∙ shown-update_named rows (show_one limit row m) h.1

has-remove : (j k : Bytes) (m : Assoc Definition) → equal j k ≡ false → has j (remove k m) ≡ has j m
has-remove j k [] h = refl
has-remove j k ((i, u) ∷ m) h = elim (Bool-cases (equal i k)) [
  | inl e ↦ rw e (has-remove j k m h ∙ sym (rw (other e) refl))
  | inr e ↦ rw e (ap (◌||◌ (equal i j)) (has-remove j k m h))
]
  where
    other : equal i k ≡ true → equal i j ≡ false
    other e =
        subst (λ x. equal x j ≡ false) (sym ((equal_iff i k).0 e)) (differ (Bool-cases (equal k j)))
      where
        differ : (equal k j ≡ true) ⊎ (equal k j ≡ false) → equal k j ≡ false
        differ (inl p) = absurd (ground (arith, h, (equal_iff j k).1 (sym ((equal_iff k j).0 p))))
        differ (inr p) = p

remove-append : (k : Bytes) (m n : Assoc Definition) → remove k (m ++ n) ≡ remove k m ++ remove k n
remove-append k [] n = refl
remove-append k ((i, u) ∷ m) n = elim (Bool-cases (equal i k)) [
  | inl e ↦ rw e (remove-append k m n)
  | inr e ↦ rw e (ap (◌∷◌ (i, u)) (remove-append k m n))
]

pub remove-fresh : (k : Bytes) (m : Assoc Definition) → has k m ≡ false → remove k m ≡ m
remove-fresh k [] h = refl
remove-fresh k ((i, u) ∷ m) h = elim (Bool-cases (equal i k)) [
  | inl e ↦ absurd (ground (arith, h, e))
  | inr e ↦ rw e (ap (◌∷◌ (i, u)) (remove-fresh k m (ground (arith, h, e))))
]

show_one-remove_named :
    (limit : ℤ) (name : Bytes) (row : CustomFacet) (m : Assoc Definition)
    → is_named name row ≡ true
    → remove name (show_one limit row m) ≡ remove name m
show_one-remove_named limit name row m e = elim (Bool-cases (has row.name m)) [
  | inl k ↦ rw k refl
  | inr k ↦ rw k (remove-append name m (entry limit row) ∙ rw e (append-nil (remove name m)))
]

show_one-remove_other :
    (limit : ℤ) (name : Bytes) (row : CustomFacet) (m : Assoc Definition)
    → is_named name row ≡ false
    → show_one limit row (remove name m) ≡ remove name (show_one limit row m)
show_one-remove_other limit name row m e = elim (Bool-cases (has row.name m)) [
  | inl k ↦ rw (has-remove row.name name m e, k) refl
  | inr k ↦
      rw (has-remove row.name name m e, k)
        (sym (remove-append name m (entry limit row) ∙ rw e refl))
]

-- Without the rows of a name there is no entry of that name.
pub shown-filter :
    (limit : ℤ) (name : Bytes) (rows : Facets) (m : Assoc Definition)
    → shown limit (filter (λ f. not (is_named name f)) rows) (remove name m)
      ≡ remove name (shown limit rows m)
shown-filter limit name [] m = refl
shown-filter limit name (row ∷ rows) m = elim (Bool-cases (is_named name row)) [
  | inl e ↦ rw e (
      ap (shown limit (filter (λ f. not (is_named name f)) rows))
        (sym (show_one-remove_named limit name row m e))
      ∙ shown-filter limit name rows (show_one limit row m))
  | inr e ↦ rw e (
      ap (shown limit (filter (λ f. not (is_named name f)) rows))
        (show_one-remove_other limit name row m e)
      ∙ shown-filter limit name rows (show_one limit row m))
]
