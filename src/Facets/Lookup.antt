-- ===== src/Facets/Lookup.antt =====
-- internal/facets/registry.go: what a lookup finds among the entries that a load shows.
use logpond.Base.{
  ◌≡◌, refl, sym, subst, ap, ◌∙◌, true, false, [], ◌∷◌, ◌++◌, Option, some, some-injective, none,
  arith, All, Bool-cases, inl, inr, ◌⊎◌,
}
use logpond.Base.Text.{Bytes, equal, equal_iff}
use logpond.Base.Int.{ℤ}
use logpond.Base.Assoc.{Assoc, lookup, has, put}
use logpond.Catalog.CustomFacets.{CustomFacet, Facets, is_named}
use logpond.Facets.Definition.{Definition, is_ui}
use logpond.Facets.Registry.{ui_definition}
use logpond.Facets.Shown.{entry, shown, set, set-fresh}
use logpond.Facets.Shape.{Distinct, NotUi}

pub lookup-append :
    (k : Bytes) (m n : Assoc Definition) → has k m ≡ true → lookup k (m ++ n) ≡ lookup k m
lookup-append k [] n h = absurd (ground (arith, h))
lookup-append k ((j, v) ∷ m) n h = elim (Bool-cases (equal j k)) [
  | inl e ↦ rw e refl
  | inr e ↦ rw e (lookup-append k m n (ground (arith, h, e)))
]

has-append : (k : Bytes) (m n : Assoc Definition) → has k m ≡ true → has k (m ++ n) ≡ true
has-append k [] n h = absurd (ground (arith, h))
has-append k ((j, v) ∷ m) n h = elim (Bool-cases (equal j k)) [
  | inl e ↦ rw e refl
  | inr e ↦ rw e (has-append k m n (ground (arith, h, e)))
]

-- Rows hide no entry that is there.
pub lookup-shown_old :
    (limit : ℤ) (k : Bytes) (rows : Facets) (m : Assoc Definition)
    → has k m ≡ true
    → lookup k (shown limit rows m) ≡ lookup k m
lookup-shown_old limit k [] m h = refl
lookup-shown_old limit k (row ∷ rows) m h = elim (Bool-cases (has row.name m)) [
  | inl e ↦ rw e (lookup-shown_old limit k rows m h)
  | inr e ↦ rw e (
      lookup-shown_old limit k rows (m ++ entry limit row) (has-append k m (entry limit row) h)
      ∙ lookup-append k m (entry limit row) h)
]

pub lookup-NotUi :
    (k : Bytes) (m : Assoc Definition) {d : Definition}
    → All NotUi m
    → lookup k m ≡ some d
    → is_ui d.kind d.source ≡ false
lookup-NotUi k [] h e = absurd (cc)
lookup-NotUi k ((j, v) ∷ m) {d = d} h e = elim (Bool-cases (equal j k)) [
  | inl p ↦ subst (λ w. is_ui w.kind w.source ≡ false) (some-injective v d (rw p at e)) h.0
  | inr p ↦ lookup-NotUi k m h.1 (rw p at e)
]

-- An entry of the operator stands in no registry without rows.
pub lookup-fresh :
    (limit : ℤ) (k : Bytes) (rows : Facets) (m : Assoc Definition) (d : Definition)
    → All NotUi m
    → lookup k (shown limit rows m) ≡ some d
    → is_ui d.kind d.source ≡ true
    → has k m ≡ false
lookup-fresh limit k rows m d h e u = elim (Bool-cases (has k m)) [
  | inl p ↦ absurd (clash (lookup-NotUi k m h (sym (lookup-shown_old limit k rows m p) ∙ e)))
  | inr p ↦ p
]
  where
    clash : is_ui d.kind d.source ≡ false → ⊥
    clash q = ground (arith, q, u)

lookup-snoc :
    (k j : Bytes) (v : Definition) (m : Assoc Definition) {d : Definition}
    → lookup k (m ++ (j, v) ∷ []) ≡ some d
    → (lookup k m ≡ some d) ⊎ ((equal j k ≡ true) × (v ≡ d))
lookup-snoc k j v [] {d = d} h = elim (Bool-cases (equal j k)) [
  | inl e ↦ inr (e, some-injective v d (rw e at h))
  | inr e ↦ absurd (missing (rw e at h))
]
  where
    missing : ◌≡◌ {A = Option Definition} none (some d) → ⊥
    missing q = cc
lookup-snoc k j v ((i, u) ∷ m) h = elim (Bool-cases (equal i k)) [
  | inl e ↦ rw e (inl (rw e at h))
  | inr e ↦ rw e (lookup-snoc k j v m (rw e at h))
]

-- What is found under a name is what its row shows.
pub lookup-shown :
    (limit : ℤ) (k : Bytes) (f : CustomFacet) (rows : Facets) (m : Assoc Definition)
    → All (λ row. is_named k row ≡ true → row ≡ f) rows
    → ((d : Definition) → lookup k m ≡ some d → d ≡ ui_definition limit f)
    → (d : Definition) → lookup k (shown limit rows m) ≡ some d
    → d ≡ ui_definition limit f
lookup-shown limit k f [] m h start d e = start d e
lookup-shown limit k f (row ∷ rows) m h start d e = elim (Bool-cases (has row.name m)) [
  | inl p ↦ lookup-shown limit k f rows m h.1 start d (rw p at e)
  | inr p ↦ lookup-shown limit k f rows (m ++ entry limit row) h.1 next d (rw p at e)
]
  where
    next :
        (d' : Definition) → lookup k (m ++ entry limit row) ≡ some d' → d' ≡ ui_definition limit f
    next d' q = elim (lookup-snoc k row.name (ui_definition limit row) m q) [
      | inl r ↦ start d' r
      | inr r ↦ sym r.1 ∙ ap (ui_definition limit) (h.0 r.0)
    ]

pub lookup_fresh-none : (k : Bytes) (m : Assoc Definition) → has k m ≡ false → lookup k m ≡ none
lookup_fresh-none k [] h = refl
lookup_fresh-none k ((j, v) ∷ m) h = elim (Bool-cases (equal j k)) [
  | inl e ↦ absurd (ground (arith, h, e))
  | inr e ↦ rw e (lookup_fresh-none k m (ground (arith, h, e)))
]

pub put-set :
    (k : Bytes) (d : Definition) (m : Assoc Definition)
    → Distinct m
    → has k m ≡ true
    → put k d m ≡ set k d m
put-set k d [] h e = absurd (ground (arith, e))
put-set k d ((j, v) ∷ m) h e = elim (Bool-cases (equal j k)) [
  | inl p ↦ rw p (
      ap (◌∷◌ (j, d))
        (sym (set-fresh k d m (subst (λ i. has i m ≡ false) ((equal_iff j k).0 p) h.0))))
  | inr p ↦ rw p (ap (◌∷◌ (j, v)) (put-set k d m h.1 (ground (arith, e, p))))
]
