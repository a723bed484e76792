-- ===== src/Catalog/Lookup/Rows.antt =====
-- internal/catalog/catalog.go: the row that GetSegment finds, before and after a write.
use logpond.Base.{
  ◌≡◌, refl, sym, subst, ap, ◌∙◌, true, false, [], ◌∷◌, Option, none, some, some-injective, any,
  All, Bool-cases, inl, inr, ||-eq-false,
}
use logpond.Base.Text.{Bytes, equal, equal_iff, equal_refl}
use logpond.Catalog.Segment.{Segment}
use logpond.Base.Unique.{equal_comm}
use logpond.Catalog.Table.{Table, has_id, get_segment, update_where}
use logpond.Catalog.Keys.{HasKeys}
use logpond.Catalog.Lookup.{apply, get_segment-update_where}

-- The row of an id, if there is one, is as P says, and there is one.
abbrev pub Holds : (Segment → Type 0) → Option Segment → Type 0
Holds P none = ⊥
Holds P (some r) = P r

apply-Holds :
    (P Q : Segment → Type 0) (f : Segment → Segment) (o : Option Segment)
    → ((r : Segment) → P r → Q (f r))
    → Holds P o
    → Holds Q (apply f o)
apply-Holds P Q f none h k = absurd k
apply-Holds P Q f (some r) h k = h r k

-- A row that was back, or only rehydrated, is so after a write to any id.
pub kept-Holds :
    (P : Segment → Type 0) (id : Bytes) (f : Segment → Segment) (t : Table) (x : Bytes)
    → ((r : Segment) → (f r).id ≡ r.id)
    → ((r : Segment) → P r → P (f r))
    → Holds P (get_segment t x)
    → Holds P (get_segment (update_where id f t) x)
kept-Holds P id f t x same keeps h =
    subst (Holds P) (sym (get_segment-update_where id f same t x)) (elim (Bool-cases (equal id x)) [
      | inl e ↦ rw e (apply-Holds P P f (get_segment t x) keeps h)
      | inr e ↦ rw e h
    ])

pub self-Holds :
    (P Q : Segment → Type 0) (id : Bytes) (f : Segment → Segment) (t : Table)
    → ((r : Segment) → (f r).id ≡ r.id)
    → ((r : Segment) → P r → Q (f r))
    → Holds P (get_segment t id)
    → Holds Q (get_segment (update_where id f t) id)
self-Holds P Q id f t same makes h =
    subst (Holds Q) (sym (get_segment-update_where id f same t id ∙ rw (equal_refl id) refl))
      (apply-Holds P Q f (get_segment t id) makes h)

pub found-Holds :
    (id : Bytes) (t : Table) → any (has_id id) t ≡ true → Holds (λ r. Unit {0}) (get_segment t id)
unfolding get_segment
found-Holds id [] h = absurd (cc)
found-Holds id (s ∷ t) h = elim (Bool-cases (has_id id s)) [
  | inl e ↦ rw e tt
  | inr e ↦ rw e (found-Holds id t (rw e at h))
]

get_segment-behind :
    (s : Segment) (t u : Table)
    → any (has_id s.id) u ≡ false
    → All (λ r. get_segment t r.id ≡ some r) u
    → All (λ r. get_segment (s ∷ t) r.id ≡ some r) u
unfolding get_segment
get_segment-behind s t [] h k = tt
get_segment-behind s t (r ∷ u) h k =
    let (apart, later) = ||-eq-false (has_id s.id r) _ h in
    (rw (equal_comm r.id s.id apart) k.0, get_segment-behind s t u later k.1)

-- Rows with different ids are found by their ids.
pub HasKeys-get_segment : (t : Table) → HasKeys t → All (λ s. get_segment t s.id ≡ some s) t
unfolding get_segment
HasKeys-get_segment [] h = tt
HasKeys-get_segment (s ∷ t) h =
    (rw (equal_refl s.id) refl, get_segment-behind s t t h.0 (HasKeys-get_segment t h.1))

pub get_segment-id : (t : Table) (x : Bytes) (s : Segment) → get_segment t x ≡ some s → s.id ≡ x
unfolding get_segment
get_segment-id [] x s e = absurd (cc)
get_segment-id (r ∷ t) x s e = elim (Bool-cases (has_id x r)) [
  | inl y ↦
      ap (λ (o : Segment). o.id) (sym (some-injective r s (rw y at e))) ∙ (equal_iff r.id x).0 y
  | inr n ↦ get_segment-id t x s (rw n at e)
]
