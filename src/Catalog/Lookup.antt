-- ===== src/Catalog/Lookup.antt =====
-- What GetSegment of internal/catalog/catalog.go finds after a write.
pub mod Rows
use logpond.Base.{
  ◌≡◌, refl, sym, subst, ap, ◌∙◌, false, [], ◌∷◌, ◌++◌, Option, none, some, any, Bool-cases, inl,
  inr, if◌then◌else◌, ||-eq-false,
}
use logpond.Base.Text.{Bytes, equal, equal_iff}
use logpond.Base.Int.{ℤ}
use logpond.Catalog.Segment.{SegmentState, Segment}
use logpond.Base.Unique.{equal_comm}
use logpond.Catalog.Keys.{unless_some, when_some}
use logpond.Catalog.Table.{
  Table, has_id, get_segment, update_where, inserted_row, insert_segment, cleared_row,
  clear_local_file,
}

-- A change of the row that was found, if one was.
abbrev pub apply : (Segment → Segment) → Option Segment → Option Segment
apply f none = none
apply f (some s) = some (f s)

pub get_segment-update_where :
    (id : Bytes) (f : Segment → Segment)
    → ((s : Segment) → (f s).id ≡ s.id)
    → (t : Table) (x : Bytes)
    → get_segment (update_where id f t) x
      ≡ (if equal id x then apply f (get_segment t x) else get_segment t x)
unfolding get_segment
get_segment-update_where id f same [] x = elim (Bool-cases (equal id x)) [
  | inl q ↦ rw q refl
  | inr q ↦ rw q refl
]
get_segment-update_where id f same (s ∷ t) x = elim (Bool-cases (has_id id s)) [
  | inl e ↦
      rw
        (
          e,
          ap (λ k. equal k x) (same s ∙ (equal_iff s.id id).0 e),
          ap (λ k. equal k x) ((equal_iff s.id id).0 e),
        )
        (elim (Bool-cases (equal id x)) [
          | inl q ↦ rw q refl
          | inr q ↦ rw q (
              get_segment-update_where id f same t x
              ∙ ap (λ b. if b then apply f (get_segment t x) else get_segment t x) q)
        ])
  | inr e ↦ rw e (elim (Bool-cases (equal s.id x)) [
    | inl q ↦ rw (q, equal_comm x id (ap (λ k. equal k id) (sym ((equal_iff s.id x).0 q)) ∙ e)) refl
    | inr q ↦ rw q (get_segment-update_where id f same t x)
  ])
]
