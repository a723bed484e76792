-- ===== src/Api/Rehydrate/Selected.antt =====
-- internal/api/rehydrate.go: the segments that a request selects.
use logpond.Base.{
  ◌≡◌, refl, sym, subst, ap, ◌∙◌, true, List, [], Option, none, some, All, map-All, filter-All,
  Bool-cases, inl, inr,
}
use logpond.Base.Int.{ℤ, ltb_ℤ}
use logpond.Base.Result.{Result, ok, err, ok-injective}
use logpond.Base.Text.{Bytes, equal}
use logpond.Catalog.Segment.{
  SegmentState, active, sealed, archived, rehydrated, lost, other, same_state, Segment,
}
use logpond.Catalog.Order.{All-order_by}
use logpond.Catalog.Queries.{starts_later, is_in_range, segments_in_range}
use logpond.Catalog.Table.{Table, get_segment}
use logpond.Catalog.Keys.{HasKeys}
use logpond.Api.Rehydrate.Request.{
  RehydrateRequest, SelectError, can_rehydrate, one_of, in_range, select_candidates,
}
use logpond.Catalog.Lookup.Rows.{Holds, HasKeys-get_segment, get_segment-id}

abbrev pub IsRehydrated : Segment → Type 0
IsRehydrated r = r.state ≡ rehydrated

-- The row of a segment that the selection found rehydrated still is.
abbrev pub Ready : Table → Segment → Type 0
Ready t seg = same_state seg.state rehydrated ≡ true → Holds IsRehydrated (get_segment t seg.id)

same_rehydrated : (x : SegmentState) → same_state x rehydrated ≡ true → x ≡ rehydrated
same_rehydrated active h = absurd (cc)
same_rehydrated sealed h = absurd (cc)
same_rehydrated archived h = absurd (cc)
same_rehydrated rehydrated h = refl
same_rehydrated lost h = absurd (cc)
same_rehydrated (other s) h = absurd (cc)

Ready-found : (t : Table) (s : Segment) → get_segment t s.id ≡ some s → Ready t s
Ready-found t s e q = subst (Holds IsRehydrated) (sym e) (same_rehydrated s.state q)

module _ (t : Table) (h : HasKeys t) where
  in_range-Ready :
      (o : Option (ℤ × ℤ)) (segs : List Segment) → in_range t o ≡ ok segs → All (Ready t) segs
  unfolding segments_in_range
  in_range-Ready none segs q = absurd (cc (q))
  in_range-Ready (some (from, to)) segs q = elim (Bool-cases (ltb_ℤ from to)) [
    | inr n ↦ absurd (wrong (rw n at q))
    | inl y ↦ subst (All (Ready t)) (ok-injective (rw y at q)) (
        filter-All (Ready t) can_rehydrate _ (
          All-order_by starts_later (Ready t) _ (
            filter-All (Ready t) (is_in_range from to) t
              (map-All (Ready-found t) t (HasKeys-get_segment t h)))))
  ]
    where
      wrong : {x : SelectError} → ◌≡◌ {A = Result SelectError (List Segment)} (err x) (ok segs) → ⊥
      wrong k = cc

  one_of-Ready : (x : Bytes) (o : Option Segment) → get_segment t x ≡ o → All (Ready t) (one_of o)
  one_of-Ready x none q = tt
  one_of-Ready x (some s) q =
      (Ready-found t s (ap (get_segment t) (get_segment-id t x s q) ∙ q), tt)

  pub select_candidates-Ready :
      (r : RehydrateRequest) (segs : List Segment)
      → select_candidates r t ≡ ok segs
      → All (Ready t) segs
  unfolding select_candidates
  select_candidates-Ready r segs e = elim (Bool-cases (equal r.segment_id [])) [
    | inl y ↦ in_range-Ready r.time_range segs (rw y at e)
    | inr n ↦
        subst (All (Ready t)) (ok-injective (rw n at e))
          (one_of-Ready r.segment_id (get_segment t r.segment_id) refl)
  ]
