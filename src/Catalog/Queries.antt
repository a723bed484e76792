-- ===== src/Catalog/Queries.antt =====
-- The SELECT statements of internal/catalog/catalog.go on the segments table.
use logpond.Base.{Bool, true, false, not, ◌&&◌, ◌||◌, Option, none, some, filter}
use logpond.Base.Int.{ℤ, ltb_ℤ}
use logpond.Catalog.Segment.{
  SegmentState, sealed, archived, rehydrated, lost, same_state, Segment, is_present, has_archive,
}
use logpond.Catalog.Order.{order_by}
use logpond.Catalog.Table.{Table}

abbrev pub starts_later : Segment → Segment → Bool
starts_later r s = ltb_ℤ s.time_start r.time_start

abbrev pub starts_earlier : Segment → Segment → Bool
starts_earlier r s = ltb_ℤ r.time_start s.time_start

abbrev pub ends_earlier : Segment → Segment → Bool
ends_earlier r s = ltb_ℤ r.time_end s.time_end

-- `evict_after IS NULL, evict_after ASC`
abbrev pub evicted_earlier : Option ℤ → Option ℤ → Bool
evicted_earlier (some a) (some b) = ltb_ℤ a b
evicted_earlier (some a) none = true
evicted_earlier none _ = false

-- ListSegments
unfoldable pub list_segments : Table → Table
list_segments t = order_by starts_later t

unfoldable pub is_in_range : ℤ → ℤ → Segment → Bool
is_in_range from to s =
    not (same_state s.state lost) && not (ltb_ℤ to s.time_start) && not (ltb_ℤ s.time_end from)

-- SegmentsInRange
unfoldable pub segments_in_range : ℤ → ℤ → Table → Table
segments_in_range from to t = order_by starts_later (filter (is_in_range from to) t)

-- ListSegmentsByState
unfoldable pub list_segments_by_state : SegmentState → Table → Table
list_segments_by_state state t = order_by starts_earlier (filter (λ s. same_state s.state state) t)

unfoldable pub is_local : Segment → Bool
is_local s =
    is_present s.local_path
    && (same_state s.state sealed || same_state s.state archived || same_state s.state rehydrated)

-- ListLocalSegments
unfoldable pub list_local_segments : Table → Table
list_local_segments t = order_by ends_earlier (filter is_local t)

-- ListRehydratedSegments
unfoldable pub list_rehydrated_segments : Table → Table
list_rehydrated_segments t =
    order_by (λ r s. evicted_earlier r.evict_after s.evict_after)
      (filter (λ s. same_state s.state rehydrated) t)

-- ListArchivedSegments
unfoldable pub list_archived_segments : Table → Table
list_archived_segments t = order_by ends_earlier (filter has_archive t)
