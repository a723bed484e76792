-- ===== src/Catalog/Table.antt =====
-- The statements of internal/catalog/catalog.go on the segments table. The rows stand in the order in
-- which they were inserted; `id` is the primary key.
use logpond.Base.{
  Bool, not, ◌&&◌, List, [], ◌∷◌, ◌++◌, Option, none, some, map, any, filter, if◌then◌else◌,
}
use logpond.Base.Text.{Bytes, equal}
use logpond.Base.Int.{ℤ, ltb_ℤ}
use logpond.Base.Int64.{is_positive}
use logpond.Catalog.Segment.{
  zero_time, SegmentState, active, sealed, archived, rehydrated, other, Segment,
  SealedSegmentUpdate, ArchiveUpdate, RehydrateUpdate, ImportedSegment,
}

abbrev pub Table : Type 0
Table = List Segment

abbrev pub has_id : Bytes → Segment → Bool
has_id id s = equal s.id id

-- GetSegment
unfoldable pub get_segment : Table → Bytes → Option Segment
get_segment [] id = none
get_segment (s ∷ t) id = let later = get_segment t id in if has_id id s then some s else later

-- `UPDATE segments SET ... WHERE id = ?`
abbrev pub update_where : Bytes → (Segment → Segment) → Table → Table
update_where id f = map (λ s. if has_id id s then f s else s)

-- The update, or no result if no row was affected.
abbrev pub update_one : Bytes → (Segment → Segment) → Table → Option Table
update_one id f t = if any (has_id id) t then some (update_where id f t) else none

abbrev or_null : Bytes → Option Bytes
or_null s = if equal s [] then none else some s

-- A column that is written only if there is something to write.
abbrev or_kept : Bytes → Option Bytes → Option Bytes
or_kept s old = if equal s [] then old else some s

abbrev insert_row : Segment → Table → Option Table
insert_row s t = if any (has_id s.id) t then none else some (t ++ s ∷ [])

abbrev pub default_state : SegmentState → SegmentState
default_state (other []) = active
default_state s = s

abbrev is_zero_time : ℤ → Bool
is_zero_time at = not (ltb_ℤ at zero_time) && not (ltb_ℤ zero_time at)

unfoldable pub inserted_row : ℤ → Segment → Segment
inserted_row now s = record s {
  state = default_state s.state;
  created_at = if is_zero_time s.created_at then now else s.created_at;
}

-- InsertSegment; no result if the id is taken.
unfoldable pub insert_segment : ℤ → Segment → Table → Option Table
unfolding inserted_row
insert_segment now s t = insert_row (inserted_row now s) t

unfoldable pub stamped : ℤ → SegmentState → Segment → Segment
stamped now sealed s = record s { state = sealed; sealed_at = some now }
stamped now archived s = record s { state = archived; archived_at = some now }
stamped now rehydrated s = record s { state = rehydrated; rehydrated_at = some now }
stamped now state s = record s { state = state }

unfoldable pub update_segment_state : ℤ → Bytes → SegmentState → Table → Option Table
unfolding stamped
update_segment_state now id state t = update_one id (stamped now state) t

sealed_row : ℤ → SealedSegmentUpdate → Segment → Segment
sealed_row now u s = record s {
  state = sealed;
  time_start = u.time_start;
  time_end = u.time_end;
  row_count = u.row_count;
  size_bytes = u.size_bytes;
  size_compressed = if is_positive u.size_compressed then some u.size_compressed else none;
  local_path = or_null u.local_path;
  parquet_sha256 = or_null u.parquet_sha256;
  source_names = or_null u.source_names;
  sealed_at = some now;
}

-- MarkSegmentSealed; a missing row is no error.
unfoldable pub mark_segment_sealed : ℤ → Bytes → SealedSegmentUpdate → Table → Table
unfolding sealed_row
mark_segment_sealed now id u t = update_where id (sealed_row now u) t

-- DeleteSegment
unfoldable pub delete_segment : Bytes → Table → Table
delete_segment id t = filter (λ s. not (has_id id s)) t

archived_row : ℤ → ArchiveUpdate → Segment → Segment
archived_row now u s = record s {
  state = archived;
  archived_at = some now;
  s3_url = or_kept u.s3_url s.s3_url;
  archive_ref = or_kept u.archive_ref s.archive_ref;
  manifest_sha256 = or_kept u.manifest_sha256 s.manifest_sha256;
  parquet_sha256 = or_kept u.parquet_sha256 s.parquet_sha256;
}

-- MarkSegmentArchived
unfoldable pub mark_segment_archived : ℤ → Bytes → ArchiveUpdate → Table → Option Table
unfolding archived_row
mark_segment_archived now id u t = update_one id (archived_row now u) t

unfoldable pub rehydrated_row : ℤ → RehydrateUpdate → Segment → Segment
rehydrated_row now u s = record s {
  state = rehydrated;
  rehydrated_at = some now;
  local_path = or_null u.local_path;
  evict_after = u.evict_after;
  row_count = if is_positive u.row_count then u.row_count else s.row_count;
  size_bytes = if is_positive u.size_bytes then u.size_bytes else s.size_bytes;
  size_compressed =
      if is_positive u.size_compressed then some u.size_compressed else s.size_compressed;
  parquet_sha256 = or_kept u.parquet_sha256 s.parquet_sha256;
  source_names = or_kept u.source_names s.source_names;
}

-- MarkSegmentRehydrated
unfoldable pub mark_segment_rehydrated : ℤ → Bytes → RehydrateUpdate → Table → Option Table
unfolding rehydrated_row
mark_segment_rehydrated now id u t = update_one id (rehydrated_row now u) t

-- SetEvictAfter
unfoldable pub set_evict_after : Bytes → Option ℤ → Table → Option Table
set_evict_after id at t = update_one id (λ s. record s { evict_after = at }) t

unfoldable pub cleared_row : SegmentState → Segment → Segment
cleared_row next_state s = record s { state = next_state; local_path = none; evict_after = none }

-- ClearLocalFile
unfoldable pub clear_local_file : Bytes → SegmentState → Table → Option Table
unfolding cleared_row
clear_local_file id next_state t = update_one id (cleared_row next_state) t

imported_row : ℤ → ImportedSegment → Segment
imported_row now s = record {
  id = s.id;
  state = rehydrated;
  time_start = s.time_start;
  time_end = s.time_end;
  row_count = s.row_count;
  size_bytes = s.size_bytes;
  size_compressed = if is_positive s.size_compressed then some s.size_compressed else none;
  local_path = or_null s.local_path;
  s3_url = none;
  archive_ref = none;
  manifest_sha256 = or_null s.manifest_sha256;
  parquet_sha256 = or_null s.parquet_sha256;
  source_names = or_null s.source_names;
  created_at = now;
  sealed_at = none;
  archived_at = none;
  rehydrated_at = some now;
  evict_after = s.evict_after;
}

-- InsertImportedSegment
unfoldable pub insert_imported_segment : ℤ → ImportedSegment → Table → Option Table
unfolding imported_row
insert_imported_segment now s t = insert_row (imported_row now s) t
