-- ===== src/Catalog/Segment.antt =====
-- A row of the segments table, and the updates of internal/catalog/catalog.go. A time is an instant in
-- nanoseconds, an int64 its bit pattern, and a NULL is `none`.
use logpond.Base.{ℕ, Bool, true, false, [], Option, none, some, not, ◌||◌}
use logpond.Base.Text.{Bytes, equal}
use logpond.Base.Int.{ℤ, negsuc}

-- The constants of segments.state, and any other text.
pub data SegmentState : Type 0 where
  active sealed archived rehydrated lost : SegmentState
  other : Bytes → SegmentState

-- time.Time{}, the first instant of year 1
abbrev pub zero_time : ℤ
zero_time = negsuc 62135596799999999999

abbrev pub same_state : SegmentState → SegmentState → Bool
same_state active active = true
same_state sealed sealed = true
same_state archived archived = true
same_state rehydrated rehydrated = true
same_state lost lost = true
same_state (other s) (other t) = equal s t
same_state _ _ = false

pub record Segment : Type 0 where
  pub id : Bytes
  pub state : SegmentState
  pub time_start : ℤ
  pub time_end : ℤ
  pub row_count : ℕ
  pub size_bytes : ℕ
  pub size_compressed : Option ℕ
  pub local_path : Option Bytes
  pub s3_url : Option Bytes
  pub archive_ref : Option Bytes
  pub manifest_sha256 : Option Bytes
  pub parquet_sha256 : Option Bytes
  pub source_names : Option Bytes
  pub created_at : ℤ
  pub sealed_at : Option ℤ
  pub archived_at : Option ℤ
  pub rehydrated_at : Option ℤ
  pub evict_after : Option ℤ

-- SealedSegmentUpdate
pub record SealedSegmentUpdate : Type 0 where
  pub row_count : ℕ
  pub size_bytes : ℕ
  pub size_compressed : ℕ
  pub local_path : Bytes
  pub parquet_sha256 : Bytes
  pub source_names : Bytes
  pub time_start : ℤ
  pub time_end : ℤ

pub record ArchiveUpdate : Type 0 where
  pub s3_url : Bytes
  pub archive_ref : Bytes
  pub manifest_sha256 : Bytes
  pub parquet_sha256 : Bytes

pub record RehydrateUpdate : Type 0 where
  pub local_path : Bytes
  pub row_count : ℕ
  pub size_bytes : ℕ
  pub size_compressed : ℕ
  pub parquet_sha256 : Bytes
  pub source_names : Bytes
  pub evict_after : Option ℤ

pub record ImportedSegment : Type 0 where
  pub id : Bytes
  pub time_start : ℤ
  pub time_end : ℤ
  pub row_count : ℕ
  pub size_bytes : ℕ
  pub size_compressed : ℕ
  pub local_path : Bytes
  pub parquet_sha256 : Bytes
  pub manifest_sha256 : Bytes
  pub source_names : Bytes
  pub evict_after : Option ℤ

abbrev pub is_present : Option Bytes → Bool
is_present none = false
is_present (some s) = not (equal s [])

-- The `Valid` field of a nullable column.
abbrev pub is_valid : Option Bytes → Bool
is_valid none = false
is_valid (some s) = true

-- A valid column whose text is not empty is a copy in the archive.
unfoldable pub has_archive : Segment → Bool
has_archive s = is_present s.s3_url || is_present s.archive_ref
