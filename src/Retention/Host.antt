-- ===== src/Retention/Host.antt =====
-- What retention changes, the catalog and the local files, and what it needs of the outside.
use logpond.Base.{ℕ, Bool, not, List, [], ◌∷◌, Option, none, some, filter, if◌then◌else◌}
use logpond.Base.Text.{Bytes, equal}
use logpond.Base.Int.{ℤ}
use logpond.Catalog.Segment.{ArchiveUpdate}
use logpond.Catalog.Table.{Table}

pub record World : Type 0 where
  pub table : Table
  pub files : List Bytes

-- `archive.SegmentRef`, as retention fills it in.
pub record SegmentRef : Type 0 where
  pub id : Bytes
  pub time_start : ℤ
  pub time_end : ℤ
  pub row_count : ℕ
  pub size_bytes : ℕ
  pub parquet_path : Bytes
  pub parquet_sha256 : Bytes
  pub source_names : List Bytes

-- The clock, the file system (`blocked p`: os.Remove of p fails, and not for a missing file), the
-- archive backend if there is one (no result: it fails), the executor's busy segments, and
-- filepath.Join of the directory of a path with a name (`beside`), strings.TrimSpace and json.Unmarshal into strings.
pub record Host : Type 0 where
  pub now : ℤ
  pub blocked : Bytes → Bool
  pub backend : Option (SegmentRef → Option ArchiveUpdate)
  pub is_segment_busy : Bytes → Bool
  pub beside : Bytes → Bytes → Bytes
  pub trim_space : Bytes → Bytes
  pub unmarshal : Bytes → Option (List Bytes)

pub data HostError : Type 0 where
  loading_segment missing_local_path archive_failed catalog_failed removing : HostError

-- os.Remove, where a missing file is no error. No result: it failed.
unfoldable pub remove_file : Host → Bytes → List Bytes → Option (List Bytes)
remove_file host path files =
    if host.blocked path then none else some (filter (λ f. not (equal f path)) files)

-- The local file of a row, if it has one.
unfoldable pub remove_local : Host → Option Bytes → List Bytes → Option (List Bytes)
remove_local host none files = some files
remove_local host (some []) files = some files
remove_local host (some (c ∷ cs)) files = remove_file host (c ∷ cs) files
