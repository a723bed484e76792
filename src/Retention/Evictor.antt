-- ===== src/Retention/Evictor.antt =====
-- internal/api/evictor.go: `Sweep`, and evictRehydratedSegment of internal/api/rehydrate.go.
pub mod Complete
pub mod Backed
use logpond.Base.{
  ℕ, ◌+◌, Bool, true, false, not, ◌&&◌, List, [], ◌∷◌, ◌++◌, Option, none, some, if◌then◌else◌,
}
use logpond.Base.Text.{Bytes, codes}
use logpond.Base.Int.{ℤ, ltb_ℤ}
use logpond.Catalog.Segment.{SegmentState, archived, lost, Segment, has_archive}
use logpond.Catalog.Table.{Table, clear_local_file}
use logpond.Catalog.Queries.{list_rehydrated_segments}
use logpond.Retention.Host.{World, Host, HostError, catalog_failed, removing, remove_file}

-- ManifestFilename of internal/segments/manifest.go
abbrev pub manifest_filename : Bytes → Bytes
manifest_filename id = codes "segment-" ++ (id ++ codes ".manifest.json")

-- The files that are left, and whether all went well.
abbrev pub Removal : Type 0
Removal = List Bytes × Bool

abbrev removal : List Bytes → Option (List Bytes) → Removal
removal files none = (files, false)
removal files (some left) = (left, true)

abbrev then_manifest : Host → Bytes → Bytes → Removal → Removal
then_manifest host path id (files, false) = (files, false)
then_manifest host path id (files, true) =
    removal files (remove_file host (host.beside path (manifest_filename id)) files)

-- The two files of a row with a local file.
abbrev pub remove_both : Host → Bytes → Option Bytes → List Bytes → Removal
remove_both host id none files = (files, true)
remove_both host id (some []) files = (files, true)
remove_both host id (some (c ∷ cs)) files =
    then_manifest host (c ∷ cs) id (removal files (remove_file host (c ∷ cs) files))

abbrev pub next_of : Segment → SegmentState
next_of seg = if has_archive seg then archived else lost

abbrev pub cleared : World → Option Table → World × Option HostError
cleared w none = (w, some catalog_failed)
cleared w (some t) = (record w { table = t }, none)

abbrev pub then_cleared : Segment → World → Removal → World × Option HostError
then_cleared seg w (files, false) = (record w { files = files }, some removing)
then_cleared seg w (files, true) =
    cleared (record w { files = files }) (clear_local_file seg.id (next_of seg) w.table)

-- evictRehydratedSegment. A manifest that cannot be removed leaves the row, though the segment file
-- is gone.
unfoldable pub evict_rehydrated_segment : Host → Segment → World → World × Option HostError
evict_rehydrated_segment host seg w =
    then_cleared seg w (remove_both host seg.id seg.local_path w.files)

-- `evict_after` is there and not after now.
abbrev pub is_due_at : ℤ → Option ℤ → Bool
is_due_at now none = false
is_due_at now (some at) = not (ltb_ℤ now at)

abbrev pub is_due : Host → Segment → Bool
is_due host seg = is_due_at host.now seg.evict_after && not (host.is_segment_busy seg.id)

-- What the loop of `Sweep` keeps: the number evicted, and the first error.
pub record Swept : Type 0 where
  pub world : World
  pub evicted : ℕ
  pub first_error : Option HostError

abbrev or_first : Option HostError → HostError → Option HostError
or_first none e = some e
or_first (some first) e = some first

abbrev pub counted : Swept → World × Option HostError → Swept
counted s (w, none) = record s { world = w; evicted = s.evicted + 1 }
counted s (w, some e) = record s { world = w; first_error = or_first s.first_error e }

unfoldable pub sweep_segments : Host → List Segment → Swept → Swept
sweep_segments host [] s = s
sweep_segments host (seg ∷ segs) s =
    sweep_segments host segs
      (if is_due host seg then counted s (evict_rehydrated_segment host seg s.world) else s)

-- Sweep
unfoldable pub sweep : Host → World → Swept
sweep host w =
    sweep_segments host (list_rehydrated_segments w.table)
      (record { world = w; evicted = 0; first_error = none })
