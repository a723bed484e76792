-- ===== src/Retention/Run.antt =====
-- internal/retention/evaluator.go: `Run`, `execute` and `archiveThenDelete`.
pub mod Keeping
pub mod Loss
use logpond.Base.{Bool, true, false, ◌||◌, List, [], ◌∷◌, map, Option, none, some, if◌then◌else◌}
use logpond.Base.Text.{Bytes, has_prefix, codes}
use logpond.Base.Int.{pos, ltb_ℤ}
use logpond.Base.Int64.{is_positive}
use logpond.Catalog.Segment.{SegmentState, archived, Segment, ArchiveUpdate}
use logpond.Catalog.Table.{Table, get_segment, mark_segment_archived, clear_local_file}
use logpond.Retention.Plan.{Options, Verb, delete, archive_then_delete, Action, plan}
use logpond.Retention.Host.{
  World, SegmentRef, Host, HostError, loading_segment, missing_local_path, archive_failed,
  catalog_failed, removing, remove_file, remove_local,
}

-- What an action leaves: the world, and the error if there was one.
abbrev pub After : Type 0
After = World × Option HostError

abbrev clear_row : Bytes → SegmentState → World → After
clear_row id next_state w = elim (clear_local_file id next_state w.table) [
  | none ↦ (w, some catalog_failed)
  | some t ↦ (record w { table = t }, none)
]

abbrev then_clear : Bytes → SegmentState → World → Option (List Bytes) → After
then_clear id next_state w none = (w, some removing)
then_clear id next_state w (some files) = clear_row id next_state (record w { files = files })

abbrev execute_on : Host → Action → World → Option Segment → After
execute_on host a w none = (w, some loading_segment)
execute_on host a w (some seg) =
    then_clear a.segment_id a.next_state w (remove_local host seg.local_path w.files)

-- execute
unfoldable pub execute : Host → Action → World → After
execute host a w = execute_on host a w (get_segment w.table a.segment_id)

abbrev text_or_empty : Option Bytes → Bytes
text_or_empty none = []
text_or_empty (some s) = s

abbrev or_no_names : Option (List Bytes) → List Bytes
or_no_names none = []
or_no_names (some names) = names

abbrev source_names : Host → Option Bytes → List Bytes
source_names host none = []
source_names host (some s) =
    if has_prefix (host.trim_space s) (codes "[") then or_no_names (host.unmarshal s) else []

abbrev segment_ref : Host → Segment → Bytes → SegmentRef
segment_ref host seg path = record {
  id = seg.id;
  time_start = seg.time_start;
  time_end = seg.time_end;
  row_count = seg.row_count;
  size_bytes = seg.size_bytes;
  parquet_path = path;
  parquet_sha256 = text_or_empty seg.parquet_sha256;
  source_names = source_names host seg.source_names;
}

-- Behind the catalog update: the file goes, then the row forgets it.
abbrev drop_archived : Host → Bytes → Bytes → World → Option Table → After
drop_archived host id path w none = (w, some catalog_failed)
drop_archived host id path w (some t) =
    then_clear id archived (record w { table = t }) (remove_file host path w.files)

abbrev record_archived : Host → Bytes → Bytes → World → Option ArchiveUpdate → After
record_archived host id path w none = (w, some archive_failed)
record_archived host id path w (some u) =
    drop_archived host id path w (mark_segment_archived host.now id u w.table)

abbrev archive_path :
    Host → (SegmentRef → Option ArchiveUpdate) → Segment → World → Option Bytes → After
archive_path host backend seg w none = (w, some missing_local_path)
archive_path host backend seg w (some []) = (w, some missing_local_path)
archive_path host backend seg w (some (c ∷ cs)) =
    record_archived host seg.id (c ∷ cs) w (backend (segment_ref host seg (c ∷ cs)))

abbrev archive_on : Host → (SegmentRef → Option ArchiveUpdate) → World → Option Segment → After
archive_on host backend w none = (w, some loading_segment)
archive_on host backend w (some seg) = archive_path host backend seg w seg.local_path

-- archiveThenDelete
unfoldable pub archive_then_remove :
    Host → (SegmentRef → Option ArchiveUpdate) → Action → World → After
archive_then_remove host backend a w = archive_on host backend w (get_segment w.table a.segment_id)

-- The parts of an `Action` that `Run` fills in.
pub record Done : Type 0 where
  pub planned : Action
  pub executed : Bool
  pub error : Option HostError

abbrev with_outcome : Action → Option HostError → Done
with_outcome a none = record { planned = a; executed = true; error = none }
with_outcome a (some e) = record { planned = a; executed = false; error = some e }

abbrev pub not_run : Action → Done
not_run a = record { planned = a; executed = false; error = none }

abbrev pub finished : Action → After → World × Done
finished a (w, e) = (w, with_outcome a e)

-- archiveThenDelete sets NextState at its end.
abbrev pub archive_finished : Action → After → World × Done
archive_finished a (w, none) = (w, with_outcome (record a { next_state = archived }) none)
archive_finished a (w, some e) = (w, with_outcome a (some e))

abbrev pub archive_if :
    Host → Option (SegmentRef → Option ArchiveUpdate) → Action → World → World × Done
archive_if host none a w = (w, not_run a)
archive_if host (some backend) a w = archive_finished a (archive_then_remove host backend a w)

abbrev pub by_verb : Host → Verb → Action → World → World × Done
by_verb host delete a w = finished a (execute host a w)
by_verb host archive_then_delete a w = archive_if host host.backend a w

-- The body of the loop of `Run`.
unfoldable pub run_action : Host → Action → World → World × Done
run_action host a w = by_verb host a.action a w

unfoldable pub run_actions : Host → List Action → World → World × List Done
run_actions host [] w = (w, [])
run_actions host (a ∷ later) w =
    let (w', d) = run_action host a w in let (w'', ds) = run_actions host later w' in (w'', d ∷ ds)

-- Run
unfoldable pub run : Host → Options → Bool → World → World × List Done
run host o true w = (w, map not_run (plan o host.now w.table).actions)
run host o false w = run_actions host (plan o host.now w.table).actions w

-- The window that New fills in: an hour.
unfoldable pub with_defaults : Options → Options
with_defaults o = record o {
  protected_window =
      if ltb_ℤ (pos 0) o.protected_window then o.protected_window else pos 3600000000000;
}

-- Configured
unfoldable pub is_configured : Options → Bool
is_configured o = ltb_ℤ (pos 0) o.max_age || is_positive o.max_size

run_ticks : Options → List Host → World → World
run_ticks o [] w = w
run_ticks o (host ∷ hosts) w = run_ticks o hosts (run host o false w).0

-- RunLoop, over the outside as each tick finds it.
unfoldable pub run_loop : Options → List Host → World → World
unfolding run_ticks
run_loop o hosts w = if is_configured o then run_ticks o hosts w else w
