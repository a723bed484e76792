-- ===== src/Api/Rehydrate/Job.antt =====
-- internal/api/rehydrate.go: the work of a job. The outputs of the backend go through
-- appendSegmentBlock of archive.go.
use logpond.Base.{
  ℕ, suc, Bool, false, not, ◌&&◌, List, [], ◌∷◌, ◌++◌, Option, none, some, length, if◌then◌else◌,
}
use logpond.Base.Int.{ℤ, ◌+ℤ◌}
use logpond.Base.Result.{Result, ok, err}
use logpond.Base.Text.{Bytes, codes, equal}
use logpond.Catalog.Segment.{rehydrated, same_state, Segment, RehydrateUpdate}
use logpond.Catalog.Table.{Table, set_evict_after, mark_segment_rehydrated}
use logpond.Jobs.Manager.{Progress}
use logpond.Jobs.Foreground.{Call, report, print}
use logpond.Retention.Host.{SegmentRef}

pub data RetrieveError : Type 0 where
  unsupported : RetrieveError
  broken : RetrieveError

-- RetrieveResult with its manifest, and the error.
pub record Retrieved : Type 0 where
  pub parquet_path : Bytes
  pub row_count : ℕ
  pub size_bytes : ℕ
  pub size_compressed : ℕ
  pub parquet_sha256 : Bytes
  pub source_names : List Bytes
  pub stdout : Bytes
  pub stderr : Bytes
  pub failure : Option RetrieveError

-- The backend, the file system, JSON of names, the time at which a row is written, and whether the
-- job's context has ended when a segment is about to start.
pub record Archive : Type 0 where
  pub retrieve : SegmentRef → Retrieved
  pub make_dir : Bool
  pub file_exists : Bytes → Bool
  pub marshal : List Bytes → Option Bytes
  pub unmarshal : Bytes → Option (List Bytes)
  pub clock : Bytes → ℤ
  pub is_cancelled : ℕ → Bool

pub data JobError : Type 0 where
  no_directory : JobError
  context_ended : JobError
  rehydrate_unsupported : JobError
  evict_after_failed retrieve_failed update_failed : Bytes → JobError

-- nullString
abbrev null_string : Option Bytes → Bytes
null_string none = []
null_string (some s) = s

abbrev names_or_none : Option (List Bytes) → List Bytes
names_or_none none = []
names_or_none (some ns) = ns

-- decodeSourceNames
abbrev decode_source_names : Archive → Option Bytes → List Bytes
decode_source_names a none = []
decode_source_names a (some []) = []
decode_source_names a (some (c ∷ cs)) = names_or_none (a.unmarshal (c ∷ cs))

-- buildSegmentRef
abbrev pub build_segment_ref : Archive → Segment → SegmentRef
build_segment_ref a seg = record {
  id = seg.id;
  time_start = seg.time_start;
  time_end = seg.time_end;
  row_count = seg.row_count;
  size_bytes = seg.size_bytes;
  parquet_path = null_string seg.local_path;
  parquet_sha256 = null_string seg.parquet_sha256;
  source_names = decode_source_names a seg.source_names;
}

abbrev names_json : Archive → List Bytes → Bytes
names_json a [] = []
names_json a (n ∷ ns) = null_string (a.marshal (n ∷ ns))

abbrev pub update_of : Archive → Option ℤ → Retrieved → RehydrateUpdate
update_of a evict r = record {
  local_path = r.parquet_path;
  row_count = r.row_count;
  size_bytes = r.size_bytes;
  size_compressed = r.size_compressed;
  parquet_sha256 = r.parquet_sha256;
  source_names = names_json a r.source_names;
  evict_after = evict;
}

abbrev titled : Bytes → Bytes → Bytes
titled id addition = codes "--- " ++ (id ++ (codes " ---" ++ (10 ∷ addition)))

-- appendSegmentBlock
unfoldable pub append_segment_block : Bytes → Bytes → Bytes → Bytes
append_segment_block existing id [] = existing
append_segment_block [] id (c ∷ cs) = titled id (c ∷ cs)
append_segment_block (e ∷ es) id (c ∷ cs) = (e ∷ es) ++ (10 ∷ titled id (c ∷ cs))

-- What the job has written, its calls of the job manager, and the outputs so far.
pub record Work : Type 0 where
  pub table : Table
  pub calls : List Call
  pub stdout : Bytes
  pub stderr : Bytes

abbrev exists : Archive → Option Bytes → Bool
exists a none = false
exists a (some p) = not (equal p []) && a.file_exists p

abbrev pub is_already_local : Archive → Segment → Bool
is_already_local a seg = same_state seg.state rehydrated && exists a seg.local_path

abbrev items_done : ℕ → ℕ → Progress
items_done i total = record { completed = suc i; total = total; bytes_done = 0; bytes_total = 0 }

-- A write of the catalog, and the progress behind it.
abbrev pub saved : JobError → ℕ → ℕ → Work → Option Table → Result (Work × JobError) Work
saved e i total w none = err (w, e)
saved e i total w (some t) =
    ok (record w { table = t; calls = w.calls ++ report (items_done i total) ∷ [] })

module _ (a : Archive) (evict : Option ℤ) (total : ℕ) where
  abbrev pub unless_failed :
      ℕ → Segment → Retrieved → Work → Option RetrieveError → Result (Work × JobError) Work
  unless_failed i seg r w (some unsupported) = err (w, rehydrate_unsupported)
  unless_failed i seg r w (some broken) = err (w, retrieve_failed seg.id)
  unless_failed i seg r w none =
      saved (update_failed seg.id) i total w
        (mark_segment_rehydrated (a.clock seg.id) seg.id (update_of a evict r) w.table)

  abbrev pub noted : Segment → Retrieved → Work → Work
  noted seg r w = record w {
    stdout = append_segment_block w.stdout seg.id r.stdout;
    stderr = append_segment_block w.stderr seg.id r.stderr;
  }

  -- The body of the loop, behind the test of the context.
  unfoldable pub one_segment : ℕ → Segment → Work → Result (Work × JobError) Work
  one_segment i seg w =
      if is_already_local a seg
      then saved (evict_after_failed seg.id) i total w (set_evict_after seg.id evict w.table)
      else let r = a.retrieve (build_segment_ref a seg) in
        unless_failed i seg r (noted seg r w) r.failure

  abbrev pub then_others :
      (Work → Work × Option JobError) → Result (Work × JobError) Work → Work × Option JobError
  then_others later (err (w, e)) = (w, some e)
  then_others later (ok w) = later w

  -- The loop of runRehydrateJob.
  unfoldable pub each_segment : List Segment → ℕ → Work → Work × Option JobError
  each_segment [] i w = (w, none)
  each_segment (seg ∷ segs) i w =
      if a.is_cancelled i
      then (w, some context_ended)
      else then_others (each_segment segs (suc i)) (one_segment i seg w)

-- flushOutput, which stands in front of every return behind the first.
abbrev pub flush_output : Work × Option JobError → Work × Option JobError
flush_output (w, e) =
    if equal w.stdout [] && equal w.stderr []
    then (w, e)
    else (record w { calls = w.calls ++ print w.stdout w.stderr ∷ [] }, e)

abbrev pub evict_at : ℤ → ℤ → Bool → Option ℤ
evict_at now ttl persistent = if persistent then none else some (now +ℤ ttl)

-- runRehydrateJob
unfoldable pub run_rehydrate_job :
    Archive → ℤ → ℤ → Bool → List Segment → Table → Work × Option JobError
run_rehydrate_job a now ttl persistent segs t =
    let w : Work = record { table = t; calls = []; stdout = []; stderr = [] } in
    if a.make_dir
    then flush_output (each_segment a (evict_at now ttl persistent) (length segs) segs 0 w)
    else (w, some no_directory)
