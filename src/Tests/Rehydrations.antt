-- ===== src/Tests/Rehydrations.antt =====
-- Runs of internal/api/rehydrate.go.
use logpond.Base.{◌≡◌, refl, true, false, List, [], ◌∷◌, ◌++◌, none, some, All}
use logpond.Base.Int64.{add64}
use logpond.Base.Int.{pos, ◌+ℤ◌}
use logpond.Base.Result.{ok}
use logpond.Base.Text.{codes, equal}
use logpond.Catalog.Segment.{archived, Segment, has_archive}
use logpond.Catalog.Table.{
  Table, get_segment, set_evict_after, mark_segment_rehydrated, rehydrated_row,
}
use logpond.Catalog.Keys.{HasKeys}
use logpond.Catalog.Order.{insert, order_by}
use logpond.Catalog.Queries.{segments_in_range, is_in_range}
use logpond.Catalog.Lookup.Rows.{Holds}
use logpond.Catalog.Jobs.{insert_job}
use logpond.Jobs.Manager.{create}
use logpond.Jobs.Foreground.{report, print}
use logpond.Api.Rehydrate.Request.{
  RehydrateRequest, select_candidates, ttl_of, sum_bytes, estimate_rehydrate_seconds,
  handle_rehydrate, job_started, RehydrateServer,
}
use logpond.Api.Rehydrate.Job.{
  Archive, append_segment_block, one_segment, each_segment, evict_at, run_rehydrate_job,
}
use logpond.Api.Rehydrate.Back.{IsBack, run_rehydrate_job-IsBack}
use logpond.Tests.Segments.{fetched, fresh}

-- A segment with a copy in the archive and no file.
abbrev away : Segment
away = record fetched {
  id = codes "away";
  state = archived;
  local_path = none;
  s3_url = some (codes "s3://bucket/away");
  evict_after = none;
}

abbrev table : Table
table = away ∷ fetched ∷ fresh ∷ []

table-HasKeys : HasKeys table
unfolding equal
table-HasKeys = (refl, (refl, (refl, tt)))

abbrev request : RehydrateRequest
request = record {
  time_range = some (pos 0, pos 99);
  segment_id = [];
  ttl_days = 1;
  persistent = false;
}

abbrev archive : Archive
archive = record {
  retrieve = λ r. record {
    parquet_path = codes "rehydrated/" ++ r.id;
    row_count = 7;
    size_bytes = 70;
    size_compressed = 0;
    parquet_sha256 = [];
    source_names = [];
    stdout = codes "got";
    stderr = [];
    failure = none;
  };
  make_dir = true;
  file_exists = λ p. true;
  marshal = λ ns. none;
  unmarshal = λ s. none;
  clock = λ id. pos 100;
  is_cancelled = λ i. false;
}

-- The segment that was never archived is not one of them.
both_selected : select_candidates request table ≡ ok (away ∷ fetched ∷ [])
unfolding select_candidates segments_in_range order_by insert has_archive equal is_in_range
both_selected = refl

abbrev segs : List Segment
segs = away ∷ fetched ∷ []

both_back : (run_rehydrate_job archive (pos 100) (pos 50) false segs table).1 ≡ none
unfolding run_rehydrate_job each_segment one_segment append_segment_block set_evict_after
    mark_segment_rehydrated rehydrated_row equal ◌+ℤ◌
both_back = refl

-- The file that was there stays, with a new time of eviction.
calls_made :
    (run_rehydrate_job archive (pos 100) (pos 50) false segs table).0.calls
    ≡ report (record { completed = 1; total = 2; bytes_done = 0; bytes_total = 0 })
      ∷ report (record { completed = 2; total = 2; bytes_done = 0; bytes_total = 0 })
      ∷ print (codes "--- away ---" ++ (10 ∷ codes "got")) []
      ∷ []
unfolding run_rehydrate_job each_segment one_segment append_segment_block set_evict_after
    mark_segment_rehydrated rehydrated_row equal ◌+ℤ◌
calls_made = refl

day : ttl_of 5 1 ≡ pos 86400000000000
unfolding ttl_of
day = refl

run_rehydrate_job-IsBack_example :
    All
      (λ seg. Holds (IsBack (evict_at (pos 100) (pos 50) false)) (
        get_segment (run_rehydrate_job archive (pos 100) (pos 50) false segs table).0.table seg.id))
      segs
run_rehydrate_job-IsBack_example =
    run_rehydrate_job-IsBack archive (pos 100) (pos 50) false request segs table table-HasKeys
      both_selected both_back

abbrev server : RehydrateServer
server = record {
  capabilities = some (record { is_none = false; retrieve = true });
  default_ttl = 5;
  json = record {
    write_progress = λ p. codes "{}";
    read_progress = λ s. record { completed = 0; total = 0; bytes_done = 0; bytes_total = 0 };
    write_error = λ s. s;
  };
  payload_text = λ segs ttl persistent. codes "{}";
  job_id = codes "reh-1";
}

accepted_request : (handle_rehydrate server (some request) table []).0 ≡ job_started segs 400 1
unfolding handle_rehydrate select_candidates segments_in_range order_by insert has_archive equal
    is_in_range sum_bytes estimate_rehydrate_seconds add64 create insert_job
accepted_request = refl
