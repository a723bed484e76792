-- ===== src/Tests/Executions.antt =====
-- Runs of internal/query/executor.go.
use logpond.Base.{
  ℕ, ◌≤◌, ◌≡◌, refl, ap, Bool, true, false, List, [], ◌∷◌, ◌++◌, some, none, arith, All, any, count,
  length, inl, inr,
}
use Prim.Native.Nat.{min}
use logpond.Base.Text.{Bytes, codes, equal, equal_fold}
use logpond.Base.Int.{ℤ, pos, ◌-ℤ◌}
use logpond.Base.Assoc.{Assoc, lookup}
use logpond.Base.Result.{ok}
use logpond.Catalog.Segment.{Segment, active}
use logpond.Catalog.Order.{IsOrdered, insert, order_by}
use logpond.Catalog.Queries.{is_in_range, segments_in_range}
use logpond.Catalog.Table.{Table}
use logpond.Query.Match.{trim_space}
use logpond.Query.Compile.{compile_search}
use logpond.Query.Executor.Statement.{
  combine_and, time_statement, query_sql, count_sql, facet_sql, parquet_source,
}
use logpond.Query.Executor.Format.{sprintf}
use logpond.Query.Executor.Statement.Bound.{IsBound}
use logpond.Query.Executor.Request.{
  Request, SortKey, FacetSpec, Codec, QueryPlan, plan_of, plan_from, check_range, check_filter,
  check_sort, clamp_limit, max_limit, filter_statement, compile_cursor, is_sortable, order_by_sql,
  facet_field_expr, keys_or_default,
}
use logpond.Query.Executor.Engine.{
  Engine, Row, ResultEvent, closed, rows, query_segment, scan_event,
}
use logpond.Query.Executor.Counting.{Counted, guard_of, count_where, count_events}
use logpond.Query.Executor.Counting.Exact.{ones, HonoursLimit, count_events-exact}
use logpond.Query.Executor.Busy.{
  acquire_segment, release_segment, is_segment_busy, idle, start, finish, is_segment_busy-Reads,
}
use logpond.Query.Executor.Facets.{
  FacetValue, or_zero, aggregate, facet_values, ranks_before, build_facet_result, compute_facets,
}
use logpond.Query.Executor.Facets.Values.{build_facet_result-top, aggregate-total, total_of}
use logpond.Query.Executor.Pages.{
  Response, compare_field, compare_events, sort_events, sorts_before, order_segments, gather, page,
  run_plan, run_query,
}
use logpond.Query.Executor.Pages.Shape.{IsFrom, run_query-page}
use logpond.Query.Executor.Sent.{plan_of-IsBound, facet_sql-plan_of, count_where-IsBound}
use logpond.Tests.Sample.{runtime}
use logpond.Tests.Segments.{old}

abbrev hot : Segment
hot = record old { id = codes "hot"; state = active; time_start = pos 5; time_end = pos 9 }

abbrev warm : Segment
warm = record old { id = codes "warm"; state = active; time_start = pos 1; time_end = pos 4 }

abbrev segments : Table
segments = hot ∷ warm ∷ []

abbrev row_at : ℕ → Row
row_at n = record {
  timestamp = pos n;
  service = none;
  level = none;
  message = none;
  host = none;
  source = codes "s";
  attributes = none;
  raw = none;
}

-- Each open segment answers with one row.
abbrev engine : Engine
engine = record {
  has_active = true;
  active_events = λ id w. rows (row_at (length id) ∷ []);
  active_ones = λ id w. rows (tt ∷ []);
  active_facets = λ id w. closed;
  sealed_events = λ w. some [];
  sealed_ones = λ w. some [];
  sealed_facets = λ w. none;
  other_verb = λ arg s. [];
}

abbrev codec : Codec
codec = record { encode = λ c. c.segment_id; decode = λ s. none }

abbrev request : ℤ → List SortKey → Request
request limit sort = record {
  from = pos 2;
  to = pos 8;
  filter = none;
  search = [];
  sort = sort;
  limit = limit;
  cursor = [];
  max_time_range = pos 100;
  facets = [];
  facet_sample_size = pos 0;
}

one_row : HonoursLimit engine (time_statement (pos 2) (pos 8)) (λ id. some 1) (λ path. 0)
one_row = record {
  open_ones = λ id n h. ap (λ k. rows (ones k)) (one n h);
  file_ones = λ path n h. ap (λ k. some (ones k)) (nought n);
}
  where
    one : (n : ℕ) → 1 ≤ n → 1 ≡ min n 1
    one n h = omega arith

    nought : (n : ℕ) → 0 ≡ min n 0
    nought n = omega arith

count_events-exact_example :
    (c : Counted) × (count_events runtime engine segments (pos 2) (request (pos 1) []) ≡ ok c)
    × (c.total ≡ 1)
    × (c.exact ≡ false)
unfolding guard_of segments_in_range is_in_range order_by insert count_where combine_and check_range
    check_filter filter_statement compile_search trim_space time_statement equal ◌-ℤ◌
count_events-exact_example =
    count_events-exact runtime engine segments (pos 2) (request (pos 1) [])
      (time_statement (pos 2) (pos 8)) (λ id. some 1) (λ path. 0) refl one_row

is_segment_busy-Reads_example :
    let m =
      release_segment (codes "a") (acquire_segment (codes "a") (acquire_segment (codes "b") [])) in
    ((k : Bytes) → is_segment_busy k m ≡ any (λ r. equal r k) (codes "b" ∷ []))
    × (codes "b" ∷ [] ≡ [] → m ≡ [])
is_segment_busy-Reads_example =
    is_segment_busy-Reads _ _
      (finish [] (codes "a") (codes "b" ∷ []) (start (codes "a") (start (codes "b") idle)) refl)

abbrev answer : Response
answer = record {
  events = scanned (codes "warm") 4 ∷ [];
  next_cursor = codes "warm";
  rows_scanned = 2;
  rows_returned = 1;
  segments_read = 2;
  facets = [];
}
  where
    scanned : Bytes → ℕ → ResultEvent
    scanned id n = record {
      timestamp = pos n;
      service = none;
      level = none;
      message = none;
      host = none;
      source = codes "s";
      attributes = codes "{}";
      raw = [];
      segment_id = id;
    }

run_query-page_example :
    (length answer.events ≤ 1)
    × (1 ≤ max_limit)
    × IsOrdered (sorts_before (keys_or_default [])) answer.events
    × All (IsFrom (segments_in_range (pos 2) (pos 8) segments)) answer.events
    × (answer.rows_returned ≡ length answer.events)
unfolding run_query run_plan plan_of clamp_limit segments_in_range is_in_range order_by insert
    combine_and check_range check_filter check_sort filter_statement compile_search trim_space
    time_statement equal ◌-ℤ◌ is_sortable compile_cursor gather order_segments equal_fold
    query_segment compute_facets page sort_events compare_events compare_field scan_event
run_query-page_example =
    run_query-page runtime codec engine segments (request (pos 1) []) answer refl

abbrev by_host : Request
by_host = request (pos 7) (record { field = codes "host"; order = codes "asc" } ∷ [])

abbrev plan_by_host : QueryPlan
plan_by_host =
    plan_from runtime by_host by_host.sort (record { sql = []; args = [] })
      (record { sql = []; args = [] }, none)

abbrev quoted_source : Bytes
quoted_source = parquet_source (codes "it's 100%")

plan_of-IsBound_example :
    IsBound (query_sql quoted_source plan_by_host.where_all (order_by_sql plan_by_host.keys) 7)
unfolding plan_of check_range check_filter check_sort filter_statement compile_cursor equal
    is_sortable ◌-ℤ◌
plan_of-IsBound_example =
    plan_of-IsBound runtime codec by_host plan_by_host refl quoted_source 7
      (inr (codes "it's 100%", refl))

facet_sql-plan_of_example :
    IsBound (facet_sql engine.other_verb quoted_source plan_by_host.base (codes "\"host\""))
unfolding plan_of check_range check_filter check_sort filter_statement compile_cursor equal
    is_sortable ◌-ℤ◌ facet_field_expr logpond.Query.Event.is_attribute
    logpond.Query.Event.is_core_column logpond.Query.Sql.replace_all combine_and time_statement
    compile_search trim_space
facet_sql-plan_of_example =
    facet_sql-plan_of runtime codec by_host plan_by_host refl engine.other_verb quoted_source
      (codes "host") (codes "\"host\"") (inr (codes "it's 100%", refl)) refl refl refl

-- A percent sign in the field is read as a verb.
formatted_twice :
    (facet_sql engine.other_verb
      (codes "events")
      (record { sql = []; args = [] })
      (codes "j('$.%s')")).sql
    ≡ codes
        "SELECT j('$.events') AS v, COUNT(*) AS c FROM %!s(MISSING) WHERE j('$.%!s(MISSING)') IS NOT NULL GROUP BY j('$.%!s(MISSING)') ORDER BY c DESC"
unfolding facet_sql sprintf equal
formatted_twice = refl

count_where-IsBound_example :
    IsBound (count_sql (codes "events") (time_statement (pos 2) (pos 8)) 3)
unfolding count_where combine_and check_range check_filter filter_statement compile_search
    trim_space time_statement equal ◌-ℤ◌
count_where-IsBound_example =
    count_where-IsBound runtime (request (pos 1) []) (time_statement (pos 2) (pos 8)) refl
      (codes "events") 3 (inl refl)

abbrev counted : Assoc ℕ
counted = (codes "a", 1) ∷ (codes "b", 3) ∷ []

abbrev two_values : FacetSpec
two_values = record { name = codes "service"; field = codes "service"; cardinality_cap = pos 1 }

build_facet_result-top_example :
    let r = build_facet_result two_values counted 1 in
    (left_out : List FacetValue) × IsOrdered ranks_before (r.values ++ left_out)
    × ((p : FacetValue → Bool) → count p (r.values ++ left_out) ≡ count p (facet_values counted))
    × (length r.values ≡ 1)
    × (r.truncated ≡ true)
build_facet_result-top_example = build_facet_result-top two_values counted 1

abbrev twice : Segment → List (Bytes × ℕ)
twice s = (s.id, 2) ∷ []

aggregate-total_example :
    (counts : Assoc ℕ) × (hits : ℕ) × (aggregate (λ s. ok (twice s)) segments [] 0
      ≡ ok (counts, hits))
    × ((v : Bytes) → or_zero (lookup v counts) ≡ total_of v twice segments)
aggregate-total_example = aggregate-total (λ s. ok (twice s)) twice segments (λ s. refl)
