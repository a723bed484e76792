-- ===== src/Query/Executor/Counting.antt =====
-- internal/query/executor.go: Count.
pub mod Exact
use logpond.Base.{ℕ, ◌+◌, ◌-◌, Bool, true, false, List, [], ◌∷◌, if◌then◌else◌, ltb, leb, ◌==◌}
use logpond.Base.Int.{ℤ, pos, negsuc}
use logpond.Base.Result.{Result, ok, err, ◌>>=◌}
use logpond.Catalog.Segment.{Segment}
use logpond.Catalog.Table.{Table}
use logpond.Catalog.Queries.{segments_in_range}
use logpond.Query.Value.{Runtime}
use logpond.Query.Executor.Statement.{Statement, combine_and}
use logpond.Query.Executor.Request.{
  Request, ExecError, check_range, check_filter, filter_statement, base_parts,
}
use logpond.Query.Executor.Engine.{Engine, count_segment}

-- (count, exact, segmentsRead); the duration is left out.
pub record Counted : Type 0 where
  pub total : ℕ
  pub exact : Bool
  pub segments_read : ℕ

abbrev or_guard : ℕ → ℕ
or_guard n = if n == 0 then 10001 else n

-- A limitGuard that is not positive is 10001.
unfoldable pub guard_of : ℤ → ℕ
guard_of (negsuc n) = 10001
guard_of (pos n) = or_guard n

-- The loop over the segments: what is counted, and the segments that hold any of it.
unfoldable pub count_loop :
    (ℕ → Segment → Result ExecError ℕ) → ℕ → List Segment → ℕ → ℕ → Result ExecError (ℕ × ℕ)
count_loop counts guard [] total touched = ok (total, touched)
count_loop counts guard (s ∷ segs) total touched =
    if leb guard total
    then ok (total, touched)
    else counts (guard - total) s >>= λ n.
        count_loop counts guard segs (total + n) (if ltb 0 n then touched + 1 else touched)

abbrev pub concluded : ℕ → ℕ × ℕ → Counted
concluded guard (total, touched) =
    if ltb total guard
    then record { total = total; exact = true; segments_read = touched }
    else record { total = guard - 1; exact = false; segments_read = touched }

-- The WHERE of Count.
unfoldable pub count_where : Runtime → Request → Result ExecError Statement
count_where env r = do
  _ ← check_range r
  _ ← check_filter r.filter
  f ← filter_statement env r.filter
  ok (combine_and (base_parts env r f))

-- Count
unfoldable pub count_events : Runtime → Engine → Table → ℤ → Request → Result ExecError Counted
count_events env eng t limit_guard r = do
  w ← count_where env r
  c ← count_loop (count_segment eng w) (guard_of limit_guard) (segments_in_range r.from r.to t) 0 0
  ok (concluded (guard_of limit_guard) c)
