-- ===== src/Query/Executor/Counting/Exact.antt =====
-- internal/query/executor.go: what Count returns, against the rows that match.
use Prim.Native.Nat.{min}
use logpond.Base.{
  ℕ, zero, suc, ◌+◌, ◌-◌, ◌≤◌, ◌≡◌, refl, ap, ◌∙◌, List, [], ◌∷◌, Option, none, some, arith,
  if◌then◌else◌, ltb, leb, Bool-cases, inl, inr, length, leb→le,
}
use logpond.Base.Text.{Bytes, codes}
use logpond.Base.Int.{ℤ, pos, negsuc}
use logpond.Base.Result.{Result, ok}
use logpond.Catalog.Segment.{Segment}
use logpond.Catalog.Table.{Table}
use logpond.Catalog.Queries.{segments_in_range}
use logpond.Query.Value.{Runtime}
use logpond.Query.Executor.Statement.{Statement, count_sql, parquet_source}
use logpond.Query.Executor.Request.{Request, ExecError}
use logpond.Query.Executor.Engine.{
  Engine, ActiveRows, closed, rows, is_active, count_segment, map_ok, open_rows, sealed_rows,
  from_path,
}
use logpond.Query.Executor.Counting.{
  Counted, guard_of, count_loop, concluded, count_where, count_events,
}

abbrev pub ones : ℕ → List (Unit {0})
ones zero = []
ones (suc n) = tt ∷ ones n

length-ones : (n : ℕ) → length (ones n) ≡ n
length-ones zero = refl
length-ones (suc n) = ap suc (length-ones n)

abbrev pub answer : ℕ → Option ℕ → ActiveRows (Unit {0})
answer n none = closed
answer n (some held) = rows (ones (min n held))

-- Reads that do not fail and honour LIMIT: `held` is how many rows of an open segment match, `stored`
-- how many of a file.
pub record HonoursLimit (eng : Engine) (w : Statement) (held : Bytes → Option ℕ)
    (stored : Bytes → ℕ) : Type 0 where
  pub open_ones :
      (id : Bytes) (n : ℕ)
      → 1 ≤ n
      → eng.active_ones id (count_sql (codes "events") w n) ≡ answer n (held id)
  pub file_ones :
      (path : Bytes) (n : ℕ)
      → 1 ≤ n
      → eng.sealed_ones (count_sql (parquet_source path) w n) ≡ some (ones (min n (stored path)))

abbrev or_zero : Option ℕ → ℕ
or_zero none = 0
or_zero (some n) = n

abbrev on_disk : (Bytes → ℕ) → Option Bytes → ℕ
on_disk stored none = 0
on_disk stored (some path) = stored path

-- The matching rows of a segment that a query can reach.
abbrev pub matching : Engine → (Bytes → Option ℕ) → (Bytes → ℕ) → Segment → ℕ
matching eng held stored s =
    if is_active s
    then if eng.has_active then or_zero (held s.id) else 0
    else on_disk stored s.local_path

abbrev pub sum_of : (Segment → ℕ) → List Segment → ℕ
sum_of m [] = 0
sum_of m (s ∷ segs) = m s + sum_of m segs

module _ (eng : Engine) (w : Statement) (held : Bytes → Option ℕ) (stored : Bytes → ℕ)
    (honours : HonoursLimit eng w held stored) where
  count_segment-matching :
      (n : ℕ) (s : Segment)
      → 1 ≤ n
      → count_segment eng w n s ≡ ok (min n (matching eng held stored s))
  unfolding count_segment
  count_segment-matching n s some_left = elim (Bool-cases (is_active s)) [
    | inl e ↦ elim (Bool-cases eng.has_active) [
      | inl h ↦ rw (e, h, honours.open_ones s.id n some_left) (opened (held s.id))
      | inr h ↦ rw (e, h) (ap ok (omega arith))
    ]
    | inr e ↦ rw e (filed s.local_path)
  ]
    where
      opened : (o : Option ℕ) → map_ok length (open_rows s (answer n o)) ≡ ok (min n (or_zero o))
      opened none = ap ok (omega arith)
      opened (some k) = ap ok (length-ones (min n k))

      filed :
          (p : Option Bytes)
          → map_ok length (from_path s eng.sealed_ones (λ source. count_sql source w n) p)
            ≡ ok (min n (on_disk stored p))
      filed none = ap ok (omega arith)
      filed (some path) =
          ap (λ o. map_ok length (sealed_rows s o)) (honours.file_ones path n some_left)
          ∙ ap ok (length-ones (min n (stored path)))

count_loop-sum :
    (counts : ℕ → Segment → Result ExecError ℕ) (m : Segment → ℕ)
    → ((n : ℕ) (s : Segment) → 1 ≤ n → counts n s ≡ ok (min n (m s)))
    → (guard : ℕ) (segs : List Segment) (total touched : ℕ) → total ≤ guard
    → (touched' : ℕ) × (count_loop counts guard segs total touched
        ≡ ok (min guard (total + sum_of m segs), touched'))
unfolding count_loop
count_loop-sum counts m k guard [] total touched h =
    (touched, ap (λ n. ok (n, touched)) (omega arith))
count_loop-sum counts m k guard (s ∷ segs) total touched h = elim (Bool-cases (leb guard total)) [
  | inl e ↦ (touched, rw e (ap (λ n. ok (n, touched)) (omega (arith, leb→le guard total e))))
  | inr e ↦
      let n = min (guard - total) (m s) in
      let next : ℕ = if ltb 0 n then touched + 1 else touched in
      let (touched', p) = count_loop-sum counts m k guard segs (total + n) next (omega arith) in
      (
        touched',
        rw (e, k (guard - total) s (ground (arith, e)))
            (p ∙ ap (λ x. ok (x, touched')) (omega arith)),
      )
]

guard_of-positive : (g : ℤ) → 1 ≤ guard_of g
unfolding guard_of
guard_of-positive (negsuc n) = omega arith
guard_of-positive (pos n) = ground arith

concluded-min :
    (guard sum touched : ℕ)
    → 1 ≤ guard
    → let c = concluded guard (min guard sum, touched) in
      (c.total ≡ min sum (guard - 1)) × (c.exact ≡ ltb sum guard)
concluded-min guard sum touched h = ground arith

-- When the request is accepted and no read fails, Count returns a result: the number of the matching
-- rows that it can read in the segments that overlap the time range, if that is below the guard, and it
-- is marked exact; and otherwise one less than the guard, and it is not. It can read none in a segment
-- without a local file, none in an active segment that the process does not have open, and none in an
-- active segment if the executor has no active source: the rows there are counted as 0, and the result
-- is still marked exact.
pub count_events-exact :
    (env : Runtime) (eng : Engine) (t : Table) (limit_guard : ℤ) (r : Request) (w : Statement)
    (held : Bytes → Option ℕ) (stored : Bytes → ℕ)
    → count_where env r ≡ ok w
    → HonoursLimit eng w held stored
    → let guard = guard_of limit_guard in
      let sum = sum_of (matching eng held stored) (segments_in_range r.from r.to t) in
      (c : Counted) × (count_events env eng t limit_guard r ≡ ok c)
      × (c.total ≡ min sum (guard - 1))
      × (c.exact ≡ ltb sum guard)
unfolding count_events
count_events-exact env eng t limit_guard r w held stored accepted honours =
    let guard = guard_of limit_guard in
    let m = matching eng held stored in
    let segs = segments_in_range r.from r.to t in
    let (touched, p) =
      count_loop-sum (count_segment eng w) m (count_segment-matching eng w held stored honours)
        guard segs 0 0 (omega arith) in
    let same : min guard (0 + sum_of m segs) ≡ min guard (sum_of m segs) = omega arith in
    let (total, exact) =
      concluded-min guard (sum_of m segs) touched (guard_of-positive limit_guard) in
    (
      concluded guard (min guard (sum_of m segs), touched),
      rw (accepted, p, same) refl,
      total,
      exact,
    )
