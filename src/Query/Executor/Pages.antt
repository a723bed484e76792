-- ===== src/Query/Executor/Pages.antt =====
-- internal/query/executor.go: Run, and the order of its events.
pub mod Order
pub mod Shape
use Prim.Native.Nat.{Ordering}
use Prim.Native.Nat.Ordering.{eq}
use logpond.Base.{
  ℕ, ◌+◌, ◌-◌, Bool, true, false, not, ◌&&◌, List, [], ◌∷◌, ◌++◌, Option, none, some, any, take,
  drop, length, if◌then◌else◌, ltb, leb, zero, suc,
}
use logpond.Base.Text.{Bytes, codes, equal}
use logpond.Base.Int.{ℤ}
use logpond.Base.Assoc.{Assoc}
use logpond.Base.Compare.{flip, is_lt, first, compare_ints, compare_bytes}
use logpond.Base.Result.{Result, ok, err, ◌>>=◌}
use logpond.Catalog.Segment.{Segment}
use logpond.Catalog.Order.{order_by}
use logpond.Catalog.Table.{Table, has_id}
use logpond.Catalog.Queries.{starts_later, starts_earlier, segments_in_range}
use logpond.Query.Value.{Runtime}
use logpond.Query.Executor.Statement.{Statement}
use logpond.Query.Executor.Request.{
  Request, ExecError, cursor_invalidated, SortKey, is_desc, FacetSpec, Codec, Cursor, QueryPlan,
  plan_of, order_by_sql,
}
use logpond.Query.Executor.Engine.{Engine, ResultEvent, query_segment}
use logpond.Query.Executor.Facets.{FacetResult, select_facet_sample, compute_facets}

-- `.String` of a sql.NullString
abbrev pub string_of : Option Bytes → Bytes
string_of none = []
string_of (some s) = s

-- compareField
unfoldable pub compare_field : Bytes → ResultEvent → ResultEvent → Ordering
compare_field field a b =
    if equal field (codes "timestamp")
    then compare_ints a.timestamp b.timestamp
    else if equal field (codes "service")
    then compare_bytes (string_of a.service) (string_of b.service)
    else if equal field (codes "level")
    then compare_bytes (string_of a.level) (string_of b.level)
    else if equal field (codes "host")
    then compare_bytes (string_of a.host) (string_of b.host)
    else if equal field (codes "source")
    then compare_bytes a.source b.source
    else eq

abbrev pub directed : Bool → Ordering → Ordering
directed desc o = if desc then flip o else o

-- compareEvents
unfoldable pub compare_events : List SortKey → ResultEvent → ResultEvent → Ordering
compare_events [] a b = eq
compare_events (k ∷ ks) a b =
    first (directed (is_desc k) (compare_field k.field a b)) (compare_events ks a b)

abbrev pub sorts_before : List SortKey → ResultEvent → ResultEvent → Bool
sorts_before ks a b = is_lt (compare_events ks a b)

-- sortEvents
unfoldable pub sort_events : List SortKey → List ResultEvent → List ResultEvent
sort_events ks evs = order_by (sorts_before ks) evs

abbrev pub segment_before : List SortKey → Segment → Segment → Bool
segment_before [] r s = false
segment_before (k ∷ ks) r s =
    if not (equal k.field (codes "timestamp"))
    then false
    else if is_desc k
    then starts_later r s
    else starts_earlier r s

-- orderSegments
unfoldable pub order_segments : List SortKey → List Segment → List Segment
order_segments ks segs = order_by (segment_before ks) segs

pub record Gathered : Type 0 where
  pub events : List ResultEvent
  pub scanned : ℕ
  pub touched : ℕ

abbrev hit : List ResultEvent → ℕ
hit [] = 0
hit (e ∷ es) = 1

abbrev pub add_batch : List ResultEvent → Gathered → Gathered
add_batch evs g = record {
  events = g.events ++ evs;
  scanned = g.scanned + length evs;
  touched = g.touched + hit evs;
}

-- The loop of Run over the segments; `read` asks a segment for some events.
unfoldable pub gather :
    (ℕ → Segment → Result ExecError (List ResultEvent))
    → ℕ
    → List Segment
    → Gathered
    → Result ExecError Gathered
gather read needed [] g = ok g
gather read needed (s ∷ segs) g =
    if leb needed (length g.events)
    then ok g
    else read (needed - length g.events) s >>= λ evs. gather read needed segs (add_batch evs g)

-- `evs[i]`
abbrev pub event_at : ℕ → List ResultEvent → Option ResultEvent
event_at i [] = none
event_at zero (e ∷ es) = some e
event_at (suc i) (e ∷ es) = event_at i es

abbrev cursor_after : Codec → Option ResultEvent → Bytes
cursor_after codec none = []
cursor_after codec (some e) =
    codec.encode (record { timestamp = e.timestamp; segment_id = e.segment_id })

-- The response; durations are left out.
pub record Response : Type 0 where
  pub events : List ResultEvent
  pub next_cursor : Bytes
  pub rows_scanned : ℕ
  pub rows_returned : ℕ
  pub segments_read : ℕ
  pub facets : Assoc FacetResult

-- From the gathered events to the page.
unfoldable pub page : Codec → List SortKey → ℕ → Gathered → Response
page codec ks limit g =
    let sorted = sort_events ks g.events in
    let over = ltb limit (length sorted) in
    let events = if over then take limit sorted else sorted in
    record {
      events = events;
      next_cursor = if over then cursor_after codec (event_at (limit - 1) sorted) else [];
      rows_scanned = g.scanned;
      rows_returned = length events;
      segments_read = g.touched;
      facets = [];
    }

abbrev pub no_events : Gathered
no_events = record { events = []; scanned = 0; touched = 0 }

abbrev pub cursor_known : Option Cursor → List Segment → Bool
cursor_known none segs = true
cursor_known (some c) segs = any (has_id c.segment_id) segs

-- Run, behind the compilation of the request; no facets are asked for by an empty list.
unfoldable pub run_plan :
    Engine → Codec → Request → QueryPlan → List Segment → Result ExecError Response
run_plan eng codec r p segs =
    if not (cursor_known p.cursor segs)
    then err cursor_invalidated
    else gather (λ n. query_segment eng p.where_all (order_by_sql p.keys) n) (p.limit + 1)
        (order_segments p.keys segs) no_events
      >>= λ g.
          compute_facets eng (select_facet_sample (order_segments p.keys segs) r.facet_sample_size)
            p.base r.facets []
          >>= λ facets. ok (record (page codec p.keys p.limit g) { facets = facets })

-- Run
unfoldable pub run_query : Runtime → Codec → Engine → Table → Request → Result ExecError Response
run_query env codec eng t r =
    plan_of env codec r >>= λ p. run_plan eng codec r p (segments_in_range r.from r.to t)
