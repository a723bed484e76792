-- ===== src/Query/Executor/Engine.antt =====
-- internal/query/executor.go: the reads of one segment. The active segments and DuckDB are parameters.
use logpond.Base.{ℕ, Bool, List, [], ◌∷◌, Option, none, some, map, if◌then◌else◌, length}
use logpond.Base.Text.{Bytes, codes}
use logpond.Base.Int.{ℤ}
use logpond.Base.Result.{Result, ok, err}
use logpond.Catalog.Segment.{Segment, active, same_state}
use logpond.Query.Executor.Statement.{Statement, parquet_source, query_sql, count_sql, facet_sql}
use logpond.Query.Executor.Request.{ExecError, segment_failed}

-- A row as it is scanned; a NULL column is `none`.
pub record Row : Type 0 where
  pub timestamp : ℤ
  pub service : Option Bytes
  pub level : Option Bytes
  pub message : Option Bytes
  pub host : Option Bytes
  pub source : Bytes
  pub attributes : Option Bytes
  pub raw : Option Bytes

pub record ResultEvent : Type 0 where
  pub timestamp : ℤ
  pub service : Option Bytes
  pub level : Option Bytes
  pub message : Option Bytes
  pub host : Option Bytes
  pub source : Bytes
  pub attributes : Bytes
  pub raw : Bytes
  pub segment_id : Bytes

pub record FacetRow : Type 0 where
  pub value : Option Bytes
  pub count : ℕ

-- QueryActive: an error, a segment that is not open any more, or rows.
pub data ActiveRows (A : Type 0) : Type 0 where
  failed : ActiveRows A
  closed : ActiveRows A
  rows : List A → ActiveRows A

-- `has_active`: the executor has an active source. A sealed read has no result on an error.
pub record Engine : Type 0 where
  pub has_active : Bool
  pub active_events : Bytes → Statement → ActiveRows Row
  pub active_ones : Bytes → Statement → ActiveRows (Unit {0})
  pub active_facets : Bytes → Statement → ActiveRows FacetRow
  pub sealed_events : Statement → Option (List Row)
  pub sealed_ones : Statement → Option (List (Unit {0}))
  pub sealed_facets : Statement → Option (List FacetRow)
  -- Sprintf from a verb on that is neither `%s` nor `%%`, with the argument that is left
  pub other_verb : Option Bytes → Bytes → Bytes

abbrev pub is_active : Segment → Bool
is_active s = same_state s.state active

abbrev pub open_rows : {A : Type 0} → Segment → ActiveRows A → Result ExecError (List A)
open_rows s failed = err (segment_failed s.id)
open_rows s closed = ok []
open_rows s (rows rs) = ok rs

abbrev pub sealed_rows : {A : Type 0} → Segment → Option (List A) → Result ExecError (List A)
sealed_rows s none = err (segment_failed s.id)
sealed_rows s (some rs) = ok rs

abbrev pub from_path :
    {A : Type 0}
    → Segment
    → (Statement → Option (List A))
    → (Bytes → Statement)
    → Option Bytes
    → Result ExecError (List A)
from_path s sealed text none = ok []
from_path s sealed text (some path) = sealed_rows s (sealed (text (parquet_source path)))

-- The branches that querySegment, countSegment and queryFacetSegment share: `text` makes the
-- statement for a source of rows.
abbrev pub read_segment :
    {A : Type 0}
    → Bool
    → (Bytes → Statement → ActiveRows A)
    → (Statement → Option (List A))
    → (Bytes → Statement)
    → Segment
    → Result ExecError (List A)
read_segment has_active opened sealed text s =
    if is_active s
    then if has_active then open_rows s (opened s.id (text (codes "events"))) else ok []
    else from_path s sealed text s.local_path

abbrev or_text : Bytes → Option Bytes → Bytes
or_text d none = d
or_text d (some s) = s

-- scanEvents
unfoldable pub scan_event : Bytes → Row → ResultEvent
scan_event id r = record {
  timestamp = r.timestamp;
  service = r.service;
  level = r.level;
  message = r.message;
  host = r.host;
  source = r.source;
  attributes = or_text (codes "{}") r.attributes;
  raw = or_text [] r.raw;
  segment_id = id;
}

abbrev pub map_ok : {A B : Type 0} → (A → B) → Result ExecError A → Result ExecError B
map_ok f (err e) = err e
map_ok f (ok x) = ok (f x)

-- querySegment; the rows scanned are the events returned.
unfoldable pub query_segment :
    Engine → Statement → Bytes → ℕ → Segment → Result ExecError (List ResultEvent)
query_segment eng w order_by limit s = map_ok (map (scan_event s.id)) (
    read_segment eng.has_active eng.active_events eng.sealed_events
      (λ source. query_sql source w order_by limit) s)

-- countSegment
unfoldable pub count_segment : Engine → Statement → ℕ → Segment → Result ExecError ℕ
count_segment eng w limit s = map_ok length (
    read_segment eng.has_active eng.active_ones eng.sealed_ones (λ source. count_sql source w limit)
      s)

abbrev cons_value : Option Bytes → ℕ → List (Bytes × ℕ) → List (Bytes × ℕ)
cons_value none n rest = rest
cons_value (some v) n rest = (v, n) ∷ rest

abbrev present_values : List FacetRow → List (Bytes × ℕ)
present_values [] = []
present_values (r ∷ rs) = cons_value r.value r.count (present_values rs)

-- queryFacetSegment; a NULL value is left out.
unfoldable pub query_facet_segment :
    Engine → Statement → Bytes → Segment → Result ExecError (List (Bytes × ℕ))
query_facet_segment eng w field s = map_ok present_values (
    read_segment eng.has_active eng.active_facets eng.sealed_facets
      (λ source. facet_sql eng.other_verb source w field) s)
