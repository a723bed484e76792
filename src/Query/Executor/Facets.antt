-- ===== src/Query/Executor/Facets.antt =====
-- internal/query/executor.go: the facet values of a query.
pub mod Values
use logpond.Base.{
  ℕ, ◌+◌, Bool, true, false, not, ◌&&◌, ◌||◌, List, [], ◌∷◌, ◌++◌, Option, none, some, filter, take,
  length, if◌then◌else◌, ltb, ◌==◌,
}
use logpond.Base.Text.{Bytes, less}
use logpond.Base.Int.{ℤ, pos, negsuc, ltb_ℤ}
use logpond.Base.Assoc.{Assoc, lookup, put}
use logpond.Base.Result.{Result, ok, err, ◌>>=◌}
use logpond.Catalog.Segment.{Segment}
use logpond.Catalog.Order.{order_by}
use logpond.Query.Executor.Statement.{Statement}
use logpond.Query.Executor.Request.{ExecError, FacetSpec, facet_field_expr}
use logpond.Query.Executor.Engine.{Engine, is_active, query_facet_segment}

pub record FacetValue : Type 0 where
  pub value : Bytes
  pub count : ℕ

pub record FacetResult : Type 0 where
  pub values : List FacetValue
  pub cardinality_cap : ℕ
  pub truncated : Bool
  pub truncated_count : ℕ
  pub sample_segments : ℕ

-- An int that has a default where it is not positive.
abbrev pub positive_or : ℕ → ℤ → ℕ
positive_or d (negsuc n) = d
positive_or d (pos n) = if n == 0 then d else n

abbrev has_path : Option Bytes → Bool
has_path none = false
has_path (some p) = true

abbrev pub is_readable : Segment → Bool
is_readable s = is_active s || has_path s.local_path

abbrev pub starts_after : Segment → Segment → Bool
starts_after r s = ltb_ℤ s.time_start r.time_start

-- selectFacetSample
unfoldable pub select_facet_sample : List Segment → ℤ → List Segment
select_facet_sample segs n =
    take (positive_or 24 n) (order_by starts_after (filter is_readable segs))

abbrev pub or_zero : Option ℕ → ℕ
or_zero none = 0
or_zero (some n) = n

-- `counts[r.Value] += r.Count`, for each row
unfoldable pub add_counts : List (Bytes × ℕ) → Assoc ℕ → Assoc ℕ
add_counts [] counts = counts
add_counts ((v, n) ∷ rs) counts = add_counts rs (put v (or_zero (lookup v counts) + n) counts)

abbrev pub is_hit : List (Bytes × ℕ) → ℕ
is_hit [] = 0
is_hit (r ∷ rs) = 1

-- The loop over the sample: the counts, and the segments that gave any.
unfoldable pub aggregate :
    (Segment → Result ExecError (List (Bytes × ℕ)))
    → List Segment
    → Assoc ℕ
    → ℕ
    → Result ExecError (Assoc ℕ × ℕ)
aggregate read [] counts hits = ok (counts, hits)
aggregate read (s ∷ segs) counts hits =
    read s >>= λ rs. aggregate read segs (add_counts rs counts) (hits + is_hit rs)

abbrev pub facet_values : Assoc ℕ → List FacetValue
facet_values [] = []
facet_values ((v, n) ∷ m) = record { value = v; count = n } ∷ facet_values m

-- More often first, and then by the value.
abbrev pub ranks_before : FacetValue → FacetValue → Bool
ranks_before a b = if a.count == b.count then less a.value b.value else ltb b.count a.count

-- buildFacetResult. The map's entries come in no fixed order; here, in that of insertion.
unfoldable pub build_facet_result : FacetSpec → Assoc ℕ → ℕ → FacetResult
build_facet_result spec counts hits =
    let values = order_by ranks_before (facet_values counts) in
    let bound = positive_or 50 spec.cardinality_cap in
    let over = ltb bound (length values) in
    record {
      values = if over then take bound values else values;
      cardinality_cap = bound;
      truncated = over;
      truncated_count = if over then length values else 0;
      sample_segments = hits;
    }

-- computeFacets
unfoldable pub compute_facets :
    Engine
    → List Segment
    → Statement
    → List FacetSpec
    → Assoc FacetResult
    → Result ExecError (Assoc FacetResult)
compute_facets eng sample w [] out = ok out
compute_facets eng sample w (spec ∷ specs) out = facet_field_expr spec.field >>= λ field.
    aggregate (query_facet_segment eng w field) sample [] 0 >>= λ c.
    compute_facets eng sample w specs (put spec.name (build_facet_result spec c.0 c.1) out)
