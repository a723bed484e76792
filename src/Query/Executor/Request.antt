-- ===== src/Query/Executor/Request.antt =====
-- internal/query/executor.go: the request, its checks, and what Run and Count compile of it.
pub mod Planned
use logpond.Base.{
  ℕ, Bool, true, false, not, ◌&&◌, ◌||◌, List, [], ◌∷◌, ◌++◌, Option, none, some, all, map, any,
  if◌then◌else◌, ltb, ◌==◌,
}
use logpond.Base.Text.{Bytes, codes, equal, equal_fold, has_prefix}
use logpond.Base.Int.{ℤ, pos, negsuc, ◌-ℤ◌, ltb_ℤ}
use logpond.Base.Result.{Result, ok, err, ◌>>=◌}
use logpond.Catalog.Segment.{Segment}
use logpond.Query.Value.{Runtime, text}
use logpond.Query.Event.{attribute_prefix, attribute_path, is_attribute, is_core_column}
use logpond.Query.Filter.{Node, FilterError, validate, is_filter_too_deep}
use logpond.Query.Sql
use logpond.Query.Sql.{Compiled, CompileError, sql_with, quote_ident, escape_single_quotes}
use logpond.Query.Compile.{compile_node, compile_search}
use logpond.Query.Executor.Statement.{
  Arg, scalar, time, Statement, lifted, no_statement, combine_and, time_statement,
}

abbrev pub default_limit : ℕ
default_limit = 100

abbrev pub max_limit : ℕ
max_limit = 1000

pub record SortKey : Type 0 where
  pub field : Bytes
  pub order : Bytes

pub record FacetSpec : Type 0 where
  pub name : Bytes
  pub field : Bytes
  pub cardinality_cap : ℤ

-- Times and durations in nanoseconds.
pub record Request : Type 0 where
  pub from : ℤ
  pub to : ℤ
  pub filter : Option Node
  pub search : Bytes
  pub sort : List SortKey
  pub limit : ℤ
  pub cursor : Bytes
  pub max_time_range : ℤ
  pub facets : List FacetSpec
  pub facet_sample_size : ℤ

pub data ExecError : Type 0 where
  invalid_time_range : ExecError
  time_range_too_large : ExecError
  filter_too_deep : FilterError → ExecError
  invalid_filter : FilterError → ExecError
  uncompiled_filter : CompileError → ExecError
  invalid_sort : ExecError
  cursor_invalidated : ExecError
  segment_failed : Bytes → ExecError
  unknown_facet_field : Bytes → ExecError

-- cursorState
pub record Cursor : Type 0 where
  pub timestamp : ℤ
  pub segment_id : Bytes

-- JSON inside base64, of a cursor.
pub record Codec : Type 0 where
  pub encode : Cursor → Bytes
  pub decode : Bytes → Option Cursor

-- time.Time.Sub saturates at the largest Duration.
abbrev pub duration_between : ℤ → ℤ → ℤ
duration_between to from =
    let d = to -ℤ from in if ltb_ℤ (pos 9223372036854775807) d then pos 9223372036854775807 else d

-- The checks of the time range.
unfoldable pub check_range : Request → Result ExecError (Unit {0})
check_range r =
    if not (ltb_ℤ r.from r.to)
    then err invalid_time_range
    else if ltb_ℤ (pos 0) r.max_time_range && ltb_ℤ r.max_time_range (duration_between r.to r.from)
    then err time_range_too_large
    else ok tt

abbrev filter_error : FilterError → ExecError
filter_error e = if is_filter_too_deep e then filter_too_deep e else invalid_filter e

abbrev valid_or : Option FilterError → Result ExecError (Unit {0})
valid_or none = ok tt
valid_or (some e) = err (filter_error e)

-- The call of Validate.
unfoldable pub check_filter : Option Node → Result ExecError (Unit {0})
check_filter none = ok tt
check_filter (some n) = valid_or (validate n)

-- SortableFields
unfoldable pub is_sortable : Bytes → Bool
is_sortable f =
    equal f (codes "timestamp")
    || equal f (codes "service")
    || equal f (codes "level")
    || equal f (codes "host")
    || equal f (codes "source")

abbrev pub valid_key : SortKey → Bool
valid_key k = is_sortable k.field && (equal k.order (codes "asc") || equal k.order (codes "desc"))

abbrev pub newest_first : SortKey
newest_first = record { field = codes "timestamp"; order = codes "desc" }

abbrev pub keys_or_default : List SortKey → List SortKey
keys_or_default [] = newest_first ∷ []
keys_or_default (k ∷ ks) = k ∷ ks

-- The sort keys, or the error of the first that is not valid.
unfoldable pub check_sort : List SortKey → Result ExecError (List SortKey)
check_sort ks =
    if all valid_key (keys_or_default ks) then ok (keys_or_default ks) else err invalid_sort

abbrev at_most : ℕ → ℕ
at_most n = if ltb max_limit n then max_limit else n

-- The limit: at least 1, at most MaxLimit.
unfoldable pub clamp_limit : ℤ → ℕ
clamp_limit (negsuc n) = default_limit
clamp_limit (pos n) = at_most (if n == 0 then default_limit else n)

abbrev pub compiled_or : Sql.Result Compiled → Result ExecError Statement
compiled_or (Sql.ok c) = ok (lifted c)
compiled_or (Sql.err e) = err (uncompiled_filter e)

-- The call of Compile.
unfoldable pub filter_statement : Runtime → Option Node → Result ExecError Statement
filter_statement env none = ok no_statement
filter_statement env (some n) = compiled_or (compile_node env n)

abbrev pub is_desc : SortKey → Bool
is_desc k = equal_fold k.order (codes "desc")

abbrev cursor_args : Cursor → List Arg
cursor_args c =
    time c.timestamp
    ∷ time c.timestamp
    ∷ scalar (text c.segment_id)
    ∷ scalar (text c.segment_id)
    ∷ []

-- The fragment that a cursor adds to the first sort key.
unfoldable pub cursor_statement : Cursor → List SortKey → Statement
cursor_statement c [] = no_statement
cursor_statement c (k ∷ ks) =
    if not (equal k.field (codes "timestamp"))
    then no_statement
    else if is_desc k
    then record {
      sql = codes "(\"timestamp\" < ? OR (\"timestamp\" = ? AND ? > ?))";
      args = cursor_args c;
    }
    else record {
      sql = codes "(\"timestamp\" > ? OR (\"timestamp\" = ? AND ? > ?))";
      args = cursor_args c;
    }

abbrev pub cursor_or : Option Cursor → List SortKey → Result ExecError (Statement × Option Cursor)
cursor_or none ks = err cursor_invalidated
cursor_or (some c) ks = ok (cursor_statement c ks, some c)

-- compileCursor
unfoldable pub compile_cursor :
    Codec → Bytes → List SortKey → Result ExecError (Statement × Option Cursor)
compile_cursor codec token ks =
    if equal token [] then ok (no_statement, none) else cursor_or (codec.decode token) ks

abbrev pub direction : SortKey → Bytes
direction k = if is_desc k then codes "DESC" else codes "ASC"

abbrev pub order_part : SortKey → Bytes
order_part k = quote_ident k.field ++ b' ' ∷ direction k

-- orderBySQL
unfoldable pub order_by_sql : List SortKey → Bytes
order_by_sql [] = []
order_by_sql (k ∷ []) = order_part k
order_by_sql (k ∷ l ∷ ks) = order_part k ++ (codes ", " ++ order_by_sql (l ∷ ks))

-- facetFieldExpr
unfoldable pub facet_field_expr : Bytes → Result ExecError Bytes
facet_field_expr field =
    if is_attribute field
    then ok (
        codes "json_extract_string(attributes, '$."
        ++ (escape_single_quotes (attribute_path field) ++ codes "')"))
    else if is_core_column field
    then ok (quote_ident field)
    else err (unknown_facet_field field)

-- What Run asks of the segments: the WHERE with and without the cursor, the sort keys, the page size.
pub record QueryPlan : Type 0 where
  pub keys : List SortKey
  pub limit : ℕ
  pub base : Statement
  pub where_all : Statement
  pub cursor : Option Cursor

abbrev pub base_parts : Runtime → Request → Statement → List Statement
base_parts env r f = time_statement r.from r.to ∷ f ∷ lifted (compile_search env r.search) ∷ []

abbrev pub plan_from :
    Runtime → Request → List SortKey → Statement → Statement × Option Cursor → QueryPlan
plan_from env r keys f (c, cursor) = record {
  keys = keys;
  limit = clamp_limit r.limit;
  base = combine_and (base_parts env r f);
  where_all = combine_and (base_parts env r f ++ c ∷ []);
  cursor = cursor;
}

-- The part of Run before the catalog is read.
unfoldable pub plan_of : Runtime → Codec → Request → Result ExecError QueryPlan
plan_of env codec r = do
  _ ← check_range r
  _ ← check_filter r.filter
  keys ← check_sort r.sort
  f ← filter_statement env r.filter
  c ← compile_cursor codec r.cursor keys
  ok (plan_from env r keys f c)
