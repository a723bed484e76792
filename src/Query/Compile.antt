-- ===== src/Query/Compile.antt =====
-- internal/query/compile.go: a filter tree as a SQL condition with bound arguments.
pub mod Scan
pub mod Fragments
pub mod Placeholders
use logpond.Base.{
  ℕ, ◌+◌, ◌≡◌, Bool, true, false, not, ◌&&◌, ◌||◌, List, [], ◌∷◌, ◌++◌, Option, none, some, ◌==◌,
  if◌then◌else◌,
}
use logpond.Base.Text.{Bytes, codes, equal}
use logpond.Query.Value.{
  Value, arr, Values, Runtime, Scalar, nothing, text, flag, whole, real, Normal, to_lower,
  scalar_value, to_float, bool_text, format_int,
}
use logpond.Query.Event.{is_core_column, is_attribute}
use logpond.Query.Filter.{
  Op, eq, neq, is_in, not_in, contains, starts_with, gt, lt, gte, lte, exists, unknown, Leaf, Node,
  group, leaf, Nodes, nil, cons,
}
use logpond.Query.Match.{should_lower, is_or, trim_space}
use logpond.Query.Sql.{
  Compiled, Result, array_required, checked, column_expr, compile_exists, empty_array, err,
  invalid_op, is_neq, is_not_in, lower_scalar, lowered, missing_field, no_children, null_refused,
  ok, replace_all, sql_with, unknown_field, ◌>>=◌,
}

-- compileEq, once the value is known
eq_fragment : Runtime → Leaf → Bytes → Normal → Compiled
unfolding should_lower
eq_fragment env l col v =
    if v.is_null
    then sql_with (col ++ (if is_neq l.op then codes " IS NOT NULL" else codes " IS NULL")) []
    else let fold = should_lower l in
      sql_with
        (lowered fold col
          ++ ((if is_neq l.op then codes " != " else codes " = ") ++ lowered fold (codes "?")))
        ((if fold then lower_scalar env v.value else v.value) ∷ [])

unfoldable pub compile_eq : Runtime → Leaf → Bool → Result Compiled
unfolding eq_fragment
compile_eq env l is_attr = do
  v ← checked (scalar_value env l.value)
  ok (eq_fragment env l (column_expr l.field is_attr) v)

-- The loop of compileIn: the values that are not null, and whether there was a null.
split_values : Runtime → Bool → Values → Result (List Scalar × Bool)
split_values env fold Values.nil = ok ([], false)
split_values env fold (Values.cons v vs) = do
  n ← checked (scalar_value env v)
  rest ← split_values env fold vs
  ok (
      if n.is_null
      then (rest.0, true)
      else ((if fold then lower_scalar env n.value else n.value) ∷ rest.0, rest.1))

-- strings.Join of the placeholders
placeholders : Bytes → List Scalar → Bytes
placeholders one [] = []
placeholders one (v ∷ []) = one
placeholders one (v ∷ w ∷ vs) = one ++ (codes ", " ++ placeholders one (w ∷ vs))

list_sql : Leaf → Bytes → List Scalar → Bytes
unfolding should_lower placeholders
list_sql l col [] = []
list_sql l col (v ∷ vs) =
    lowered (should_lower l) col
    ++ ((if is_not_in l.op then codes " NOT IN (" else codes " IN (")
        ++ (placeholders (lowered (should_lower l) (codes "?")) (v ∷ vs) ++ codes ")"))

null_sql : Leaf → Bytes → Bytes
null_sql l col = col ++ (if is_not_in l.op then codes " IS NOT NULL" else codes " IS NULL")

with_null : Leaf → Bytes → Bool → Bytes → Bytes
unfolding null_sql
with_null l col false sql = sql
with_null l col true [] = null_sql l col
with_null l col true (c ∷ cs) =
    codes "("
    ++ ((c ∷ cs)
        ++ ((if is_not_in l.op then codes " AND " else codes " OR ")
            ++ (null_sql l col ++ codes ")")))

in_values : Runtime → Leaf → Bytes → Value → Result Compiled
unfolding split_values list_sql with_null
in_values env l col (arr Values.nil) = err empty_array
in_values env l col (arr (Values.cons v vs)) = do
  r ← split_values env (should_lower l) (Values.cons v vs)
  ok (sql_with (with_null l col r.1 (list_sql l col r.0)) r.0)
in_values env l col _ = err array_required

unfoldable pub compile_in : Runtime → Leaf → Bool → Result Compiled
unfolding in_values
compile_in env l is_attr = in_values env l (column_expr l.field is_attr) l.value

-- fmt.Sprintf("%v", v)
abbrev sprint : Runtime → Scalar → Bytes
sprint env nothing = codes "<nil>"
sprint env (text s) = s
sprint env (flag b) = bool_text b
sprint env (whole i) = format_int i
sprint env (real x) = env.sprint_float x

-- escapeLike, on the printed value
unfoldable pub escape_like : Bytes → Bytes
escape_like s =
    replace_all b'_' (codes "\\_")
      (replace_all b'%' (codes "\\%") (replace_all b'\\' (codes "\\\\") s))

like_fragment : Runtime → Leaf → Bytes → Bytes → Normal → Result Compiled
like_fragment env l col left_wild v =
    if v.is_null
    then err null_refused
    else let fold = should_lower l in
      let pattern = left_wild ++ (escape_like (sprint env v.value) ++ codes "%") in
      ok (
        sql_with
          (lowered fold col
            ++ (codes " LIKE " ++ (lowered fold (codes "?") ++ codes " ESCAPE '\\'")))
          (text (if fold then to_lower env pattern else pattern) ∷ []))

-- compileLike; the right wildcard is always `%`
unfoldable pub compile_like : Runtime → Leaf → Bool → Bytes → Result Compiled
unfolding like_fragment
compile_like env l is_attr left_wild = do
  v ← checked (scalar_value env l.value)
  like_fragment env l (column_expr l.field is_attr) left_wild v

-- sqlRangeOp
abbrev sql_range_op : Op → Bytes
sql_range_op gt = codes ">"
sql_range_op lt = codes "<"
sql_range_op gte = codes ">="
sql_range_op lte = codes "<="
sql_range_op _ = codes "="

text_range : Op → Bytes → Scalar → Compiled
text_range op col v = sql_with (col ++ (codes " " ++ (sql_range_op op ++ codes " ?"))) (v ∷ [])

number_range : Op → Bytes → Scalar → Option ℕ → Compiled
unfolding text_range
number_range op col v none = text_range op col v
number_range op col v (some f) =
    sql_with (codes "CAST(" ++ (col ++ (codes " AS DOUBLE) " ++ (sql_range_op op ++ codes " ?"))))
      (real f ∷ [])

range_fragment : Runtime → Leaf → Bool → Bytes → Normal → Result Compiled
unfolding number_range
range_fragment env l is_attr col v =
    if v.is_null
    then err null_refused
    else ok (
        if is_attr
        then number_range l.op col v.value (to_float env v.value)
        else text_range l.op col v.value)

unfoldable pub compile_range : Runtime → Leaf → Bool → Result Compiled
unfolding range_fragment
compile_range env l is_attr = do
  v ← checked (scalar_value env l.value)
  range_fragment env l is_attr (column_expr l.field is_attr) v

compile_op : Runtime → Op → Leaf → Bool → Result Compiled
compile_op env exists l is_attr = ok (sql_with (compile_exists l.field is_attr) [])
compile_op env eq l is_attr = compile_eq env l is_attr
compile_op env neq l is_attr = compile_eq env l is_attr
compile_op env is_in l is_attr = compile_in env l is_attr
compile_op env not_in l is_attr = compile_in env l is_attr
compile_op env contains l is_attr = compile_like env l is_attr (codes "%")
compile_op env starts_with l is_attr = compile_like env l is_attr []
compile_op env (unknown s) l is_attr = err invalid_op
compile_op env _ l is_attr = compile_range env l is_attr

-- compileLeaf
unfoldable pub compile_leaf : Runtime → Leaf → Result Compiled
unfolding compile_op
compile_leaf env l =
    let is_attr = is_attribute l.field in
    if equal l.field []
    then err missing_field
    else if not is_attr && not (is_core_column l.field)
    then err unknown_field
    else compile_op env l.op l is_attr

-- One more child in front of what the later ones joined to. An empty fragment is left out.
join_child : Bytes → Compiled → Compiled → Compiled
join_child separator c rest =
    if equal c.sql []
    then sql_with rest.sql (c.args ++ rest.args)
    else if equal rest.sql []
    then sql_with (codes "(" ++ (c.sql ++ codes ")")) (c.args ++ rest.args)
    else sql_with (codes "(" ++ (c.sql ++ (codes ")" ++ (separator ++ rest.sql))))
        (c.args ++ rest.args)

negate_sql : Bool → Compiled → Compiled
negate_sql negated c =
    if negated && not (equal c.sql [])
    then sql_with (codes "NOT (" ++ (c.sql ++ codes ")")) c.args
    else c

-- compileNode
unfoldable mutual
  unfolding join_child negate_sql

  pub compile_node : Runtime → Node → Result Compiled
  compile_node env (leaf l) = compile_leaf env l
  compile_node env (group op negated nil) = err no_children
  compile_node env (group op negated (cons n ns)) = do
    c ← compile_nodes env (if is_or op then codes " OR " else codes " AND ") (cons n ns)
    ok (negate_sql negated c)

  pub compile_nodes : Runtime → Bytes → Nodes → Result Compiled
  compile_nodes env separator nil = ok (sql_with [] [])
  compile_nodes env separator (cons n ns) = do
    c ← compile_node env n
    rest ← compile_nodes env separator ns
    ok (join_child separator c rest)

-- CompileSearch
unfoldable pub compile_search : Runtime → Bytes → Compiled
compile_search env search =
    let trimmed = trim_space env search in
    let pattern = text (codes "%" ++ (to_lower env (escape_like trimmed) ++ codes "%")) in
    if equal trimmed []
    then sql_with [] []
    else sql_with (codes "(LOWER(message) LIKE ? ESCAPE '\\' OR LOWER(raw) LIKE ? ESCAPE '\\')")
        (pattern ∷ pattern ∷ [])
