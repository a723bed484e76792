-- ===== src/Query/Compile/Fragments.antt =====
-- internal/query/compile.go: quotes and placeholders in the SQL of one predicate.
use logpond.Base.{
  ℕ, suc, ◌+◌, refl, Bool, true, false, not, ◌&&◌, List, [], ◌∷◌, ◌++◌, Option, none, some, length,
  arith, if◌then◌else◌,
}
use logpond.Base.Text.{Bytes, codes, equal}
use logpond.Query.Value.{Value, arr, Values, Runtime, Scalar, Normal, scalar_value}
use logpond.Query.Event.{is_attribute, is_core_column}
use logpond.Query.Filter.{Op, eq, exists, unknown, is_in, not_in, neq, contains, starts_with, Leaf}
use logpond.Query.Match.{should_lower}
use logpond.Query.Sql.{
  Compiled, unsupported_value, unknown_field, Result, ok, err, sql_with, lowered, is_neq, is_not_in,
  checked, ◌>>=◌,
}
use logpond.Query.Compile.{
  eq_fragment, compile_eq, split_values, placeholders, list_sql, null_sql, with_null, in_values,
  compile_in, like_fragment, compile_like, sql_range_op, text_range, number_range, range_fragment,
  compile_range, compile_op, compile_leaf,
}
use logpond.Query.Compile.Scan.{
  Goes-append, IsClosed, IsClosed-lit, IsClosed-column_expr, IsClosed-compile_exists, recount,
  IsClosed-if, IsClosed-lowered, IsClosed-mark,
}

-- As many placeholders as arguments.
abbrev pub Fits : Compiled → Type 0
Fits c = IsClosed (length c.args) c.sql

abbrev pub AllFit : Result Compiled → Type 0
AllFit (ok c) = Fits c
AllFit (err e) = Unit

pub Fits-if : (b : Bool) (c d : Compiled) → Fits c → Fits d → Fits (if b then c else d)
Fits-if true c d h i = h
Fits-if false c d h i = i

AllFit-if : (b : Bool) (c d : Result Compiled) → AllFit c → AllFit d → AllFit (if b then c else d)
AllFit-if true c d h i = h
AllFit-if false c d h i = i

AllFit-checked :
    (v : Normal) (f : Normal → Result Compiled)
    → ((n : Normal) → AllFit (f n))
    → AllFit (checked v >>= f)
AllFit-checked v f h = go v.supported
  where
    go : (b : Bool) → AllFit ((if b then ok v else err unsupported_value) >>= f)
    go true = h v
    go false = tt

module _ (env : Runtime) (l : Leaf) where
  Fits-eq_fragment : (col : Bytes) (v : Normal) → IsClosed 0 col → Fits (eq_fragment env l col v)
  unfolding eq_fragment
  Fits-eq_fragment col v h =
      Fits-if v.is_null _ _
        (Goes-append h
          (IsClosed-if (is_neq l.op) 0 _ _ (IsClosed-lit _ refl refl) (IsClosed-lit _ refl refl)))
        (Goes-append (IsClosed-lowered _ 0 col h) (
          Goes-append
            (IsClosed-if (is_neq l.op) 0 _ _ (IsClosed-lit _ refl refl) (IsClosed-lit _ refl refl))
            (IsClosed-mark _)))

  IsClosed-placeholders :
      (fold : Bool) (vs : List Scalar)
      → IsClosed (length vs) (placeholders (lowered fold (codes "?")) vs)
  unfolding placeholders
  IsClosed-placeholders fold [] = record { mode = refl; count = refl }
  IsClosed-placeholders fold (v ∷ []) = IsClosed-mark fold
  IsClosed-placeholders fold (v ∷ w ∷ vs) =
      recount (1 + (0 + suc (length vs))) (suc (suc (length vs))) (omega arith) (
        Goes-append (IsClosed-mark fold)
          (Goes-append (IsClosed-lit (codes ", ") refl refl) (IsClosed-placeholders fold (w ∷ vs))))

  IsClosed-list_sql :
      (col : Bytes) (vs : List Scalar) → IsClosed 0 col → IsClosed (length vs) (list_sql l col vs)
  unfolding list_sql
  IsClosed-list_sql col [] h = record { mode = refl; count = refl }
  IsClosed-list_sql col (v ∷ vs) h =
      recount (0 + (0 + (suc (length vs) + 0))) (suc (length vs)) (omega arith) (
        Goes-append (IsClosed-lowered _ 0 col h) (
          Goes-append
            (IsClosed-if (is_not_in l.op) 0 _ _ (IsClosed-lit _ refl refl)
              (IsClosed-lit _ refl refl))
            (Goes-append (IsClosed-placeholders _ (v ∷ vs)) (IsClosed-lit (codes ")") refl refl))))

  IsClosed-null_sql : (col : Bytes) → IsClosed 0 col → IsClosed 0 (null_sql l col)
  unfolding null_sql
  IsClosed-null_sql col h =
      Goes-append h
        (IsClosed-if (is_not_in l.op) 0 _ _ (IsClosed-lit _ refl refl) (IsClosed-lit _ refl refl))

  IsClosed-with_null :
      (k : ℕ) (col sql : Bytes) (b : Bool)
      → IsClosed 0 col
      → IsClosed k sql
      → IsClosed k (with_null l col b sql)
  unfolding with_null
  IsClosed-with_null k col sql false h i = i
  IsClosed-with_null k col [] true h i = recount 0 k i.count (IsClosed-null_sql col h)
  IsClosed-with_null k col (c ∷ cs) true h i = recount (0 + (k + (0 + (0 + 0)))) k (omega arith) (
      Goes-append (IsClosed-lit (codes "(") refl refl) (
        Goes-append i (
          Goes-append
            (IsClosed-if (is_not_in l.op) 0 _ _ (IsClosed-lit _ refl refl)
              (IsClosed-lit _ refl refl))
            (Goes-append (IsClosed-null_sql col h) (IsClosed-lit (codes ")") refl refl)))))

  -- The text behind `split_values`.
  in_fragment : Bytes → Result (List Scalar × Bool) → Result Compiled
  in_fragment col r = r >>= λ x. ok (sql_with (with_null l col x.1 (list_sql l col x.0)) x.0)

  AllFit-in_fragment :
      (col : Bytes) (r : Result (List Scalar × Bool)) → IsClosed 0 col → AllFit (in_fragment col r)
  unfolding in_fragment
  AllFit-in_fragment col (ok (vs, has_null)) h =
      IsClosed-with_null (length vs) col (list_sql l col vs) has_null h (IsClosed-list_sql col vs h)
  AllFit-in_fragment col (err e) h = tt

  AllFit-in_values : (col : Bytes) (v : Value) → IsClosed 0 col → AllFit (in_values env l col v)
  unfolding in_values in_fragment
  AllFit-in_values col (arr Values.nil) h = tt
  AllFit-in_values col (arr (Values.cons v vs)) h =
      AllFit-in_fragment col (split_values env (should_lower l) (Values.cons v vs)) h
  AllFit-in_values col _ h = tt

  AllFit-like_fragment :
      (col wild : Bytes) (v : Normal) → IsClosed 0 col → AllFit (like_fragment env l col wild v)
  unfolding like_fragment
  AllFit-like_fragment col wild v h = AllFit-if v.is_null _ _ tt (
      Goes-append (IsClosed-lowered _ 0 col h) (
        Goes-append (IsClosed-lit (codes " LIKE ") refl refl)
          (Goes-append (IsClosed-mark _) (IsClosed-lit (codes " ESCAPE '\\'") refl refl))))

  IsClosed-sql_range_op : (op : Op) → IsClosed 0 (sql_range_op op)
  IsClosed-sql_range_op eq = IsClosed-lit _ refl refl
  IsClosed-sql_range_op _ = IsClosed-lit _ refl refl

  IsClosed-range :
      (op : Op) (col : Bytes)
      → IsClosed 0 col
      → IsClosed 1 (col ++ (codes " " ++ (sql_range_op op ++ codes " ?")))
  IsClosed-range op col h = Goes-append h (
      Goes-append (IsClosed-lit (codes " ") refl refl)
        (Goes-append (IsClosed-sql_range_op op) (record { mode = refl; count = refl })))

  Fits-number_range :
      (op : Op) (col : Bytes) (v : Scalar) (f : Option ℕ)
      → IsClosed 0 col
      → Fits (number_range op col v f)
  unfolding number_range
  Fits-number_range op col v none h = IsClosed-range op col h
  Fits-number_range op col v (some f) h = Goes-append (IsClosed-lit (codes "CAST(") refl refl) (
      Goes-append h (
        Goes-append (IsClosed-lit (codes " AS DOUBLE) ") refl refl)
          (Goes-append (IsClosed-sql_range_op op) (record { mode = refl; count = refl }))))

  AllFit-range_fragment :
      (is_attr : Bool) (col : Bytes) (v : Normal)
      → IsClosed 0 col
      → AllFit (range_fragment env l is_attr col v)
  unfolding range_fragment text_range
  AllFit-range_fragment is_attr col v h =
      AllFit-if v.is_null _ _ tt
        (Fits-if is_attr _ _ (Fits-number_range l.op col v.value _ h) (IsClosed-range l.op col h))

  AllFit-compile_op : (op : Op) (is_attr : Bool) → AllFit (compile_op env op l is_attr)
  unfolding compile_op compile_eq compile_in compile_like compile_range
  AllFit-compile_op exists a = IsClosed-compile_exists l.field a
  AllFit-compile_op eq a =
      AllFit-checked (scalar_value env l.value) _
        (λ n. Fits-eq_fragment _ n (IsClosed-column_expr l.field a))
  AllFit-compile_op neq a =
      AllFit-checked (scalar_value env l.value) _
        (λ n. Fits-eq_fragment _ n (IsClosed-column_expr l.field a))
  AllFit-compile_op is_in a = AllFit-in_values _ l.value (IsClosed-column_expr l.field a)
  AllFit-compile_op not_in a = AllFit-in_values _ l.value (IsClosed-column_expr l.field a)
  AllFit-compile_op contains a =
      AllFit-checked (scalar_value env l.value) _
        (λ n. AllFit-like_fragment _ (codes "%") n (IsClosed-column_expr l.field a))
  AllFit-compile_op starts_with a =
      AllFit-checked (scalar_value env l.value) _
        (λ n. AllFit-like_fragment _ [] n (IsClosed-column_expr l.field a))
  AllFit-compile_op (unknown s) a = tt
  AllFit-compile_op _ a =
      AllFit-checked (scalar_value env l.value) _
        (λ n. AllFit-range_fragment a _ n (IsClosed-column_expr l.field a))

  pub AllFit-compile_leaf : AllFit (compile_leaf env l)
  unfolding compile_leaf
  AllFit-compile_leaf = AllFit-if (equal l.field []) _ _ tt (
      AllFit-if (not (is_attribute l.field) && not (is_core_column l.field)) (err unknown_field) _
        tt (AllFit-compile_op l.op (is_attribute l.field)))
