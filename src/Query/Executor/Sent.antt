-- ===== src/Query/Executor/Sent.antt =====
-- internal/query/executor.go: every statement that Run and Count send to a segment.
use logpond.Base.{
  false, ℕ, ◌≡◌, refl, sym, subst, true, List, [], ◌∷◌, ◌++◌, Option, some, none, All, All-append,
  Bool-cases, inl, inr,
}
use logpond.Base.Text.{Bytes, codes, equal}
use logpond.Base.Result.{Result, ok, err, bind-ok, ok-injective}
use logpond.Query.Value.{Runtime}
use logpond.Query.Event.{is_attribute, is_core_column}
use logpond.Query.Filter.{Node}
use logpond.Query.Match.{trim_space}
use logpond.Query.Sql
use logpond.Query.Sql.{Compiled, quote_ident, column_expr}
use logpond.Query.Compile.{compile_node, compile_search}
use logpond.Query.Compile.Scan.{
  IsClosed, IsClosed-lit, IsClosed-quote_ident, IsClosed-column_expr, IsClosed-if, Goes-append,
}
use logpond.Query.Compile.Fragments.{AllFit, Fits-if}
use logpond.Query.Compile.Placeholders.{compile_node-AllFit}
use logpond.Query.Executor.Format.{has_percent}
use logpond.Query.Executor.Statement.{Statement, lifted, query_sql, count_sql, facet_sql}
use logpond.Query.Executor.Statement.Bound.{
  IsBound, IsSource, lifted-IsBound, no_statement-IsBound, combine_and-IsBound,
  time_statement-IsBound, query_sql-IsBound, count_sql-IsBound, facet_sql-IsBound,
}
use logpond.Query.Executor.Request.{
  Request, ExecError, SortKey, Codec, Cursor, QueryPlan, plan_of, check_range, check_filter,
  filter_statement, compile_cursor, cursor_statement, cursor_or, keys_or_default, order_by_sql,
  order_part, is_desc, facet_field_expr, base_parts, compiled_or,
}
use logpond.Query.Executor.Request.Planned.{plan_of-Planned}
use logpond.Query.Executor.Counting.{count_where}

filter_statement-IsBound :
    (env : Runtime) (n : Option Node) {f : Statement} → filter_statement env n ≡ ok f → IsBound f
unfolding filter_statement
filter_statement-IsBound env none h = subst IsBound (ok-injective h) no_statement-IsBound
filter_statement-IsBound env (some n) {f = f} h =
    compiled (compile_node env n) (compile_node-AllFit env n) h
  where
    compiled : (r : Sql.Result Compiled) → AllFit r → compiled_or r ≡ ok f → IsBound f
    compiled (Sql.ok c) fits e = subst IsBound (ok-injective e) (lifted-IsBound c fits)
    compiled (Sql.err x) fits e = absurd (cc)

compile_search-IsBound : (env : Runtime) (s : Bytes) → IsBound (lifted (compile_search env s))
unfolding compile_search
compile_search-IsBound env s = lifted-IsBound (compile_search env s) (
    Fits-if (equal (trim_space env s) []) _ _ (record { mode = refl; count = refl })
      (record { mode = refl; count = refl }))

cursor_statement-IsBound : (c : Cursor) (ks : List SortKey) → IsBound (cursor_statement c ks)
unfolding cursor_statement
cursor_statement-IsBound c [] = no_statement-IsBound
cursor_statement-IsBound c (k ∷ ks) = elim (Bool-cases (equal k.field (codes "timestamp"))) [
  | inr e ↦ rw e no_statement-IsBound
  | inl e ↦ elim (Bool-cases (is_desc k)) [
    | inl d ↦ rw (e, d) (record { mode = refl; count = refl })
    | inr d ↦ rw (e, d) (record { mode = refl; count = refl })
  ]
]

compile_cursor-IsBound :
    (codec : Codec) (token : Bytes) (ks : List SortKey) {c : Statement × Option Cursor}
    → compile_cursor codec token ks ≡ ok c
    → IsBound c.0
unfolding compile_cursor
compile_cursor-IsBound codec token ks {c = c} h = elim (Bool-cases (equal token [])) [
  | inl e ↦
      subst (λ (x : Statement × Option Cursor). IsBound x.0) (ok-injective (rw e at h))
        no_statement-IsBound
  | inr e ↦ decoded (codec.decode token) (rw e at h)
]
  where
    decoded : (o : Option Cursor) → cursor_or o ks ≡ ok c → IsBound c.0
    decoded none q = absurd (cc)
    decoded (some x) q =
        subst (λ (y : Statement × Option Cursor). IsBound y.0) (ok-injective q)
          (cursor_statement-IsBound x ks)

order_part-IsClosed : (k : SortKey) → IsClosed 0 (order_part k)
order_part-IsClosed k = Goes-append (IsClosed-quote_ident k.field) (
    Goes-append {j = 0} {s = codes " "} (record { mode = refl; count = refl })
      (IsClosed-if (is_desc k) 0 (codes "DESC") (codes "ASC") (IsClosed-lit _ refl refl)
        (IsClosed-lit _ refl refl)))

order_by_sql-IsClosed : (ks : List SortKey) → IsClosed 0 (order_by_sql ks)
unfolding order_by_sql
order_by_sql-IsClosed [] = record { mode = refl; count = refl }
order_by_sql-IsClosed (k ∷ []) = order_part-IsClosed k
order_by_sql-IsClosed (k ∷ l ∷ ks) =
    Goes-append (order_part-IsClosed k)
      (Goes-append (IsClosed-lit (codes ", ") refl refl) (order_by_sql-IsClosed (l ∷ ks)))

facet_field_expr-IsClosed :
    (field : Bytes) {e : Bytes} → facet_field_expr field ≡ ok e → IsClosed 0 e
unfolding facet_field_expr column_expr
facet_field_expr-IsClosed field {e = e} h = elim (Bool-cases (is_attribute field)) [
  | inl p ↦ subst (IsClosed 0) (ok-injective (rw p at h)) (IsClosed-column_expr field true)
  | inr p ↦ elim (Bool-cases (is_core_column field)) [
    | inl q ↦ subst (IsClosed 0) (ok-injective (rw (p, q) at h)) (IsClosed-quote_ident field)
    | inr q ↦ absurd (refused (rw (p, q) at h))
  ]
]
  where
    refused : {x : ExecError} → ◌≡◌ {A = Result ExecError Bytes} (err x) (ok e) → ⊥
    refused k = cc

base_parts-IsBound :
    (env : Runtime) (r : Request) (f : Statement) → IsBound f → All IsBound (base_parts env r f)
base_parts-IsBound env r f h =
    (time_statement-IsBound r.from r.to, (h, (compile_search-IsBound env r.search, tt)))

module _ (env : Runtime) (codec : Codec) (r : Request) (p : QueryPlan)
    (h : plan_of env codec r ≡ ok p) where
  base-IsBound : IsBound p.base
  base-IsBound =
      let made = plan_of-Planned env codec r h in
      subst (λ (q : QueryPlan). IsBound q.base) (sym made.same)
        (combine_and-IsBound (base_parts env r made.filter) (
          base_parts-IsBound env r made.filter
            (filter_statement-IsBound env r.filter made.filter_ok)))

  where_all-IsBound : IsBound p.where_all
  where_all-IsBound =
      let made = plan_of-Planned env codec r h in
      let parts =
        base_parts-IsBound env r made.filter
          (filter_statement-IsBound env r.filter made.filter_ok) in
      let cursor = compile_cursor-IsBound codec r.cursor (keys_or_default r.sort) made.cursor_ok in
      subst (λ (q : QueryPlan). IsBound q.where_all) (sym made.same)
        (combine_and-IsBound (base_parts env r made.filter ++ made.cursor.0 ∷ []) (
          All-append IsBound (base_parts env r made.filter) (made.cursor.0 ∷ []) parts
            (cursor, tt)))

  -- Whatever a request that Run accepts holds, and whatever the names of the files: each statement that
  -- Run sends for events closes every quote that it opens, and has as many placeholders outside quotes
  -- as arguments are bound.
  pub plan_of-IsBound :
      (source : Bytes) (n : ℕ)
      → IsSource source
      → IsBound (query_sql source p.where_all (order_by_sql p.keys) n)
  plan_of-IsBound source n src =
      query_sql-IsBound source p.where_all (order_by_sql p.keys) n src where_all-IsBound
        (order_by_sql-IsClosed p.keys)

  -- Each statement that Run sends for a facet closes every quote that it opens, and has as many
  -- placeholders outside quotes as arguments are bound, if there is no percent sign in the expression
  -- of the facet's field or in the condition of the request: these are formatted once more with the
  -- source of the rows. Percent signs in the names of the files do no harm.
  pub facet_sql-plan_of :
      (other : Option Bytes → Bytes → Bytes) (source field expr : Bytes)
      → IsSource source
      → facet_field_expr field ≡ ok expr
      → has_percent expr ≡ false
      → has_percent p.base.sql ≡ false
      → IsBound (facet_sql other source p.base expr)
  facet_sql-plan_of other source field expr src e clean clean_base =
      facet_sql-IsBound other source p.base expr src base-IsBound
        (facet_field_expr-IsClosed field e) clean clean_base

-- Whatever a request that Count accepts holds: each statement that Count sends closes every quote that
-- it opens, and has as many placeholders outside quotes as arguments are bound.
pub count_where-IsBound :
    (env : Runtime) (r : Request) (w : Statement)
    → count_where env r ≡ ok w
    → (source : Bytes) (n : ℕ) → IsSource source
    → IsBound (count_sql source w n)
unfolding count_where
count_where-IsBound env r w h source n src =
    let (_, _, h1) = bind-ok (check_range r) _ h in
    let (_, _, h2) = bind-ok (check_filter r.filter) _ h1 in
    let (f, compiled, h3) = bind-ok (filter_statement env r.filter) _ h2 in
    count_sql-IsBound source w n src (
      subst IsBound (ok-injective h3) (
        combine_and-IsBound (base_parts env r f)
          (base_parts-IsBound env r f (filter_statement-IsBound env r.filter compiled))))
