-- ===== src/Query/Executor/Request/Planned.antt =====
-- internal/query/executor.go: what an accepted request was compiled to.
use logpond.Base.{◌≡◌, sym, subst, ap, ◌∙◌, true, List, Option, all, Bool-cases, inl, inr}
use logpond.Base.Result.{Result, ok, err, bind-ok, ok-injective}
use logpond.Query.Value.{Runtime}
use logpond.Query.Executor.Statement.{Statement}
use logpond.Query.Executor.Request.{
  Request, ExecError, SortKey, Codec, Cursor, QueryPlan, plan_of, plan_from, check_range,
  check_filter, check_sort, filter_statement, compile_cursor, keys_or_default, valid_key,
  invalid_sort,
}

-- How a plan is made.
pub record Planned (env : Runtime) (codec : Codec) (r : Request) (p : QueryPlan) : Type 0 where
  pub filter : Statement
  pub cursor : Statement × Option Cursor
  pub filter_ok : filter_statement env r.filter ≡ ok filter
  pub cursor_ok : compile_cursor codec r.cursor (keys_or_default r.sort) ≡ ok cursor
  pub valid : all valid_key (keys_or_default r.sort) ≡ true
  pub same : p ≡ plan_from env r (keys_or_default r.sort) filter cursor

check_sort-ok :
    (ks : List SortKey) {keys : List SortKey}
    → check_sort ks ≡ ok keys
    → (all valid_key (keys_or_default ks) ≡ true) × (keys ≡ keys_or_default ks)
unfolding check_sort
check_sort-ok ks h = elim (Bool-cases (all valid_key (keys_or_default ks))) [
  | inl e ↦ (e, sym (ok-injective (rw e at h)))
  | inr e ↦ absurd (refused (rw e at h))
]
  where
    refused :
        {keys : List SortKey}
        → ◌≡◌ {A = Result ExecError (List SortKey)} (err invalid_sort) (ok keys)
        → ⊥
    refused q = cc

pub plan_of-Planned :
    (env : Runtime) (codec : Codec) (r : Request) {p : QueryPlan}
    → plan_of env codec r ≡ ok p
    → Planned env codec r p
unfolding plan_of
plan_of-Planned env codec r h =
    let (_, _, h1) = bind-ok (check_range r) _ h in
    let (_, _, h2) = bind-ok (check_filter r.filter) _ h1 in
    let (ks, sorted, h3) = bind-ok (check_sort r.sort) _ h2 in
    let (f, compiled, h4) = bind-ok (filter_statement env r.filter) _ h3 in
    let (c, decoded, h5) = bind-ok (compile_cursor codec r.cursor ks) _ h4 in
    let (valid, keys) = check_sort-ok r.sort sorted in
    record {
      filter = f;
      cursor = c;
      filter_ok = compiled;
      cursor_ok = subst (λ k. compile_cursor codec r.cursor k ≡ ok c) keys decoded;
      valid = valid;
      same = sym (ok-injective h5) ∙ ap (λ k. plan_from env r k f c) keys;
    }
