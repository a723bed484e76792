-- ===== src/Query/Executor/Statement.antt =====
-- internal/query/executor.go: the SQL text that is sent to a segment, with its arguments.
pub mod Bound
use logpond.Base.{
  Option, some, ℕ, Bool, true, false, not, List, [], ◌∷◌, ◌++◌, map, filter, if◌then◌else◌,
}
use logpond.Base.Text.{Bytes, codes, equal}
use logpond.Base.Int.{ℤ, pos}
use logpond.Query.Value.{Scalar, format_int}
use logpond.Query.Executor.Format.{sprintf}
use logpond.Query.Sql.{Compiled, quote_ident, escape_single_quotes}

-- A bound argument: a scalar of the filter, or a time.
pub data Arg : Type 0 where
  scalar : Scalar → Arg
  time : ℤ → Arg

-- `Compiled`, with the arguments that the executor adds
pub record Statement : Type 0 where
  pub sql : Bytes
  pub args : List Arg

abbrev pub lifted : Compiled → Statement
lifted c = record { sql = c.sql; args = map scalar c.args }

abbrev pub no_statement : Statement
no_statement = record { sql = []; args = [] }

abbrev pub is_empty : Statement → Bool
is_empty c = equal c.sql []

abbrev pub bracketed : Bytes → Bytes
bracketed s = b'(' ∷ (s ++ b')' ∷ [])

-- strings.Join(sqls, " AND "), with the appended arguments
abbrev pub all_joined : List Statement → Statement
all_joined [] = no_statement
all_joined (c ∷ []) = record { sql = bracketed c.sql; args = c.args }
all_joined (c ∷ d ∷ cs) = record {
  sql = bracketed c.sql ++ (codes " AND " ++ (all_joined (d ∷ cs)).sql);
  args = c.args ++ (all_joined (d ∷ cs)).args;
}

abbrev pub unless_single : List Statement → Statement
unless_single [] = no_statement
unless_single (c ∷ []) = c
unless_single (c ∷ d ∷ cs) = all_joined (c ∷ d ∷ cs)

-- CombineAnd
unfoldable pub combine_and : List Statement → Statement
combine_and parts = unless_single (filter (λ c. not (is_empty c)) parts)

-- `timeC`
unfoldable pub time_statement : ℤ → ℤ → Statement
time_statement from to = record {
  sql = codes "\"timestamp\" >= ? AND \"timestamp\" <= ?";
  args = time from ∷ time to ∷ [];
}

abbrev pub where_clause : Bytes → Bytes
where_clause sql = if equal sql [] then [] else codes " WHERE " ++ sql

unfoldable pub parquet_source : Bytes → Bytes
parquet_source path = codes "read_parquet('" ++ (escape_single_quotes path ++ codes "')")

abbrev pub limit_clause : ℕ → Bytes
limit_clause n = codes " LIMIT " ++ format_int (pos n)

abbrev pub select_columns : Bytes
select_columns = codes "\"timestamp\", service, level, message, host, source, attributes, raw"

-- The text of queryActive and querySealed.
unfoldable pub query_sql : Bytes → Statement → Bytes → ℕ → Statement
query_sql source w order_by limit = record {
  sql =
      codes "SELECT "
      ++ (select_columns
          ++ (codes " FROM "
              ++ (source
                  ++ (where_clause w.sql
                      ++ (codes " ORDER BY " ++ (order_by ++ limit_clause limit))))));
  args = w.args;
}

-- The text of countSegment.
unfoldable pub count_sql : Bytes → Statement → ℕ → Statement
count_sql source w limit = record {
  sql = codes "SELECT 1 FROM " ++ (source ++ (where_clause w.sql ++ limit_clause limit));
  args = w.args;
}

abbrev pub facet_where : Bytes → Bytes → Bytes
facet_where field sql =
    if equal sql []
    then codes " WHERE " ++ (field ++ codes " IS NOT NULL")
    else codes " WHERE " ++ (sql ++ (codes " AND " ++ (field ++ codes " IS NOT NULL")))

-- The text of queryFacetSegment, where `%s` stands for the source.
abbrev pub facet_text : Bytes → Bytes → Bytes
facet_text field sql =
    codes "SELECT "
    ++ (field
        ++ (codes " AS v, COUNT(*) AS c FROM "
            ++ (codes "%s"
                ++ (facet_where field sql
                    ++ (codes " GROUP BY " ++ (field ++ codes " ORDER BY c DESC"))))))

-- The statement of queryFacetSegment: the text is formatted again, with all that it holds.
unfoldable pub facet_sql : (Option Bytes → Bytes → Bytes) → Bytes → Statement → Bytes → Statement
facet_sql other source w field = record {
  sql = sprintf other (some source) false (facet_text field w.sql);
  args = w.args;
}
