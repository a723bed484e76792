-- ===== src/Query/Executor/Statement/Bound.antt =====
-- internal/query/executor.go: the quotes and the placeholders of the statements.
use logpond.Base.{
  Option, some, ◌∙◌, false, ◌==◌, ||-eq-false, ℕ, zero, suc, ◌+◌, ◌/◌, ◌%◌, ◌≡◌, refl, sym, subst,
  ap, not, List, [], ◌∷◌, ◌++◌, map, arith, All, filter, filter-All, length, length-append,
  Bool-cases, inl, inr, ◌⊎◌, ltb, ltb→lt, ◌<◌,
}
use logpond.Base.Text.{Bytes, codes, equal, equal_iff}
use logpond.Base.Int.{ℤ, pos}
use logpond.Query.Value.{Scalar, format_int, digits}
use logpond.Query.Sql.{Compiled}
use logpond.Query.Compile.Scan.{
  single, Goes-append, IsClosed, IsClosed-lit, IsClosed-path, IsClosed-around, recount,
}
use logpond.Query.Compile.Fragments.{Fits}
use logpond.Query.Executor.Format.{
  sprintf, has_percent, sprintf-plain, sprintf-source, sprintf-last,
}
use logpond.Query.Executor.Statement.{
  scalar, Statement, lifted, no_statement, is_empty, bracketed, all_joined, unless_single,
  combine_and, time_statement, where_clause, parquet_source, query_sql, count_sql, facet_sql,
  facet_where, facet_text, limit_clause, select_columns,
}

-- Every quote is closed, and there are as many placeholders outside quotes as arguments.
abbrev pub IsBound : Statement → Type 0
IsBound s = IsClosed (length s.args) s.sql

length-map : (xs : List Scalar) → length (map scalar xs) ≡ length xs
length-map [] = refl
length-map (x ∷ xs) = ap suc (length-map xs)

pub lifted-IsBound : (c : Compiled) → Fits c → IsBound (lifted c)
lifted-IsBound c h =
    recount (length c.args) (length (map scalar c.args)) (sym (length-map c.args)) h

pub no_statement-IsBound : IsBound no_statement
no_statement-IsBound = record { mode = refl; count = refl }

IsClosed-bracketed : {k : ℕ} {s : Bytes} → IsClosed k s → IsClosed k (bracketed s)
IsClosed-bracketed h =
    IsClosed-around (codes "(") (codes ")") (IsClosed-lit _ refl refl) (IsClosed-lit _ refl refl) h

all_joined-IsBound : (cs : List Statement) → All IsBound cs → IsBound (all_joined cs)
all_joined-IsBound [] h = no_statement-IsBound
all_joined-IsBound (c ∷ []) h = IsClosed-bracketed h.0
all_joined-IsBound (c ∷ d ∷ cs) h =
    let rest = all_joined (d ∷ cs) in
    recount (length c.args + (0 + length rest.args)) (length (c.args ++ rest.args))
      (omega (arith, length-append c.args rest.args))
      (Goes-append (IsClosed-bracketed h.0)
        (Goes-append (IsClosed-lit (codes " AND ") refl refl) (all_joined-IsBound (d ∷ cs) h.1)))

unless_single-IsBound : (cs : List Statement) → All IsBound cs → IsBound (unless_single cs)
unless_single-IsBound [] h = no_statement-IsBound
unless_single-IsBound (c ∷ []) h = h.0
unless_single-IsBound (c ∷ d ∷ cs) h = all_joined-IsBound (c ∷ d ∷ cs) h

pub combine_and-IsBound : (cs : List Statement) → All IsBound cs → IsBound (combine_and cs)
unfolding combine_and
combine_and-IsBound cs h =
    unless_single-IsBound (filter (λ c. not (is_empty c)) cs) (filter-All IsBound _ cs h)

pub time_statement-IsBound : (from to : ℤ) → IsBound (time_statement from to)
unfolding time_statement
time_statement-IsBound from to = record { mode = refl; count = refl }

-- Decimal digits.
digits-IsClosed : (fuel n : ℕ) (acc : Bytes) → IsClosed 0 acc → IsClosed 0 (digits fuel n acc)
unfolding digits
digits-IsClosed zero n acc h = h
digits-IsClosed (suc fuel) n acc h = elim (Bool-cases (ltb n 10)) [
  | inl e ↦ rw e (digit n acc h (ltb→lt n 10 e))
  | inr e ↦
      rw e
        (digits-IsClosed fuel (n / 10) ((b'0' + n % 10) ∷ acc) (digit (n % 10) acc h (omega arith)))
]
  where
    digit : (d : ℕ) (s : Bytes) → IsClosed 0 s → d < 10 → IsClosed 0 ((b'0' + d) ∷ s)
    digit d s k small = record { mode = ground (arith, k.mode); count = ground (arith, k.count) }

format_int-IsClosed : (n : ℕ) → IsClosed 0 (format_int (pos n))
unfolding format_int
format_int-IsClosed n = digits-IsClosed 20 n [] (record { mode = refl; count = refl })

limit_clause-IsClosed : (n : ℕ) → IsClosed 0 (limit_clause n)
limit_clause-IsClosed n =
    Goes-append (IsClosed-lit (codes " LIMIT ") refl refl) (format_int-IsClosed n)

where_clause-IsClosed : (k : ℕ) (s : Bytes) → IsClosed k s → IsClosed k (where_clause s)
where_clause-IsClosed k s h = elim (Bool-cases (equal s [])) [
  | inl e ↦ rw e (subst (IsClosed k) ((equal_iff s []).0 e) h)
  | inr e ↦
      rw e
        (recount (0 + k) k (omega arith) (Goes-append (IsClosed-lit (codes " WHERE ") refl refl) h))
]

-- Where a statement reads from.
abbrev pub IsSource : Bytes → Type 0
IsSource s = (s ≡ codes "events") ⊎ ((path : Bytes) × (s ≡ parquet_source path))

IsSource-IsClosed : (s : Bytes) → IsSource s → IsClosed 0 s
unfolding parquet_source
IsSource-IsClosed s (inl e) = subst (IsClosed 0) (sym e) (IsClosed-lit (codes "events") refl refl)
IsSource-IsClosed s (inr (path, e)) = subst (IsClosed 0) (sym e) (
    Goes-append {n = single} {j = 0} {s = codes "read_parquet('"}
      (record { mode = refl; count = refl }) (IsClosed-path path))

pub query_sql-IsBound :
    (source : Bytes) (w : Statement) (ob : Bytes) (n : ℕ)
    → IsSource source
    → IsBound w
    → IsClosed 0 ob
    → IsBound (query_sql source w ob n)
unfolding query_sql
query_sql-IsBound source w ob n src h o =
    recount (0 + (0 + (0 + (0 + (length w.args + (0 + (0 + 0))))))) (length w.args) (omega arith) (
      Goes-append (IsClosed-lit (codes "SELECT ") refl refl) (
        Goes-append (IsClosed-lit select_columns refl refl) (
          Goes-append (IsClosed-lit (codes " FROM ") refl refl) (
            Goes-append (IsSource-IsClosed source src) (
              Goes-append (where_clause-IsClosed (length w.args) w.sql h) (
                Goes-append (IsClosed-lit (codes " ORDER BY ") refl refl)
                  (Goes-append o (limit_clause-IsClosed n))))))))

pub count_sql-IsBound :
    (source : Bytes) (w : Statement) (n : ℕ)
    → IsSource source
    → IsBound w
    → IsBound (count_sql source w n)
unfolding count_sql
count_sql-IsBound source w n src h =
    recount (0 + (0 + (length w.args + 0))) (length w.args) (omega arith) (
      Goes-append (IsClosed-lit (codes "SELECT 1 FROM ") refl refl) (
        Goes-append (IsSource-IsClosed source src)
          (Goes-append (where_clause-IsClosed (length w.args) w.sql h) (limit_clause-IsClosed n))))

facet_where-IsClosed :
    (k : ℕ) (field s : Bytes) → IsClosed 0 field → IsClosed k s → IsClosed k (facet_where field s)
facet_where-IsClosed k field s f h = elim (Bool-cases (equal s [])) [
  | inl e ↦ rw e (recount k k refl (emptied (subst (IsClosed k) ((equal_iff s []).0 e) h)))
  | inr e ↦ rw e (
      recount (0 + (k + (0 + (0 + 0)))) k (omega arith) (
        Goes-append (IsClosed-lit (codes " WHERE ") refl refl) (
          Goes-append h (
            Goes-append (IsClosed-lit (codes " AND ") refl refl)
              (Goes-append f (IsClosed-lit (codes " IS NOT NULL") refl refl))))))
]
  where
    emptied : IsClosed k [] → IsClosed k (codes " WHERE " ++ (field ++ codes " IS NOT NULL"))
    emptied g = recount 0 k g.count (
        IsClosed-around (codes " WHERE ") (codes " IS NOT NULL") (IsClosed-lit _ refl refl)
          (IsClosed-lit _ refl refl) f)

-- The text with the source in its place.
abbrev facet_around : Bytes → Bytes → Bytes → Bytes
facet_around source field sql =
    codes "SELECT "
    ++ (field
        ++ (codes " AS v, COUNT(*) AS c FROM "
            ++ (source
                ++ (facet_where field sql
                    ++ (codes " GROUP BY " ++ (field ++ codes " ORDER BY c DESC"))))))

clean-append :
    (s t : Bytes) → has_percent s ≡ false → has_percent t ≡ false → has_percent (s ++ t) ≡ false
clean-append [] t h k = k
clean-append (c ∷ s) t h k =
    let (first, later) = ||-eq-false (c == b'%') (has_percent s) h in
    rw first (clean-append s t later k)

facet_where-clean :
    (field s : Bytes)
    → has_percent field ≡ false
    → has_percent s ≡ false
    → has_percent (facet_where field s) ≡ false
facet_where-clean field s f h =
    let ending = clean-append field (codes " IS NOT NULL") f refl in
    elim (Bool-cases (equal s [])) [
      | inl e ↦ rw e (clean-append (codes " WHERE ") (field ++ codes " IS NOT NULL") refl ending)
      | inr e ↦ rw e (
          clean-append (codes " WHERE ") (s ++ (codes " AND " ++ (field ++ codes " IS NOT NULL")))
            refl
            (clean-append s (codes " AND " ++ (field ++ codes " IS NOT NULL")) h
              (clean-append (codes " AND ") (field ++ codes " IS NOT NULL") refl ending)))
    ]

sprintf-facet_text :
    (other : Option Bytes → Bytes → Bytes) (source field s : Bytes)
    → has_percent field ≡ false
    → has_percent s ≡ false
    → sprintf other (some source) false (facet_text field s) ≡ facet_around source field s
sprintf-facet_text other source field s f h =
    let behind =
      facet_where field s ++ (codes " GROUP BY " ++ (field ++ codes " ORDER BY c DESC")) in
    let clean =
      clean-append (facet_where field s) (codes " GROUP BY " ++ (field ++ codes " ORDER BY c DESC"))
        (facet_where-clean field s f h)
        (clean-append (codes " GROUP BY ") (field ++ codes " ORDER BY c DESC") refl
          (clean-append field (codes " ORDER BY c DESC") f refl)) in
    let from = codes " AS v, COUNT(*) AS c FROM " in
    let arg = some source in
    sprintf-plain other arg (codes "SELECT ") (field ++ (from ++ (codes "%s" ++ behind))) refl
    ∙ ap (◌++◌ (codes "SELECT ")) (
        sprintf-plain other arg field (from ++ (codes "%s" ++ behind)) f
        ∙ ap (◌++◌ field) (
            sprintf-plain other arg from (codes "%s" ++ behind) refl
            ∙ ap (◌++◌ from) (
                sprintf-source other source behind
                ∙ ap (◌++◌ source) (sprintf-last other behind clean))))

pub facet_sql-IsBound :
    (other : Option Bytes → Bytes → Bytes) (source : Bytes) (w : Statement) (field : Bytes)
    → IsSource source
    → IsBound w
    → IsClosed 0 field
    → has_percent field ≡ false
    → has_percent w.sql ≡ false
    → IsBound (facet_sql other source w field)
unfolding facet_sql
facet_sql-IsBound other source w field src h f fc wc =
    subst (IsClosed (length w.args)) (sym (sprintf-facet_text other source field w.sql fc wc)) (
      recount (0 + (0 + (0 + (0 + (length w.args + (0 + (0 + 0))))))) (length w.args) (omega arith)
        (Goes-append (IsClosed-lit (codes "SELECT ") refl refl) (
          Goes-append f (
            Goes-append (IsClosed-lit (codes " AS v, COUNT(*) AS c FROM ") refl refl) (
              Goes-append (IsSource-IsClosed source src) (
                Goes-append (facet_where-IsClosed (length w.args) field w.sql f h) (
                  Goes-append (IsClosed-lit (codes " GROUP BY ") refl refl)
                    (Goes-append f (IsClosed-lit (codes " ORDER BY c DESC") refl refl)))))))))
