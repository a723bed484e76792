-- ===== src/Catalog/Migrations.antt =====
-- internal/catalog/migrations.go: the runner of schema changes, and AppliedMigrations of catalog.go.
-- The engine that executes a statement is a parameter. Versions are natural numbers: the runner starts
-- from version 0, so it refuses a negative version as it refuses 0.
pub mod Rows
pub mod Applied
use logpond.Base.{
  ℕ, Bool, List, [], ◌∷◌, ◌++◌, map, Option, none, some, any, if◌then◌else◌, ltb, leb, ◌==◌,
}
use logpond.Base.Text.{Bytes}
use logpond.Base.Int.{ℤ}
use logpond.Catalog.Order.{order_by}

pub record Migration : Type 0 where
  pub version : ℕ
  pub stmts : List Bytes

-- A row of the table migrations.
pub record AppliedVersion : Type 0 where
  pub version : ℕ
  pub applied_at : ℤ

-- The other tables, and the table migrations.
pub record Database (S : Type 0) : Type 0 where
  pub schema : S
  pub migrations : List AppliedVersion

-- ErrMigrationOutOfOrder with both versions, and a migration that did not run.
pub data MigrationError : Type 0 where
  out_of_order : ℕ → ℕ → MigrationError
  not_run : ℕ → MigrationError

-- loadApplied, as the test that its map answers.
abbrev pub is_applied : ℕ → List AppliedVersion → Bool
is_applied v rows = any (λ r. v == r.version) rows

abbrev pub max_applied : List AppliedVersion → ℕ
max_applied [] = 0
max_applied (r ∷ rows) =
    let rest = max_applied rows in if ltb rest r.version then r.version else rest

-- The loop of applyMigrations: what it has written, its variable maxApplied, and the error with which
-- it has returned.
pub record Loop (S : Type 0) : Type 0 where
  pub db : Database S
  pub max : ℕ
  pub error : Option MigrationError

abbrev pub version_before : Migration → Migration → Bool
version_before a b = ltb a.version b.version

abbrev pub started : {S : Type 0} → Database S → Loop S
started d = record { db = d; max = max_applied d.migrations; error = none }

module _ {S : Type 0} (exec : Bytes → S → Option S) (clock : ℕ → ℤ) where
  -- The statements in one transaction: the first that fails undoes them all.
  unfoldable pub run_stmts : List Bytes → S → Option S
  run_stmts [] s = some s
  run_stmts (q ∷ qs) s = elim (exec q s) [ none ↦ none | some s' ↦ run_stmts qs s' ]

  -- The INSERT of the version, the primary key of its table, and the commit.
  abbrev pub committed : Migration → Database S → Option S → Option (Database S)
  committed m d none = none
  committed m d (some s) =
      if is_applied m.version d.migrations
      then none
      else some (record {
        schema = s;
        migrations =
            d.migrations ++ record { version = m.version; applied_at = clock m.version } ∷ [];
      })

  -- runMigration
  unfoldable pub run_migration : Migration → Database S → Option (Database S)
  run_migration m d = committed m d (run_stmts m.stmts d.schema)

  abbrev pub recorded : Migration → Loop S → Option (Database S) → Loop S
  recorded m p none = record { db = p.db; max = p.max; error = some (not_run m.version) }
  recorded m p (some d) = record { db = d; max = m.version; error = none }

  -- One turn of the loop; `seen` is what the table held before it.
  abbrev pub turn : List AppliedVersion → Migration → Loop S → Option MigrationError → Loop S
  turn seen m p (some e) = p
  turn seen m p none =
      if is_applied m.version seen
      then p
      else if leb m.version p.max
      then record { db = p.db; max = p.max; error = some (out_of_order m.version p.max) }
      else recorded m p (run_migration m p.db)

  unfoldable pub turns : List AppliedVersion → List Migration → Loop S → Loop S
  turns seen [] p = p
  turns seen (m ∷ ms) p = turns seen ms (turn seen m p p.error)

  -- applyMigrations; each migration that ran stays when a later one fails.
  unfoldable pub apply_migrations : List Migration → Database S → Database S × Option MigrationError
  apply_migrations ms d =
      let p = turns d.migrations (order_by version_before ms) (started d) in (p.db, p.error)

-- AppliedMigrations
unfoldable pub applied_migrations : {S : Type 0} → Database S → List ℕ
applied_migrations d = order_by ltb (map (λ r. r.version) d.migrations)
