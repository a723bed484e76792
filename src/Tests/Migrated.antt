-- ===== src/Tests/Migrated.antt =====
-- Runs of internal/catalog/migrations.go.
use logpond.Base.{ℕ, ◌+◌, ◌≡◌, refl, true, List, [], ◌∷◌, ◌++◌, Option, none, some, any, ◌==◌}
use logpond.Base.Text.{Bytes, codes}
use logpond.Base.Int.{ℤ, pos}
use logpond.Catalog.Order.{insert, order_by}
use logpond.Catalog.Migrations.{
  Migration, AppliedVersion, Database, is_applied, run_stmts, run_migration, turns,
  apply_migrations, applied_migrations, out_of_order, not_run,
}
use logpond.Catalog.Migrations.Rows.{IsIncreasing}
use logpond.Catalog.Migrations.Applied.{apply_migrations-again}

-- An engine that keeps the statements, and refuses the empty one.
abbrev exec : Bytes → List Bytes → Option (List Bytes)
exec [] s = none
exec (c ∷ cs) s = some (s ++ (c ∷ cs) ∷ [])

abbrev clock : ℕ → ℤ
clock v = pos (100 + v)

abbrev tables : Migration
tables = record { version = 1; stmts = codes "T" ∷ codes "I" ∷ [] }

abbrev column : Migration
column = record { version = 3; stmts = codes "C" ∷ [] }

abbrev broken : Migration
broken = record { version = 5; stmts = codes "B" ∷ [] ∷ [] }

abbrev late : Migration
late = record { version = 2; stmts = codes "L" ∷ [] }

abbrev old : Database (List Bytes)
old = record {
  schema = codes "T" ∷ codes "I" ∷ [];
  migrations = record { version = 1; applied_at = pos 7 } ∷ [];
}

abbrev both : Database (List Bytes)
both = record {
  schema = codes "T" ∷ codes "I" ∷ codes "C" ∷ [];
  migrations =
      record { version = 1; applied_at = pos 7 }
      ∷ record { version = 3; applied_at = pos 103 }
      ∷ [];
}

upgraded : apply_migrations exec clock (column ∷ tables ∷ []) old ≡ (both, none)
unfolding apply_migrations turns run_migration run_stmts order_by insert
upgraded = refl

-- A version below one that is there is refused.
refused : apply_migrations exec clock (late ∷ []) both ≡ (both, some (out_of_order 2 3))
unfolding apply_migrations turns run_migration run_stmts order_by insert
refused = refl

-- The migrations before one that fails stay, and nothing of that one does.
half_way : apply_migrations exec clock (broken ∷ column ∷ []) old ≡ (both, some (not_run 5))
unfolding apply_migrations turns run_migration run_stmts order_by insert
half_way = refl

listed : applied_migrations both ≡ 1 ∷ 3 ∷ []
unfolding applied_migrations order_by insert
listed = refl

apply_migrations-again_example :
    IsIncreasing both.migrations
    × ((new : List AppliedVersion) × (both.migrations ≡ old.migrations ++ new))
    × ((v : ℕ)
        → any (λ m. v == m.version) (column ∷ tables ∷ []) ≡ true
        → is_applied v both.migrations ≡ true)
    × (apply_migrations exec clock (column ∷ tables ∷ []) both ≡ (both, none))
apply_migrations-again_example =
    apply_migrations-again exec clock (column ∷ tables ∷ []) old both (tt, tt) upgraded
