-- ===== src/Catalog/Migrations/Applied.antt =====
-- internal/catalog/migrations.go: what applyMigrations leaves in the table migrations.
use logpond.Base.{
  ℕ, ◌<◌, ◌≤◌, ◌≡◌, refl, sym, subst, ap, ◌∙◌, Bool, true, false, List, [], ◌∷◌, ◌++◌, Option, none,
  some, some-injective, any, All, All-append, map-All, if◌then◌else◌, leb, ◌==◌, ==_refl, ==→eq,
  Bool-cases, inl, inr, arith,
}
use logpond.Base.Text.{Bytes}
use logpond.Base.Int.{ℤ}
use logpond.Catalog.Order.{order_by, any-order_by}
use logpond.Catalog.Migrations.{
  Migration, AppliedVersion, Database, MigrationError, is_applied, Loop, version_before, run_stmts,
  committed, run_migration, recorded, turn, turns, started, apply_migrations, out_of_order,
}
use logpond.Catalog.Migrations.Rows.{
  IsIncreasing, IsBelow, max_applied-IsBelow, snoc-IsIncreasing, any-last, Extends, Extends-any,
  Extends-self, Extends-trans,
}

record IsSound {S : Type 0} (seen : List AppliedVersion) (p : Loop S) : Type 0 where
  pub rows : IsIncreasing p.db.migrations
  pub below : IsBelow p.max p.db.migrations
  pub kept : Extends seen p.db.migrations

module _ {S : Type 0} (exec : Bytes → S → Option S) (clock : ℕ → ℤ) where
  abbrev row_of : Migration → AppliedVersion
  row_of m = record { version = m.version; applied_at = clock m.version }

  committed-adds :
      (m : Migration) (d d' : Database S) (o : Option S)
      → committed exec clock m d o ≡ some d'
      → d'.migrations ≡ d.migrations ++ row_of m ∷ []
  committed-adds m d d' none h = absurd (cc)
  committed-adds m d d' (some s) h = guarded _ (is_applied m.version d.migrations) h
    where
      guarded :
          (x : Database S) (b : Bool)
          → (if b then none else some x) ≡ some d'
          → d'.migrations ≡ x.migrations
      guarded x true e = absurd (cc)
      guarded x false e = ap (λ (y : Database S). y.migrations) (sym (some-injective x d' e))

  run_migration-adds :
      (m : Migration) (d d' : Database S)
      → run_migration exec clock m d ≡ some d'
      → d'.migrations ≡ d.migrations ++ row_of m ∷ []
  unfolding run_migration
  run_migration-adds m d d' h = committed-adds m d d' (run_stmts exec clock m.stmts d.schema) h

  recorded-IsSound :
      (seen : List AppliedVersion) (m : Migration) (p : Loop S) (o : Option (Database S))
      → run_migration exec clock m p.db ≡ o
      → p.max < m.version
      → IsSound seen p
      → let p' = recorded exec clock m p o in
        IsSound seen p'
        × Extends p.db.migrations p'.db.migrations
        × (p'.error ≡ none → is_applied m.version p'.db.migrations ≡ true)
  recorded-IsSound seen m p none e l h = (
    record { rows = h.rows; below = h.below; kept = h.kept },
    Extends-self p.db.migrations,
    λ n. absurd (cc (n)),
  )
  recorded-IsSound seen m p (some d) e l h =
      let same = run_migration-adds m p.db d e in
      (
        record {
          rows =
              subst IsIncreasing (sym same)
                (snoc-IsIncreasing p.max p.db.migrations (row_of m) h.rows h.below l);
          below = subst (IsBelow m.version) (sym same) (
              All-append (λ r. r.version ≤ m.version) p.db.migrations (row_of m ∷ [])
                (map-All (λ r (k : r.version ≤ p.max). omega (arith, k, l)) p.db.migrations h.below)
                (omega arith, tt));
          kept = Extends-trans seen p.db.migrations d.migrations h.kept (row_of m ∷ [], same);
        },
        (row_of m ∷ [], same),
        λ n.
            ap (is_applied m.version) same
            ∙ any-last (λ (r : AppliedVersion). m.version == r.version) p.db.migrations (row_of m)
                (==_refl m.version),
      )

  -- One turn keeps what holds of the table, and one that ends without an error has its version there.
  turn-IsSound :
      (seen : List AppliedVersion) (m : Migration) (p : Loop S) (e : Option MigrationError)
      → p.error ≡ e
      → IsSound seen p
      → let p' = turn exec clock seen m p e in
        IsSound seen p'
        × Extends p.db.migrations p'.db.migrations
        × (p'.error ≡ none → is_applied m.version p'.db.migrations ≡ true)
  turn-IsSound seen m p (some x) q h = (h, Extends-self p.db.migrations, λ n. absurd (cc (n, q)))
  turn-IsSound seen m p none q h = by (is_applied m.version seen) (leb m.version p.max) refl refl
    where
      by :
          (a b : Bool)
          → is_applied m.version seen ≡ a
          → leb m.version p.max ≡ b
          → let p' =
              if a
              then p
              else if b
              then record { db = p.db; max = p.max; error = some (out_of_order m.version p.max) }
              else recorded exec clock m p (run_migration exec clock m p.db) in
            IsSound seen p'
            × Extends p.db.migrations p'.db.migrations
            × (p'.error ≡ none → is_applied m.version p'.db.migrations ≡ true)
      by true b e f = (
        h,
        Extends-self p.db.migrations,
        λ n. Extends-any m.version seen p.db.migrations h.kept e,
      )
      by false true e f = (
        record { rows = h.rows; below = h.below; kept = h.kept },
        Extends-self p.db.migrations,
        λ n. absurd (cc (n)),
      )
      by false false e f =
          recorded-IsSound seen m p (run_migration exec clock m p.db) refl (ground (arith, f)) h

  turns-stuck :
      (seen : List AppliedVersion) (ms : List Migration) (p : Loop S) {x : MigrationError}
      → p.error ≡ some x
      → turns exec clock seen ms p ≡ p
  unfolding turns
  turns-stuck seen [] p e = refl
  turns-stuck seen (m ∷ ms) p e =
      ap (λ o. turns exec clock seen ms (turn exec clock seen m p o)) e ∙ turns-stuck seen ms p e

  -- Rows stay where they are from turn to turn, so that the whole loop keeps what holds.
  turns-IsSound :
      (seen : List AppliedVersion) (ms : List Migration) (p : Loop S)
      → IsSound seen p
      → let p' = turns exec clock seen ms p in
        IsSound seen p'
        × Extends p.db.migrations p'.db.migrations
        × (p'.error ≡ none → All (λ m. is_applied m.version p'.db.migrations ≡ true) ms)
  unfolding turns
  turns-IsSound seen [] p h = (h, Extends-self p.db.migrations, λ n. tt)
  turns-IsSound seen (m ∷ ms) p h =
      let p1 = turn exec clock seen m p p.error in
      let p2 = turns exec clock seen ms p1 in
      let (next, more, here) = turn-IsSound seen m p p.error refl h in
      let (last, rest, later) = turns-IsSound seen ms p1 next in
      let still : p2.error ≡ none → p1.error ≡ none = λ n. quiet_before p1.error refl n in
      (
        last,
        Extends-trans p.db.migrations p1.db.migrations p2.db.migrations more rest,
        λ n. (
          Extends-any m.version p1.db.migrations p2.db.migrations rest (here (still n)),
          later n,
        ),
      )
    where
      p1' : Loop S
      p1' = turn exec clock seen m p p.error

      quiet_before :
          (o : Option MigrationError)
          → p1'.error ≡ o
          → (turns exec clock seen ms p1').error ≡ none
          → p1'.error ≡ none
      quiet_before none e n = e
      quiet_before (some x) e n = ap (λ (w : Loop S). w.error) (sym (turns-stuck seen ms p1' e)) ∙ n

  -- With every version there, the loop does nothing.
  turns-idle :
      (seen : List AppliedVersion) (ms : List Migration) (p : Loop S)
      → p.error ≡ none
      → All (λ m. is_applied m.version seen ≡ true) ms
      → turns exec clock seen ms p ≡ p
  unfolding turns
  turns-idle seen [] p e h = refl
  turns-idle seen (m ∷ ms) p e h =
      ap (λ o. turns exec clock seen ms (turn exec clock seen m p o)) e
      ∙ ap (turns exec clock seen ms) (rw h.0 refl)
      ∙ turns-idle seen ms p e h.1

All-any :
    (v : ℕ) (rows : List AppliedVersion) (ms : List Migration)
    → All (λ m. is_applied m.version rows ≡ true) ms
    → any (λ m. v == m.version) ms ≡ true
    → is_applied v rows ≡ true
All-any v rows [] h k = absurd (cc)
All-any v rows (m ∷ ms) h k = elim (Bool-cases (v == m.version)) [
  | inl e ↦ subst (λ w. is_applied w rows ≡ true) (sym (==→eq v m.version e)) h.0
  | inr e ↦ All-any v rows ms h.1 (sym (rw e refl) ∙ k)
]

sound_start :
    {S : Type 0} (d : Database S) → IsIncreasing d.migrations → IsSound d.migrations (started d)
sound_start d h = record {
  rows = h;
  below = max_applied-IsBelow d.migrations;
  kept = Extends-self d.migrations;
}

-- When applyMigrations succeeds on a table whose versions grow from row to row: its rows stay in front
-- of the new ones, the versions still grow from row to row, every version that was asked for is in the
-- table, and to apply the same migrations again succeeds and changes nothing.
pub apply_migrations-again :
    {S : Type 0} (exec : Bytes → S → Option S) (clock : ℕ → ℤ) (ms : List Migration)
    (d d' : Database S)
    → IsIncreasing d.migrations
    → apply_migrations exec clock ms d ≡ (d', none)
    → IsIncreasing d'.migrations
      × ((new : List AppliedVersion) × (d'.migrations ≡ d.migrations ++ new))
      × ((v : ℕ) → any (λ m. v == m.version) ms ≡ true → is_applied v d'.migrations ≡ true)
      × (apply_migrations exec clock ms d' ≡ (d', none))
unfolding apply_migrations
apply_migrations-again exec clock ms d d' h e =
    let sorted = order_by version_before ms in
    let p = turns exec clock d.migrations sorted (started d) in
    let db : p.db ≡ d' = ap (λ x. x.0) e in
    let (sound, more, all) =
      turns-IsSound exec clock d.migrations sorted (started d) (sound_start d h) in
    let there =
      subst (λ (x : Database _). All (λ m. is_applied m.version x.migrations ≡ true) sorted) db
        (all (ap (λ x. x.1) e)) in
    (
      subst (λ (x : Database _). IsIncreasing x.migrations) db sound.rows,
      subst (λ (x : Database _). Extends d.migrations x.migrations) db more,
      λ v k.
          All-any v d'.migrations sorted there
            (any-order_by version_before (λ m. v == m.version) ms ∙ k),
      ap (λ q. (q.db, q.error))
          (turns-idle exec clock d'.migrations sorted (started d') refl there),
    )
