-- ===== src/Jobs/Lifecycle/Sound.antt =====
-- internal/jobs/manager.go: the rows of jobs in the background.
use logpond.Base.{
  ◌≡◌, refl, sym, subst, ap, ◌∙◌, true, false, List, Option, none, some, some-injective, any,
  Bool-cases, inl, inr, ◌⊎◌,
}
use logpond.Base.Text.{Bytes, equal, equal_iff, equal_refl}
use logpond.Base.Int.{ℤ}
use logpond.Base.Unique.{has_key, IsUnique, update_at, update_at-IsUnique, update_at-absent}
use logpond.Base.Find.{changed, find_key-update_self, find_key-update_other}
use logpond.Catalog.Jobs.{
  Job, JobUpdate, Jobs, completed, failed, id_of, get_job, updated_job, update_job, sets_nothing,
}
use logpond.Jobs.Manager.{start_update, or_logged}
use logpond.Jobs.Lifecycle.{
  Phase, spawned, working, unrecorded, done, Phases, set, Live, with_table, IsSound, Fits,
}

pub updated_job-id : (u : JobUpdate) (j : Job) → id_of (updated_job u j) ≡ id_of j
unfolding updated_job
updated_job-id u j = refl

-- A write whose failure is logged is a write to the rows of the id.
pub logged-update_job :
    (id : Bytes) (u : JobUpdate) (t : Jobs)
    → sets_nothing u ≡ false
    → or_logged t (update_job id u t) ≡ update_at id_of id (updated_job u) t
unfolding update_job
logged-update_job id u t h = elim (Bool-cases (any (has_key id_of id) t)) [
  | inl e ↦ rw (h, e) refl
  | inr e ↦ rw (h, e) (sym (update_at-absent id_of id (updated_job u) t e))
]

pub set_self : (id : Bytes) (q : Phase) (f : Phases) (p : Phase) → set id q f id ≡ some p → q ≡ p
set_self id q f p e = some-injective q p (rw (equal_refl id) at e)

pub set_other :
    (id : Bytes) (q : Phase) (f : Phases) (k : Bytes) → equal id k ≡ false → set id q f k ≡ f k
set_other id q f k e = rw e refl

module _ (s : Live) (h : IsSound s) (id : Bytes) (u : JobUpdate)
    (some_set : sets_nothing u ≡ false) where
  abbrev pub after : Jobs
  after = or_logged s.system.table (update_job id u s.system.table)

  same : after ≡ update_at id_of id (updated_job u) s.system.table
  same = logged-update_job id u s.system.table some_set

  pub after-IsUnique : IsUnique id_of after
  after-IsUnique =
      subst (IsUnique id_of) (sym same)
        (update_at-IsUnique id_of id (updated_job u) (updated_job-id u) s.system.table h.unique)

  -- The goroutines after a write, where only that of the id has moved.
  pub after-Fits :
      (f : Phases)
      → ((p : Phase)
          → f id ≡ some p
          → Fits p (changed id_of (updated_job u) (get_job id s.system.table)))
      → ((k : Bytes) → equal id k ≡ false → f k ≡ s.phases k)
      → (k : Bytes) (p : Phase) → f k ≡ some p
      → Fits p (get_job k after)
  after-Fits f own rest k p e = elim (Bool-cases (equal id k)) [
    | inl q ↦
        subst (λ i. Fits p (get_job i after)) ((equal_iff id k).0 q)
          (subst (Fits p)
            (sym (
              ap (get_job id) same
              ∙ find_key-update_self id_of (updated_job u) (updated_job-id u) id s.system.table))
            (own p (subst (λ i. f i ≡ some p) (sym ((equal_iff id k).0 q)) e)))
    | inr q ↦
        subst (Fits p)
          (sym (
            ap (get_job k) same
            ∙ find_key-update_other id_of (updated_job u) (updated_job-id u) k id s.system.table q))
          (h.fits k p (sym (rest k q) ∙ e))
  ]

  -- The job of the id ends.
  pub ended :
      (cleared : List Bytes)
      → ((k : Bytes)
          → any (λ j. equal j k) cleared ≡ true
          → (any (λ j. equal j k) s.system.cancels ≡ true) × (equal id k ≡ false))
      → Fits done (changed id_of (updated_job u) (get_job id s.system.table))
      → IsSound (record s {
        system = record { table = after; cancels = cleared };
        phases = set id done s.phases;
      })
  ended cleared narrow own = record {
    unique = after-IsUnique;
    fits =
        after-Fits (set id done s.phases)
          (λ p e.
            subst (λ q. Fits q (changed id_of (updated_job u) (get_job id s.system.table)))
              (set_self id done s.phases p e) own)
          (λ k q. rw q refl);
    cancellable = λ k e.
        let (old, other) = narrow k e in
        subst (λ (o : Option Phase). (o ≡ some spawned) ⊎ (o ≡ some working))
          (sym (set_other id done s.phases k other)) (h.cancellable k old);
    once = λ k e. h.once k (narrow k e).0;
    cut = λ k e. apart k (Bool-cases (equal id k)) e;
  }
    where
      apart :
          (k : Bytes)
          → (equal id k ≡ true) ⊎ (equal id k ≡ false)
          → set id done s.phases k ≡ some unrecorded
          → s.cancelled k ≡ true
      apart k (inl q) e = absurd (not_done (rw q at e))
        where
          not_done : ¬ ◌≡◌ {A = Option Phase} (some done) (some unrecorded)
          not_done x = cc
      apart k (inr q) e = h.cut k (rw q at e)

  -- The job of the id goes on.
  pub continued :
      ((p : Phase)
        → s.phases id ≡ some p
        → Fits p (changed id_of (updated_job u) (get_job id s.system.table)))
      → IsSound (with_table after s)
  continued own = record {
    unique = after-IsUnique;
    fits = after-Fits s.phases own (λ k q. refl);
    cancellable = h.cancellable;
    once = h.once;
    cut = h.cut;
  }

pub only : {o : Option Phase} {a b : Phase} → o ≡ some a → o ≡ some b → a ≡ b
only p q = cc

pub begun :
    (now : ℤ) (o : Option Job)
    → Fits spawned o
    → Fits working (changed id_of (updated_job (start_update now)) o)
unfolding updated_job
begun now none h = h
begun now (some j) h = (refl, refl, h.2)

pub kept_working :
    (u : JobUpdate) (o : Option Job)
    → u.state ≡ none
    → u.started_at ≡ none
    → u.finished_at ≡ none
    → Fits working o
    → Fits working (changed id_of (updated_job u) o)
unfolding updated_job
kept_working u none a b c h = h
kept_working u (some j) a b c h = rw (a, b, c) h

pub kept_spawned :
    (u : JobUpdate) (o : Option Job)
    → u.state ≡ none
    → u.started_at ≡ none
    → u.finished_at ≡ none
    → Fits spawned o
    → Fits spawned (changed id_of (updated_job u) o)
unfolding updated_job
kept_spawned u none a b c h = h
kept_spawned u (some j) a b c h = rw (a, b, c) h

pub finished :
    (u : JobUpdate) (o : Option Job) (now : ℤ)
    → (u.state ≡ some completed) ⊎ (u.state ≡ some failed)
    → u.finished_at ≡ some now
    → Fits done (changed id_of (updated_job u) o)
unfolding updated_job equal
finished u none now a b = tt
finished u (some j) now (inl a) b = rw (a, b) (refl, refl)
finished u (some j) now (inr a) b = rw (a, b) (refl, refl)
