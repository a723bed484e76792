-- ===== src/Jobs/Lifecycle/Steps.antt =====
-- internal/jobs/manager.go: every step of the jobs in the background.
use logpond.Base.{
  ◌≡◌, refl, sym, subst, ◌∙◌, true, false, not, ◌&&◌, List, [], ◌∷◌, ◌++◌, Option, none, some,
  arith, any, if◌then◌else◌, Bool-cases, inl, inr, ◌⊎◌, or_right,
}
use logpond.Base.Text.{Bytes, equal, equal_iff}
use logpond.Base.Int.{ℤ}
use logpond.Base.Unique.{has_key, IsUnique, snoc-IsUnique}
use logpond.Base.Find.{changed, find_key-snoc}
use logpond.Catalog.Keys.{unless_some}
use logpond.Catalog.Jobs.{
  Job, JobUpdate, Jobs, completed, failed, id_of, insert_job, get_job, updated_job, update_job,
  sets_nothing,
}
use logpond.Jobs.Manager.{
  Progress, Json, CreatePayload, pending_job, create, start, start_update, update_progress,
  progress_update, attach_script_output, output_update, clear_cancel, complete, complete_update,
  fail, fail_update, or_logged, update_found, cancel,
}
use logpond.Jobs.Lifecycle.{
  Phase, spawned, working, done, set, Live, with_table, Step, Reach, IsSound, Fits, run, begin,
  begin_cancelled, report, print, succeed, break_off, stop, stopped, IsActive, recorded,
  not_recorded, unrecorded, collect, nothing, then_step,
}
use logpond.Jobs.Lifecycle.Collected.{collect-IsSound}
use logpond.Jobs.Lifecycle.Sound.{
  set_self, set_other, only, begun, kept_working, kept_spawned, finished, ended, continued,
  after-Fits, after-IsUnique,
}

-- What is still cancellable is another job's.
clear_cancel-other :
    (id k : Bytes) (ids : List Bytes)
    → any (λ j. equal j k) (clear_cancel id ids) ≡ true
    → (any (λ j. equal j k) ids ≡ true) × (equal id k ≡ false)
unfolding clear_cancel
clear_cancel-other id k [] e = absurd (ground (arith, e))
clear_cancel-other id k (i ∷ ids) e = elim (Bool-cases (equal i id)) [
  | inl p ↦
      let (later, other) = clear_cancel-other id k ids (rw p at e) in
      (or_right (equal i k) (any (λ j. equal j k) ids) later, other)
  | inr p ↦ elim (Bool-cases (equal i k)) [
    | inl q ↦ (rw q refl, apart (Bool-cases (equal id k)) p q)
    | inr q ↦
        let (later, other) = clear_cancel-other id k ids (rw q at (rw p at e)) in
        (or_right (equal i k) (any (λ j. equal j k) ids) later, other)
  ]
]
  where
    apart :
        (equal id k ≡ true) ⊎ (equal id k ≡ false)
        → equal i id ≡ false
        → equal i k ≡ true
        → equal id k ≡ false
    apart (inl x) p q =
        absurd
          (ground (arith, p, (equal_iff i id).1 ((equal_iff i k).0 q ∙ sym ((equal_iff id k).0 x))))
    apart (inr x) p q = x

module _ (json : Json) (s : Live) (h : IsSound s) where
  abbrev row : Bytes → Option Job
  row id = get_job id s.system.table

  run-IsSound :
      (p : CreatePayload) (id : Bytes) {t : Jobs}
      → create json p id s.system.table ≡ some t
      → IsSound (record {
        system = record { table = t; cancels = id ∷ s.system.cancels };
        phases = set id spawned s.phases;
        cancelled = λ k. not (equal id k) && s.cancelled k;
      })
  unfolding create insert_job pending_job
  run-IsSound p id {t = t} e =
      let j = pending_job json p id in
      let (new, same) =
        unless_some (any (has_key id_of id) s.system.table) (s.system.table ++ j ∷ []) t e in
      record {
        unique = subst (IsUnique id_of) same (snoc-IsUnique id_of s.system.table j h.unique new);
        fits = λ k q r.
            subst (λ (x : Jobs). Fits q (get_job k x)) same
              (subst (Fits q) (sym (find_key-snoc id_of k s.system.table j new))
                (fitted k q (Bool-cases (equal id k)) r));
        cancellable = λ k r. called k (Bool-cases (equal id k)) r;
        once = λ k r. afresh k (Bool-cases (equal id k)) r;
        cut = λ k r. older k (Bool-cases (equal id k)) r;
      }
    where
      afresh :
          (k : Bytes)
          → (equal id k ≡ true) ⊎ (equal id k ≡ false)
          → any (λ i. equal i k) (id ∷ s.system.cancels) ≡ true
          → (not (equal id k) && s.cancelled k) ≡ false
      afresh k (inl a) r = rw a refl
      afresh k (inr a) r = rw (a, h.once k (rw a at r)) refl

      older :
          (k : Bytes)
          → (equal id k ≡ true) ⊎ (equal id k ≡ false)
          → set id spawned s.phases k ≡ some unrecorded
          → (not (equal id k) && s.cancelled k) ≡ true
      older k (inl a) r = absurd (never (rw a at r))
        where
          never : ¬ ◌≡◌ {A = Option Phase} (some spawned) (some unrecorded)
          never x = cc
      older k (inr a) r = rw (a, h.cut k (rw a at r)) refl

      fitted :
          (k : Bytes) (q : Phase)
          → (equal id k ≡ true) ⊎ (equal id k ≡ false)
          → set id spawned s.phases k ≡ some q
          → Fits q (if equal id k then some (pending_job json p id) else get_job k s.system.table)
      fitted k q (inl a) r = rw a (
          subst (λ x. Fits x (some (pending_job json p id))) (first (rw a at r)) (refl, refl, refl))
        where
          first : ◌≡◌ {A = Option Phase} (some spawned) (some q) → spawned ≡ q
          first x = cc
      fitted k q (inr a) r = rw a (h.fits k q (rw a at r))

      called :
          (k : Bytes)
          → (equal id k ≡ true) ⊎ (equal id k ≡ false)
          → any (λ i. equal i k) (id ∷ s.system.cancels) ≡ true
          → (set id spawned s.phases k ≡ some spawned) ⊎ (set id spawned s.phases k ≡ some working)
      called k (inl a) r = inl (rw a refl)
      called k (inr a) r =
          subst (λ (o : Option Phase). (o ≡ some spawned) ⊎ (o ≡ some working))
            (sym (set_other id spawned s.phases k a)) (h.cancellable k (rw a at r))

  begin-IsSound :
      (now : ℤ) (id : Bytes)
      → s.phases id ≡ some spawned
      → IsSound (record (with_table (or_logged s.system.table (start now id s.system.table)) s) {
        phases = set id working s.phases;
      })
  unfolding start
  begin-IsSound now id e = record {
    unique = after-IsUnique s h id (start_update now) refl;
    fits =
        after-Fits s h id (start_update now) refl (set id working s.phases)
          (λ p q.
            subst (λ x. Fits x (changed id_of (updated_job (start_update now)) (row id)))
              (set_self id working s.phases p q) (begun now (row id) (h.fits id spawned e)))
          (λ k q. set_other id working s.phases k q);
    cancellable = λ k r. called k (Bool-cases (equal id k)) r;
    once = h.once;
    cut = λ k r. older k (Bool-cases (equal id k)) r;
  }
    where
      older :
          (k : Bytes)
          → (equal id k ≡ true) ⊎ (equal id k ≡ false)
          → set id working s.phases k ≡ some unrecorded
          → s.cancelled k ≡ true
      older k (inl a) r = absurd (never (rw a at r))
        where
          never : ¬ ◌≡◌ {A = Option Phase} (some working) (some unrecorded)
          never x = cc
      older k (inr a) r = h.cut k (rw a at r)

      called :
          (k : Bytes)
          → (equal id k ≡ true) ⊎ (equal id k ≡ false)
          → any (λ i. equal i k) s.system.cancels ≡ true
          → (set id working s.phases k ≡ some spawned) ⊎ (set id working s.phases k ≡ some working)
      called k (inl a) r = inr (rw a refl)
      called k (inr a) r =
          subst (λ (o : Option Phase). (o ≡ some spawned) ⊎ (o ≡ some working))
            (sym (set_other id working s.phases k a)) (h.cancellable k r)

  begin_cancelled-IsSound :
      (id : Bytes)
      → s.phases id ≡ some spawned
      → s.cancelled id ≡ true
      → IsSound (record s { phases = set id unrecorded s.phases })
  begin_cancelled-IsSound id e c = record {
    unique = h.unique;
    fits = λ k p r. fitted k p (Bool-cases (equal id k)) r;
    cancellable = λ k r. called k (Bool-cases (equal id k)) r;
    once = h.once;
    cut = λ k r. older k (Bool-cases (equal id k)) r;
  }
    where
      fitted :
          (k : Bytes) (p : Phase)
          → (equal id k ≡ true) ⊎ (equal id k ≡ false)
          → set id unrecorded s.phases k ≡ some p
          → Fits p (row k)
      fitted k p (inl a) r =
          subst (λ q. Fits q (row k)) (first (rw a at r))
            (subst (λ i. Fits spawned (row i)) ((equal_iff id k).0 a) (h.fits id spawned e))
        where
          first : ◌≡◌ {A = Option Phase} (some unrecorded) (some p) → unrecorded ≡ p
          first x = cc
      fitted k p (inr a) r = h.fits k p (rw a at r)

      called :
          (k : Bytes)
          → (equal id k ≡ true) ⊎ (equal id k ≡ false)
          → any (λ i. equal i k) s.system.cancels ≡ true
          → (set id unrecorded s.phases k ≡ some spawned)
            ⊎ (set id unrecorded s.phases k ≡ some working)
      called k (inl a) r =
          let here : s.cancelled k ≡ true =
            subst (λ i. s.cancelled i ≡ true) ((equal_iff id k).0 a) c in
          let not_here : s.cancelled k ≡ false = h.once k r in
          absurd (ground (arith, here, not_here))
      called k (inr a) r =
          subst (λ (o : Option Phase). (o ≡ some spawned) ⊎ (o ≡ some working))
            (sym (set_other id unrecorded s.phases k a)) (h.cancellable k r)

      older :
          (k : Bytes)
          → (equal id k ≡ true) ⊎ (equal id k ≡ false)
          → set id unrecorded s.phases k ≡ some unrecorded
          → s.cancelled k ≡ true
      older k (inl a) r = subst (λ i. s.cancelled i ≡ true) ((equal_iff id k).0 a) c
      older k (inr a) r = h.cut k (rw a at r)

  -- A write to a working row that leaves its state and its times.
  working-IsSound :
      (id : Bytes) (u : JobUpdate)
      → sets_nothing u ≡ false
      → u.state ≡ none
      → u.started_at ≡ none
      → u.finished_at ≡ none
      → IsActive s id
      → IsSound (with_table (or_logged s.system.table (update_job id u s.system.table)) s)
  working-IsSound id u n a b c (recorded e) = continued s h id u n λ p q.
      subst (λ x. Fits x (changed id_of (updated_job u) (row id))) (only e q)
        (kept_working u (row id) a b c (h.fits id working e))
  working-IsSound id u n a b c (not_recorded e) = continued s h id u n λ p q.
      subst (λ x. Fits x (changed id_of (updated_job u) (row id))) (only e q)
        (kept_spawned u (row id) a b c (h.fits id unrecorded e))

  -- The row of a job at work is there.
  there : (id : Bytes) → IsActive s id → ¬ (row id ≡ none)
  there id (recorded e) q = subst (Fits working) q (h.fits id working e)
  there id (not_recorded e) q = subst (Fits unrecorded) q (h.fits id unrecorded e)

  report-IsSound :
      (id : Bytes) (p : Progress)
      → IsActive s id
      → IsSound (with_table (or_logged s.system.table (update_progress json id p s.system.table)) s)
  unfolding update_progress
  report-IsSound id p e = by (row id) (there id e)
    where
      by :
          (o : Option Job)
          → ¬ (o ≡ none)
          → IsSound
              (with_table (or_logged s.system.table (update_found json id p s.system.table o)) s)
      by none f = absurd (f refl)
      by (some j) f = working-IsSound id (progress_update json p j) refl refl refl refl e

  ended-IsSound :
      (now : ℤ) (id : Bytes) (u : JobUpdate)
      → sets_nothing u ≡ false
      → (u.state ≡ some completed) ⊎ (u.state ≡ some failed)
      → u.finished_at ≡ some now
      → IsSound (record s {
        system = record {
          table = or_logged s.system.table (update_job id u s.system.table);
          cancels = clear_cancel id s.system.cancels;
        };
        phases = set id done s.phases;
      })
  ended-IsSound now id u n a b =
      ended s h id u n (clear_cancel id s.system.cancels)
        (λ k q. clear_cancel-other id k s.system.cancels q) (finished u (row id) now a b)

stop-IsSound : (id : Bytes) (s : Live) → IsSound s → IsSound (stopped id s)
unfolding cancel
stop-IsSound id s h = record {
  unique = h.unique;
  fits = h.fits;
  cancellable = λ k r. h.cancellable k (clear_cancel-other id k s.system.cancels r).0;
  once = λ k r.
      let (old, other) = clear_cancel-other id k s.system.cancels r in
      rw (other, h.once k old) refl;
  cut = λ k r. or_right _ (s.cancelled k) (h.cut k r);
}

Step-IsSound : (json : Json) (s s' : Live) → Step json s s' → IsSound s → IsSound s'
unfolding complete fail attach_script_output
Step-IsSound json s s' (run p id e) h = run-IsSound json s h p id e
Step-IsSound json s s' (begin now id e c) h = begin-IsSound json s h now id e
Step-IsSound json s s' (begin_cancelled id e c) h = begin_cancelled-IsSound json s h id e c
Step-IsSound json s s' (report id p e c) h = report-IsSound json s h id p e
Step-IsSound json s s' (print id out e q c) h =
    working-IsSound json s h id (output_update out e) refl refl refl refl q
Step-IsSound json s s' (succeed now id e) h =
    ended-IsSound json s h now id (complete_update now) refl (inl refl) refl
Step-IsSound json s s' (break_off now id message e) h =
    ended-IsSound json s h now id (fail_update json now message) refl (inr refl) refl
Step-IsSound json s s' (stop id) h = stop-IsSound id s h
Step-IsSound json s s' (collect now retention) h = collect-IsSound now retention s h

-- However jobs run side by side, are cancelled, and old rows are collected: ids in the table are
-- distinct; the row of a job says where its goroutine stands (pending and without times before it
-- begins, running with a start and no end while it works, completed or failed with an end when it is
-- done), with one exception: a job whose context was cancelled when it began works with its row still
-- pending and without times; the row of a job that is not done is never collected; and only jobs that
-- are not done, and were not cancelled before, can be cancelled.
pub Reach-IsSound : (json : Json) (s : Live) → Reach json s → IsSound s
Reach-IsSound json s nothing = record {
  unique = tt;
  fits = λ id p e. absurd (cc);
  cancellable = λ id e. absurd (cc);
  once = λ id e. refl;
  cut = λ id e. absurd (cc);
}
Reach-IsSound json s (then_step {s = r} reach step) =
    Step-IsSound json r s step (Reach-IsSound json r reach)
