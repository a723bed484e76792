-- ===== src/Tests/Background.antt =====
-- Runs of internal/jobs.
use logpond.Base.{◌≡◌, refl, false, not, ◌&&◌, [], ◌∷◌, ◌++◌, some, none}
use logpond.Base.Text.{Bytes, codes, equal}
use logpond.Base.Int.{pos, ◌-ℤ◌}
use logpond.Catalog.Jobs.{
  Job, Jobs, get_job, insert_job, update_job, updated_job, delete_jobs_older_than,
}
use logpond.Jobs.Manager.{
  Progress, Json, CreatePayload, new_id, pending_job, create, start, update_progress, complete, gc,
  or_logged,
}
use logpond.Jobs.Lifecycle.{
  spawned, working, unrecorded, done, set, Live, stopped, recorded, stop, begin_cancelled,
  with_table, IsSound, run, begin, succeed, collect, nothing, then_step,
}
use logpond.Jobs.Lifecycle.Steps.{Reach-IsSound}
use logpond.Jobs.Foreground.{Call, run_foreground, JobView, view_of, get_view}
use logpond.Jobs.Foreground.Outcome.{Leaves, run_foreground-Leaves}
use logpond.Jobs.Foreground.Views.{get_view-update_progress}

abbrev read : Bytes → Progress
read (a ∷ b ∷ c ∷ d ∷ []) = record { completed = a; total = b; bytes_done = c; bytes_total = d }
read _ = record { completed = 0; total = 0; bytes_done = 0; bytes_total = 0 }

-- Texts of four numbers.
abbrev json : Json
json = record {
  write_progress = λ p. p.completed ∷ p.total ∷ p.bytes_done ∷ p.bytes_total ∷ [];
  read_progress = read;
  write_error = λ m. b'!' ∷ m;
}

abbrev verify : CreatePayload
verify = record { kind = codes "verify"; payload = codes "{}"; total_items = 3; total_bytes = 0 }

abbrev half : Progress
half = record { completed = 2; total = 0; bytes_done = 7; bytes_total = 9 }

id_text : new_id (codes "verify") (codes "0123456789") ≡ codes "ver-01234567"
unfolding new_id equal
id_text = refl

abbrev job : Job
job = pending_job json verify (codes "a")

abbrev created : Live
created = record {
  system = record { table = job ∷ []; cancels = codes "a" ∷ [] };
  phases = set (codes "a") spawned (λ id. none);
  cancelled = λ k. not (equal (codes "a") k) && false;
}

abbrev begun : Live
begun = record (with_table (or_logged (job ∷ []) (start (pos 1) (codes "a") (job ∷ []))) created) {
  phases = set (codes "a") working created.phases;
}

abbrev ended : Live
ended = record begun {
  system = complete (pos 5) (codes "a") begun.system;
  phases = set (codes "a") done begun.phases;
}

abbrev collected : Live
collected = with_table (gc (pos 100) (pos 50) ended.system.table) ended

collected_empty : collected.system.table ≡ []
unfolding gc complete start update_job updated_job delete_jobs_older_than equal ◌-ℤ◌ pending_job
collected_empty = refl

-- Another job, which is cancelled before it begins.
abbrev spawned_b : Live
spawned_b = record {
  system = record {
    table = collected.system.table ++ pending_job json verify (codes "b") ∷ [];
    cancels = codes "b" ∷ collected.system.cancels;
  };
  phases = set (codes "b") spawned collected.phases;
  cancelled = λ k. not (equal (codes "b") k) && collected.cancelled k;
}

abbrev stopped_b : Live
stopped_b = stopped (codes "b") spawned_b

abbrev unrecorded_b : Live
unrecorded_b = record stopped_b { phases = set (codes "b") unrecorded stopped_b.phases }

Reach-IsSound_example : IsSound unrecorded_b
unfolding create insert_job pending_job equal gc delete_jobs_older_than complete update_job start
    updated_job ◌-ℤ◌ logpond.Jobs.Manager.cancel
Reach-IsSound_example = Reach-IsSound json unrecorded_b (
    then_step
      (then_step
        (then_step
          (then_step
            (then_step
              (then_step (then_step nothing (run verify (codes "a") refl))
                (begin (pos 1) (codes "a") refl refl))
              (succeed (pos 5) (codes "a") (recorded refl)))
            (collect (pos 100) (pos 50)))
          (run verify (codes "b") refl))
        (stop (codes "b")))
      (begin_cancelled (codes "b") refl refl))

-- The context ends after Create, Start and the one call of the work: the row is left running.
left_running :
    (run_foreground json verify (codes "b") (pos 1) (pos 2) 3 (Call.report half ∷ []) none []).ok
    ≡ false
unfolding run_foreground create insert_job start update_job update_progress equal pending_job
left_running = refl

run_foreground-Leaves_example :
    let r =
      run_foreground json verify
        (codes "b")
        (pos 1)
        (pos 2)
        4
        (Call.report half ∷ [])
        (some (codes "x"))
        (job ∷ []) in
    Leaves json verify (codes "b") (pos 1) (pos 2) 4 1 (some (codes "x")) (job ∷ []) r
    × ((k : Bytes) → equal (codes "b") k ≡ false → get_job k r.table ≡ get_job k (job ∷ []))
unfolding equal pending_job
run_foreground-Leaves_example =
    run_foreground-Leaves json verify (codes "b") (pos 1) (pos 2) 4 (Call.report half ∷ [])
      (some (codes "x")) (job ∷ []) refl

get_view-update_progress_example :
    let v = view_of json job in
    (t' : Jobs) × (v' : JobView) × (update_progress json (codes "a") half (job ∷ []) ≡ some t')
    × (get_view json (codes "a") t' ≡ some v')
    × (v'.progress
        ≡ record { completed = 2; total = v.progress.total; bytes_done = 7; bytes_total = 9 })
    × (v'.state ≡ v.state)
    × ((k : Bytes) → equal (codes "a") k ≡ false → get_view json k t' ≡ get_view json k (job ∷ []))
unfolding equal get_view pending_job
get_view-update_progress_example =
    get_view-update_progress json (codes "a") half (job ∷ []) (view_of json job) (λ q. refl)
      (λ q. refl) refl
