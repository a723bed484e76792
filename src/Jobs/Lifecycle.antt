-- ===== src/Jobs/Lifecycle.antt =====
-- internal/jobs/manager.go: jobs that run side by side in the background (Run), with cancellations and
-- the collection of old rows between their steps.
pub mod Sound
pub mod Collected
pub mod Steps
use logpond.Base.{
  ℕ, ◌≡◌, refl, sym, subst, ap, ◌∙◌, Bool, true, false, not, ◌&&◌, ◌||◌, List, [], ◌∷◌, ◌++◌,
  Option, none, some, arith, any, filter, if◌then◌else◌, Bool-cases, inl, inr, ◌⊎◌, or_right,
}
use logpond.Base.Text.{Bytes, codes, equal, equal_iff, equal_refl}
use logpond.Base.Int.{ℤ, ◌-ℤ◌}
use logpond.Base.Unique.{
  has_key, IsUnique, update_at, update_at-IsUnique, update_at-absent, snoc-IsUnique,
  filter-IsUnique,
}
use logpond.Base.Find.{
  changed, kept_by, find_key-snoc, find_key-update_self, find_key-update_other, find_key-filter,
}
use logpond.Catalog.Jobs.{
  Job, JobUpdate, Jobs, pending, running, completed, failed, id_of, insert_job, get_job,
  updated_job, update_job, sets_nothing, delete_jobs_older_than, is_collected, is_before,
}
use logpond.Jobs.Manager.{
  Progress, Json, System, CreatePayload, pending_job, create, start, start_update, update_progress,
  progress_update, attach_script_output, output_update, clear_cancel, complete, complete_update,
  fail, fail_update, or_logged, cancel, gc,
}

-- Where the goroutine of a job stands. Its work is `unrecorded` if its context was cancelled when
-- Start was called, whose error is only logged.
pub data Phase : Type 0 where
  spawned : Phase
  working : Phase
  unrecorded : Phase
  done : Phase

abbrev pub Phases : Type 0
Phases = Bytes → Option Phase

abbrev pub set : Bytes → Phase → Phases → Phases
set id p f k = if equal id k then some p else f k

-- The manager, the goroutines that Run has started, and the jobs whose context Cancel has cancelled.
pub record Live : Type 0 where
  pub system : System
  pub phases : Phases
  pub cancelled : Bytes → Bool

abbrev pub with_table : Jobs → Live → Live
with_table t s = record s { system = record (s.system) { table = t } }

-- Cancel calls the cancel function that it finds.
abbrev pub stopped : Bytes → Live → Live
stopped id s =
    let (found, system) = cancel id s.system in
    record s { system = system; cancelled = λ k. (equal id k && found) || s.cancelled k }

-- The work of the job goes on.
pub data IsActive (s : Live) (id : Bytes) : Type 0 where
  recorded : s.phases id ≡ some working → IsActive s id
  not_recorded : s.phases id ≡ some unrecorded → IsActive s id

module _ (json : Json) where
  -- Start and the work use the context of the job: once it is cancelled their writes fail, and a call
  -- of UpdateProgress or AttachScriptOutput changes nothing. The last write has a context of its own.
  pub data Step (s : Live) : Live → Type 0 where
    run :
        {t : Jobs} (p : CreatePayload) (id : Bytes)
        → create json p id s.system.table ≡ some t
        → Step s (record {
          system = record { table = t; cancels = id ∷ s.system.cancels };
          phases = set id spawned s.phases;
          cancelled = λ k. not (equal id k) && s.cancelled k;
        })
    begin :
        (now : ℤ) (id : Bytes)
        → s.phases id ≡ some spawned
        → s.cancelled id ≡ false
        → Step s (record (with_table (or_logged s.system.table (start now id s.system.table)) s) {
          phases = set id working s.phases;
        })
    begin_cancelled :
        (id : Bytes)
        → s.phases id ≡ some spawned
        → s.cancelled id ≡ true
        → Step s (record s { phases = set id unrecorded s.phases })
    report :
        (id : Bytes) (p : Progress)
        → IsActive s id
        → s.cancelled id ≡ false
        → Step s
            (with_table (or_logged s.system.table (update_progress json id p s.system.table)) s)
    print :
        (id out e : Bytes)
        → IsActive s id
        → s.cancelled id ≡ false
        → Step s
            (with_table (or_logged s.system.table (attach_script_output id out e s.system.table)) s)
    succeed :
        (now : ℤ) (id : Bytes)
        → IsActive s id
        → Step s (record s { system = complete now id s.system; phases = set id done s.phases })
    break_off :
        (now : ℤ) (id message : Bytes)
        → IsActive s id
        → Step s
            (record s { system = fail json now id message s.system; phases = set id done s.phases })
    stop : (id : Bytes) → Step s (stopped id s)
    collect : (now retention : ℤ) → Step s (with_table (gc now retention s.system.table) s)

  pub data Reach : Live → Type 0 where
    nothing : Reach (record {
      system = record { table = []; cancels = [] };
      phases = λ id. none;
      cancelled = λ id. false;
    })
    then_step : {s s' : Live} → Reach s → Step s s' → Reach s'

abbrev pub is_set : Option ℤ → Bool
is_set none = false
is_set (some at) = true

abbrev pub IsPending : Option Job → Type 0
IsPending none = ⊥
IsPending (some j) =
    (j.state ≡ pending) × (is_set j.started_at ≡ false) × (is_set j.finished_at ≡ false)

-- What the row of a job says, for each place where its goroutine stands. The row of a job that is done
-- may have been collected.
abbrev pub Fits : Phase → Option Job → Type 0
Fits spawned o = IsPending o
Fits working none = ⊥
Fits working (some j) =
    (j.state ≡ running) × (is_set j.started_at ≡ true) × (is_set j.finished_at ≡ false)
Fits unrecorded o = IsPending o
Fits done none = Unit
Fits done (some j) =
    (equal j.state completed || equal j.state failed ≡ true) × (is_set j.finished_at ≡ true)

pub record IsSound (s : Live) : Type 0 where
  pub unique : IsUnique id_of s.system.table
  pub fits : (id : Bytes) (p : Phase) → s.phases id ≡ some p → Fits p (get_job id s.system.table)
  pub cancellable :
      (id : Bytes)
      → any (λ k. equal k id) s.system.cancels ≡ true
      → (s.phases id ≡ some spawned) ⊎ (s.phases id ≡ some working)
  -- A job is cancelled once.
  pub once : (id : Bytes) → any (λ k. equal k id) s.system.cancels ≡ true → s.cancelled id ≡ false
  pub cut : (id : Bytes) → s.phases id ≡ some unrecorded → s.cancelled id ≡ true
