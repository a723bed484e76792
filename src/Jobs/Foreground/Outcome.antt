-- ===== src/Jobs/Foreground/Outcome.antt =====
-- internal/jobs/manager.go: the row that RunForeground leaves.
use logpond.Base.{
  ℕ, zero, suc, length, ltb, Bool, true, ◌&&◌, if◌then◌else◌, ◌≡◌, refl, sym, subst, ap, ◌∙◌, false,
  List, [], ◌∷◌, ◌++◌, Option, none, some, any,
}
use logpond.Base.Text.{Bytes, equal, equal_refl}
use logpond.Base.Int.{ℤ}
use logpond.Base.Unique.{has_key, update_at}
use logpond.Base.Find.{
  changed, find_key-snoc, find_key-any, find_key-update_self, find_key-update_other,
}
use logpond.Catalog.Jobs.{
  Job, JobUpdate, Jobs, running, completed, failed, id_of, insert_job, get_job, updated_job,
  update_job, sets_nothing,
}
use logpond.Jobs.Manager.{
  Json, CreatePayload, pending_job, create, start, start_update, update_progress, progress_update,
  update_found, attach_script_output, output_update, or_logged,
}
use logpond.Jobs.Lifecycle.Sound.{updated_job-id, logged-update_job}
use logpond.Jobs.Foreground.{
  Call, report, print, calls, final_update, run_foreground, Returned, is_none, recorded, worked,
}

-- What a working row keeps: its state and its times.
pub record IsRunning (at : ℤ) (j : Job) : Type 0 where
  pub state : j.state ≡ running
  pub started_at : j.started_at ≡ some at
  pub finished_at : j.finished_at ≡ none

abbrev Holds : (Job → Type 0) → Option Job → Type 0
Holds P none = ⊥
Holds P (some j) = P j

module _ (id : Bytes) (u : JobUpdate) (n : sets_nothing u ≡ false) (t : Jobs) where
  written_self :
      get_job id (or_logged t (update_job id u t)) ≡ changed id_of (updated_job u) (get_job id t)
  written_self =
      ap (get_job id) (logged-update_job id u t n)
      ∙ find_key-update_self id_of (updated_job u) (updated_job-id u) id t

  written_other :
      (k : Bytes) → equal id k ≡ false → get_job k (or_logged t (update_job id u t)) ≡ get_job k t
  written_other k q =
      ap (get_job k) (logged-update_job id u t n)
      ∙ find_key-update_other id_of (updated_job u) (updated_job-id u) k id t q

module _ (json : Json) (id : Bytes) (at : ℤ) where
  quiet :
      (u : JobUpdate) (o : Option Job)
      → u.state ≡ none
      → u.started_at ≡ none
      → u.finished_at ≡ none
      → Holds (IsRunning at) o
      → Holds (IsRunning at) (changed id_of (updated_job u) o)
  unfolding updated_job
  quiet u none a b c h = h
  quiet u (some j) a b c h = record {
    state = rw a h.state;
    started_at = rw b h.started_at;
    finished_at = rw c h.finished_at;
  }

  called :
      (c : Call) (t : Jobs)
      → Holds (IsRunning at) (get_job id t)
      → let t' = calls json id 1 (c ∷ []) t in
        Holds (IsRunning at) (get_job id t')
        × ((k : Bytes) → equal id k ≡ false → get_job k t' ≡ get_job k t)
  unfolding update_progress attach_script_output
  called (print out e) t h = (
    subst (Holds (IsRunning at)) (sym (written_self id (output_update out e) refl t))
        (quiet (output_update out e) (get_job id t) refl refl refl h),
    written_other id (output_update out e) refl t,
  )
  called (report p) t h = by (get_job id t) refl h
    where
      by :
          (o : Option Job)
          → get_job id t ≡ o
          → Holds (IsRunning at) o
          → let t' = or_logged t (update_found json id p t o) in
            Holds (IsRunning at) (get_job id t')
            × ((k : Bytes) → equal id k ≡ false → get_job k t' ≡ get_job k t)
      by none q f = absurd f
      by (some j) q f =
          let u = progress_update json p j in
          (
            subst (Holds (IsRunning at))
                (sym (written_self id u refl t ∙ ap (changed id_of (updated_job u)) q))
                (quiet u (some j) refl refl refl f),
            written_other id u refl t,
          )

  calls-cons :
      (lasts : ℕ) (c : Call) (cs : List Call) (t : Jobs)
      → calls json id (suc lasts) (c ∷ cs) t ≡ calls json id lasts cs (calls json id 1 (c ∷ []) t)
  calls-cons lasts (report p) cs t = refl
  calls-cons lasts (print out e) cs t = refl

  all_called :
      (lasts : ℕ) (cs : List Call) (t : Jobs)
      → Holds (IsRunning at) (get_job id t)
      → let t' = calls json id lasts cs t in
        Holds (IsRunning at) (get_job id t')
        × ((k : Bytes) → equal id k ≡ false → get_job k t' ≡ get_job k t)
  all_called lasts [] t h = (h, λ k q. refl)
  all_called zero (c ∷ cs) t h = (h, λ k q. refl)
  all_called (suc lasts) (c ∷ cs) t h =
      let (next, kept) = called c t h in
      let (last, later) = all_called lasts cs (calls json id 1 (c ∷ []) t) next in
      (
        subst (λ (x : Jobs). Holds (IsRunning at) (get_job id x)) (sym (calls-cons lasts c cs t))
            last,
        λ k q. ap (get_job k) (calls-cons lasts c cs t) ∙ later k q ∙ kept k q,
      )

abbrev pub final_state : Option Bytes → Bytes
final_state none = completed
final_state (some message) = failed

abbrev pub final_error : Json → Option Bytes → Option Bytes
final_error json none = none
final_error json (some message) = some (json.write_error message)

final_sets :
    (json : Json) (now : ℤ) (r : Option Bytes) → sets_nothing (final_update json now r) ≡ false
final_sets json now none = refl
final_sets json now (some m) = refl

-- How a job that has run is recorded.
pub record Ended (json : Json) (started_at ended_at : ℤ) (result : Option Bytes) (j : Job)
    : Type 0 where
  pub state : j.state ≡ final_state result
  pub started_at_is : j.started_at ≡ some started_at
  pub finished_at_is : j.finished_at ≡ some ended_at

ending :
    (json : Json) (at now : ℤ) (r : Option Bytes) (o : Option Job)
    → Holds (IsRunning at) o
    → (j : Job) × (changed id_of (updated_job (final_update json now r)) o ≡ some j)
      × Ended json at now r j
unfolding updated_job
ending json at now r none h = absurd h
ending json at now none (some j) h =
    (_, refl, record { state = refl; started_at_is = h.started_at; finished_at_is = refl })
ending json at now (some m) (some j) h =
    (_, refl, record { state = refl; started_at_is = h.started_at; finished_at_is = refl })

pub update_job-found :
    (id : Bytes) (u : JobUpdate) (t : Jobs) {j : Job}
    → sets_nothing u ≡ false
    → get_job id t ≡ some j
    → update_job id u t ≡ some (update_at id_of id (updated_job u) t)
unfolding update_job
update_job-found id u t n h = rw (n, find_key-any id_of id t h) refl

begins :
    (at : ℤ) (j : Job)
    → j.finished_at ≡ none
    → Holds (IsRunning at) (changed id_of (updated_job (start_update at)) (some j))
unfolding updated_job
begins at j h = record { state = refl; started_at = refl; finished_at = h }

-- The row of a job whose Start has returned, by whether the context lasts beyond its work.
abbrev pub Row : Json → ℤ → ℤ → Option Bytes → Bool → Job → Type 0
Row json started_at ended_at result true j = Ended json started_at ended_at result j
Row json started_at ended_at result false j = IsRunning started_at j

module _ (json : Json) (id : Bytes) (at ended_at : ℤ) (lasts : ℕ) (cs : List Call)
    (result : Option Bytes) (t : Jobs) (works : Holds (IsRunning at) (get_job id t)) where
  abbrev called_table : Jobs
  called_table = calls json id lasts cs t

  worked-Row :
      let r = worked json id ended_at lasts cs result t in
      (j : Job) × (get_job id r.table ≡ some j)
      × Row json at ended_at result (ltb (length cs) lasts) j
      × (r.ok ≡ (ltb (length cs) lasts && is_none result))
      × ((k : Bytes) → equal id k ≡ false → get_job k r.table ≡ get_job k t)
  worked-Row = by (ltb (length cs) lasts) (all_called json id at lasts cs t works)
    where
      found : (o : Option Job) → Holds (IsRunning at) o → (j : Job) × (o ≡ some j) × IsRunning at j
      found none h = absurd h
      found (some j) h = (j, refl, h)

      by :
          (b : Bool)
          → Holds (IsRunning at) (get_job id called_table)
            × ((k : Bytes) → equal id k ≡ false → get_job k called_table ≡ get_job k t)
          → let r = recorded result called_table (
              if b then update_job id (final_update json ended_at result) called_table else none) in
            (j : Job) × (get_job id r.table ≡ some j)
            × Row json at ended_at result b j
            × (r.ok ≡ (b && is_none result))
            × ((k : Bytes) → equal id k ≡ false → get_job k r.table ≡ get_job k t)
      by false (still, same) =
          let (j, q, runs) = found (get_job id called_table) still in (j, q, runs, refl, same)
      by true (still, same) =
          let v = final_update json ended_at result in
          let n = final_sets json ended_at result in
          let (j, last, ended) = ending json at ended_at result (get_job id called_table) still in
          let (i, there, _) = found (get_job id called_table) still in
          rw (update_job-found id v called_table n there) (
            j,
            find_key-update_self id_of (updated_job v) (updated_job-id v) id called_table ∙ last,
            ended,
            refl,
            λ k q.
                find_key-update_other id_of (updated_job v) (updated_job-id v) k id called_table q
                ∙ same k q,
          )

-- What RunForeground leaves, by the number of calls before the end of the context.
abbrev pub Leaves :
    Json → CreatePayload → Bytes → ℤ → ℤ → ℕ → ℕ → Option Bytes → Jobs → Returned → Type 0
Leaves json p id started_at ended_at zero n result t r = (r.table ≡ t) × (r.ok ≡ false)
Leaves json p id started_at ended_at (suc zero) n result t r =
    (get_job id r.table ≡ some (pending_job json p id)) × (r.ok ≡ false)
Leaves json p id started_at ended_at (suc (suc lasts)) n result t r =
    (j : Job) × (get_job id r.table ≡ some j)
    × Row json started_at ended_at result (ltb n lasts) j
    × (r.ok ≡ (ltb n lasts && is_none result))

-- What RunForeground of a new job leaves, whatever its work reports and whenever the caller's context
-- ends. If the context lasts beyond the work, the row of the job is completed if the work ended
-- without an error, and failed if not, with the times of its start and its end. If it ends between
-- Start and the last write, the row stays running, with its start and no end; before Start, it stays
-- pending; before Create, the table stays. No error is returned exactly if the last write is made and
-- the work had none. Every other row is what it was.
pub run_foreground-Leaves :
    (json : Json) (p : CreatePayload) (id : Bytes) (started_at ended_at : ℤ) (lasts : ℕ)
    (cs : List Call) (result : Option Bytes) (t : Jobs)
    → any (has_key id_of id) t ≡ false
    → let r = run_foreground json p id started_at ended_at lasts cs result t in
      Leaves json p id started_at ended_at lasts (length cs) result t r
      × ((k : Bytes) → equal id k ≡ false → get_job k r.table ≡ get_job k t)
unfolding run_foreground create insert_job start pending_job
run_foreground-Leaves json p id started_at ended_at zero cs result t new =
    ((refl, refl), λ k q. refl)
run_foreground-Leaves json p id started_at ended_at (suc zero) cs result t new =
    let j0 = pending_job json p id in
    rw new (
      (find_key-snoc id_of id t j0 new ∙ rw (equal_refl id) refl, refl),
      λ k q. find_key-snoc id_of k t j0 new ∙ rw q refl,
    )
run_foreground-Leaves json p id started_at ended_at (suc (suc lasts)) cs result t new =
    let j0 = pending_job json p id in
    let t0 : Jobs = t ++ j0 ∷ [] in
    let found : get_job id t0 ≡ some j0 =
      find_key-snoc id_of id t j0 new ∙ rw (equal_refl id) refl in
    let u = start_update started_at in
    let t1 : Jobs = update_at id_of id (updated_job u) t0 in
    let begun : get_job id t1 ≡ changed id_of (updated_job u) (some j0) =
      find_key-update_self id_of (updated_job u) (updated_job-id u) id t0
      ∙ ap (changed id_of (updated_job u)) found in
    let works : Holds (IsRunning started_at) (get_job id t1) =
      subst (Holds (IsRunning started_at)) (sym begun) (begins started_at j0 refl) in
    let (j, last, row, ok, same) =
      worked-Row json id started_at ended_at lasts cs result t1 works in
    rw (new, update_job-found id u t0 refl found)
      (
        (j, last, row, ok),
        λ k q.
            same k q
            ∙ find_key-update_other id_of (updated_job u) (updated_job-id u) k id t0 q
            ∙ find_key-snoc id_of k t j0 new
            ∙ rw q refl,
      )
