-- ===== src/Jobs/Foreground.antt =====
-- internal/jobs/manager.go: RunForeground, and the view of a job (Get).
pub mod Outcome
pub mod Views
use logpond.Base.{
  ℕ, zero, suc, length, ◌≡◌, refl, sym, subst, ap, ◌∙◌, Bool, true, false, List, [], ◌∷◌, ◌++◌,
  Option, none, some, arith, any, if◌then◌else◌, ltb, Bool-cases, inl, inr,
}
use logpond.Base.Text.{Bytes, equal, equal_iff, equal_refl}
use logpond.Base.Int.{ℤ}
use logpond.Base.Unique.{has_key, update_at, update_at-absent}
use logpond.Base.Find.{
  changed, find_key-snoc, find_key-any, find_key-update_self, find_key-update_other,
}
use logpond.Catalog.Jobs.{
  Job, JobUpdate, Jobs, running, completed, failed, id_of, insert_job, get_job, updated_job,
  update_job, sets_nothing, text_column,
}
use logpond.Jobs.Manager.{
  Progress, Json, CreatePayload, pending_job, create, start, start_update, update_progress,
  progress_update, update_found, stored_progress, merged, attach_script_output, output_update,
  complete_update, fail_update, or_logged,
}
use logpond.Jobs.Lifecycle.Sound.{updated_job-id, logged-update_job}

-- A call that the work of a job makes. Its error is the work's to handle; here the work goes on.
pub data Call : Type 0 where
  report : Progress → Call
  print : Bytes → Bytes → Call

-- The caller's context goes to every call of the manager, and the calls fail once it has ended.
-- `lasts` is how many calls come before that.
abbrev pub calls : Json → Bytes → ℕ → List Call → Jobs → Jobs
calls json id lasts [] t = t
calls json id zero (c ∷ cs) t = t
calls json id (suc lasts) (report p ∷ cs) t =
    calls json id lasts cs (or_logged t (update_progress json id p t))
calls json id (suc lasts) (print out e ∷ cs) t =
    calls json id lasts cs (or_logged t (attach_script_output id out e t))

-- The end of the work: `none` is no error.
abbrev pub final_update : Json → ℤ → Option Bytes → JobUpdate
final_update json now none = complete_update now
final_update json now (some message) = fail_update json now message

-- The table, and whether the call returned no error.
pub record Returned : Type 0 where
  pub table : Jobs
  pub ok : Bool

abbrev pub is_none : Option Bytes → Bool
is_none none = true
is_none (some message) = false

-- Fail or Complete, if the context lasts beyond the calls of the work. The error of Fail is left out:
-- the error of the work is returned.
abbrev pub recorded : Option Bytes → Jobs → Option Jobs → Returned
recorded result t none = record { table = t; ok = false }
recorded result t (some t') = record { table = t'; ok = is_none result }

abbrev pub worked : Json → Bytes → ℤ → ℕ → List Call → Option Bytes → Jobs → Returned
worked json id ended_at lasts cs result t =
    let t' = calls json id lasts cs t in
    recorded result t'
      (if ltb (length cs) lasts then update_job id (final_update json ended_at result) t' else none)

abbrev pub started : Json → Bytes → ℤ → ℕ → List Call → Option Bytes → Jobs → Option Jobs → Returned
started json id ended_at lasts cs result t none = record { table = t; ok = false }
started json id ended_at lasts cs result t (some t') = worked json id ended_at lasts cs result t'

abbrev pub created :
    Json → Bytes → ℤ → ℤ → ℕ → List Call → Option Bytes → Jobs → Option Jobs → Returned
created json id started_at ended_at lasts cs result t none = record { table = t; ok = false }
created json id started_at ended_at zero cs result t (some t') = record { table = t'; ok = false }
created json id started_at ended_at (suc lasts) cs result t (some t') =
    started json id ended_at lasts cs result t' (start started_at id t')

-- RunForeground; `result` is the error of the work.
unfoldable pub run_foreground :
    Json → CreatePayload → Bytes → ℤ → ℤ → ℕ → List Call → Option Bytes → Jobs → Returned
run_foreground json p id started_at ended_at zero cs result t = record { table = t; ok = false }
run_foreground json p id started_at ended_at (suc lasts) cs result t =
    created json id started_at ended_at lasts cs result t (create json p id t)

-- The fields of JobView that are not copied.
pub record JobView : Type 0 where
  pub state : Bytes
  pub progress : Progress
  pub script_stdout : Option Bytes
  pub script_stderr : Option Bytes

unfoldable pub view_of : Json → Job → JobView
view_of json j = record {
  state = j.state;
  progress = stored_progress json j.progress_json;
  script_stdout = j.script_stdout;
  script_stderr = j.script_stderr;
}

abbrev pub viewed : Json → Option Job → Option JobView
viewed json none = none
viewed json (some j) = some (view_of json j)

-- Get
unfoldable pub get_view : Json → Bytes → Jobs → Option JobView
get_view json id t = viewed json (get_job id t)
