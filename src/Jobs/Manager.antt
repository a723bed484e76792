-- ===== src/Jobs/Manager.antt =====
-- internal/jobs/manager.go: the life of a job, in the table and in the process.
use logpond.Base.{
  ℕ, Bool, not, List, ◌∷◌, ◌++◌, Option, none, some, if◌then◌else◌, ltb, take, filter, any,
}
use logpond.Base.Text.{Bytes, codes, equal}
use logpond.Base.Int.{ℤ, ◌-ℤ◌}
use logpond.Catalog.Jobs.{
  Job, JobUpdate, no_update, Jobs, pending, running, completed, failed, insert_job, get_job,
  update_job, delete_jobs_older_than,
}

pub record Progress : Type 0 where
  pub completed : ℕ
  pub total : ℕ
  pub bytes_done : ℕ
  pub bytes_total : ℕ

-- JSON text of a progress and of an error message. What json.Unmarshal leaves in a zero Progress is
-- a function of the text.
pub record Json : Type 0 where
  pub write_progress : Progress → Bytes
  pub read_progress : Bytes → Progress
  pub write_error : Bytes → Bytes

-- The table, and the ids that have a cancel function.
pub record System : Type 0 where
  pub table : Jobs
  pub cancels : List Bytes

pub record CreatePayload : Type 0 where
  pub kind : Bytes
  pub payload : Bytes
  pub total_items : ℕ
  pub total_bytes : ℕ

-- NewID; `uuid` is the text of a random UUID.
unfoldable pub new_id : Bytes → Bytes → Bytes
new_id kind uuid = prefix kind ++ (b'-' ∷ take 8 uuid)
  where
    prefix : Bytes → Bytes
    prefix k =
        if equal k (codes "archive")
        then codes "arc"
        else if equal k (codes "rehydrate")
        then codes "reh"
        else if equal k (codes "verify")
        then codes "ver"
        else codes "job"

abbrev pub first_progress : CreatePayload → Progress
first_progress p = record {
  completed = 0;
  total = p.total_items;
  bytes_done = 0;
  bytes_total = p.total_bytes;
}

unfoldable pub pending_job : Json → CreatePayload → Bytes → Job
pending_job json p id = record {
  id = id;
  kind = p.kind;
  state = pending;
  payload_json = p.payload;
  progress_json = some (json.write_progress (first_progress p));
  script_stdout = none;
  script_stderr = none;
  started_at = none;
  finished_at = none;
  error_json = none;
}

-- Create, with the id that NewID gives
unfoldable pub create : Json → CreatePayload → Bytes → Jobs → Option Jobs
create json p id t = insert_job (pending_job json p id) t

-- Start
abbrev pub start_update : ℤ → JobUpdate
start_update now = record no_update { state = some running; started_at = some now }

unfoldable pub start : ℤ → Bytes → Jobs → Option Jobs
start now id t = update_job id (start_update now) t

abbrev pub stored_progress : Json → Option Bytes → Progress
stored_progress json none = record { completed = 0; total = 0; bytes_done = 0; bytes_total = 0 }
stored_progress json (some s) = json.read_progress s

abbrev or_old : ℕ → ℕ → ℕ
or_old new old = if ltb 0 new then new else old

unfoldable pub merged : Progress → Progress → Progress
merged cur p = record {
  completed = p.completed;
  total = or_old p.total cur.total;
  bytes_done = p.bytes_done;
  bytes_total = or_old p.bytes_total cur.bytes_total;
}

abbrev pub progress_update : Json → Progress → Job → JobUpdate
progress_update json p j = record no_update {
  progress_json = some (json.write_progress (merged (stored_progress json j.progress_json) p));
}

abbrev pub update_found : Json → Bytes → Progress → Jobs → Option Job → Option Jobs
update_found json id p t none = none
update_found json id p t (some j) = update_job id (progress_update json p j) t

-- UpdateProgress
unfoldable pub update_progress : Json → Bytes → Progress → Jobs → Option Jobs
update_progress json id p t = update_found json id p t (get_job id t)

abbrev pub output_update : Bytes → Bytes → JobUpdate
output_update out e = record no_update { script_stdout = some out; script_stderr = some e }

-- AttachScriptOutput
unfoldable pub attach_script_output : Bytes → Bytes → Bytes → Jobs → Option Jobs
attach_script_output id out e t = update_job id (output_update out e) t

-- clearCancel
unfoldable pub clear_cancel : Bytes → List Bytes → List Bytes
clear_cancel id ids = filter (λ k. not (equal k id)) ids

abbrev pub complete_update : ℤ → JobUpdate
complete_update now = record no_update { state = some completed; finished_at = some now }

abbrev pub fail_update : Json → ℤ → Bytes → JobUpdate
fail_update json now message = record no_update {
  state = some failed;
  finished_at = some now;
  error_json = some (json.write_error message);
}

-- A write whose error is only logged.
abbrev pub or_logged : Jobs → Option Jobs → Jobs
or_logged t none = t
or_logged t (some t') = t'

-- Complete
unfoldable pub complete : ℤ → Bytes → System → System
complete now id s = record {
  table = or_logged s.table (update_job id (complete_update now) s.table);
  cancels = clear_cancel id s.cancels;
}

-- Fail
unfoldable pub fail : Json → ℤ → Bytes → Bytes → System → System
fail json now id message s = record {
  table = or_logged s.table (update_job id (fail_update json now message) s.table);
  cancels = clear_cancel id s.cancels;
}

-- Cancel: whether the context of the job is cancelled
unfoldable pub cancel : Bytes → System → Bool × System
cancel id s = (any (λ k. equal k id) s.cancels, record s { cancels = clear_cancel id s.cancels })

-- GC
unfoldable pub gc : ℤ → ℤ → Jobs → Jobs
gc now retention t = delete_jobs_older_than (now -ℤ retention) t
