-- ===== src/Catalog/Jobs.antt =====
-- internal/catalog/catalog.go: the statements on the table jobs, whose primary key is the id. A NULL
-- column is `none`.
use logpond.Base.{
  Bool, true, false, not, ◌&&◌, ◌||◌, List, [], ◌∷◌, ◌++◌, Option, none, some, any, filter,
  if◌then◌else◌,
}
use logpond.Base.Text.{Bytes, codes, equal}
use logpond.Base.Int.{ℤ, ltb_ℤ}
use logpond.Base.Unique.{has_key, update_at}
use logpond.Base.Find.{find_key}

abbrev pub pending : Bytes
pending = codes "pending"

abbrev pub running : Bytes
running = codes "running"

abbrev pub completed : Bytes
completed = codes "completed"

abbrev pub failed : Bytes
failed = codes "failed"

pub record Job : Type 0 where
  pub id : Bytes
  pub kind : Bytes
  pub state : Bytes
  pub payload_json : Bytes
  pub progress_json : Option Bytes
  pub script_stdout : Option Bytes
  pub script_stderr : Option Bytes
  pub started_at : Option ℤ
  pub finished_at : Option ℤ
  pub error_json : Option Bytes

-- A pointer that is nil leaves its column unchanged.
pub record JobUpdate : Type 0 where
  pub state : Option Bytes
  pub progress_json : Option Bytes
  pub script_stdout : Option Bytes
  pub script_stderr : Option Bytes
  pub started_at : Option ℤ
  pub finished_at : Option ℤ
  pub error_json : Option Bytes

abbrev pub no_update : JobUpdate
no_update = record {
  state = none;
  progress_json = none;
  script_stdout = none;
  script_stderr = none;
  started_at = none;
  finished_at = none;
  error_json = none;
}

abbrev pub Jobs : Type 0
Jobs = List Job

abbrev pub id_of : Job → Bytes
id_of j = j.id

-- InsertJob; no result if the id is taken.
unfoldable pub insert_job : Job → Jobs → Option Jobs
insert_job j t = if any (has_key id_of j.id) t then none else some (t ++ j ∷ [])

-- GetJob
abbrev pub get_job : Bytes → Jobs → Option Job
get_job id t = find_key id_of id t

-- A column of text: the empty string clears it.
abbrev pub text_column : Option Bytes → Option Bytes → Option Bytes
text_column none old = old
text_column (some s) old = if equal s [] then none else some s

abbrev state_column : Option Bytes → Bytes → Bytes
state_column none old = old
state_column (some s) old = s

abbrev time_column : Option ℤ → Option ℤ → Option ℤ
time_column none old = old
time_column (some at) old = some at

unfoldable pub updated_job : JobUpdate → Job → Job
updated_job u j = record j {
  state = state_column u.state j.state;
  progress_json = text_column u.progress_json j.progress_json;
  script_stdout = text_column u.script_stdout j.script_stdout;
  script_stderr = text_column u.script_stderr j.script_stderr;
  started_at = time_column u.started_at j.started_at;
  finished_at = time_column u.finished_at j.finished_at;
  error_json = text_column u.error_json j.error_json;
}

abbrev is_nil : {A : Type 0} → Option A → Bool
is_nil none = true
is_nil (some x) = false

abbrev pub sets_nothing : JobUpdate → Bool
sets_nothing u =
    is_nil u.state
    && is_nil u.progress_json
    && is_nil u.script_stdout
    && is_nil u.script_stderr
    && is_nil u.started_at
    && is_nil u.finished_at
    && is_nil u.error_json

-- UpdateJob; no result is sql.ErrNoRows. An update that sets nothing is no statement at all.
unfoldable pub update_job : Bytes → JobUpdate → Jobs → Option Jobs
update_job id u t =
    if sets_nothing u
    then some t
    else if any (has_key id_of id) t
    then some (update_at id_of id (updated_job u) t)
    else none

abbrev pub is_before : ℤ → Option ℤ → Bool
is_before cutoff none = false
is_before cutoff (some at) = ltb_ℤ at cutoff

abbrev pub is_collected : ℤ → Job → Bool
is_collected cutoff j =
    (equal j.state completed || equal j.state failed) && is_before cutoff j.finished_at

-- DeleteJobsOlderThan, without the number of rows
unfoldable pub delete_jobs_older_than : ℤ → Jobs → Jobs
delete_jobs_older_than cutoff t = filter (λ j. not (is_collected cutoff j)) t
