-- ===== src/Api/Rehydrate/Request.antt =====
-- internal/api/rehydrate.go: POST /api/rehydrate, its selection of segments and the start of its job.
use logpond.Base.{
  ℕ, ◌-◌, ◌*◌, ◌/◌, ◌%◌, Bool, not, ◌&&◌, ◌||◌, List, [], ◌∷◌, Option, none, some, length, filter,
  ltb, ◌==◌, if◌then◌else◌,
}
use logpond.Base.Int.{ℤ, pos, negsuc, ltb_ℤ}
use logpond.Base.Int64.{modulus, sign, add64, is_positive}
use logpond.Base.Result.{Result, ok, err}
use logpond.Base.Text.{Bytes, codes, equal}
use logpond.Catalog.Segment.{rehydrated, same_state, Segment, is_present, has_archive}
use logpond.Catalog.Table.{Table, get_segment}
use logpond.Catalog.Queries.{segments_in_range}
use logpond.Catalog.Jobs.{Jobs}
use logpond.Jobs.Manager.{Json, CreatePayload, create}

-- The request; an int is its bit pattern.
pub record RehydrateRequest : Type 0 where
  pub time_range : Option (ℤ × ℤ)
  pub segment_id : Bytes
  pub ttl_days : ℕ
  pub persistent : Bool

pub data SelectError : Type 0 where
  no_time_range : SelectError
  empty_time_range : SelectError

-- Still local, or with a copy in the archive.
abbrev pub can_rehydrate : Segment → Bool
can_rehydrate seg = same_state seg.state rehydrated && is_present seg.local_path || has_archive seg

abbrev pub one_of : Option Segment → List Segment
one_of none = []
one_of (some seg) = seg ∷ []

abbrev pub in_range : Table → Option (ℤ × ℤ) → Result SelectError (List Segment)
in_range t none = err no_time_range
in_range t (some (from, to)) =
    if ltb_ℤ from to
    then ok (filter can_rehydrate (segments_in_range from to t))
    else err empty_time_range

-- selectRehydrateCandidates, with the id after strings.TrimSpace.
unfoldable pub select_candidates : RehydrateRequest → Table → Result SelectError (List Segment)
select_candidates r t =
    if equal r.segment_id []
    then in_range t r.time_range
    else ok (one_of (get_segment t r.segment_id))

-- An int64 as a number.
abbrev signed_of : ℕ → ℤ
signed_of n = if ltb n sign then pos n else negsuc (modulus - n - 1)

-- `time.Duration(req.TTLDays) * 24 * time.Hour`, or the server's.
unfoldable pub ttl_of : ℕ → ℕ → ℤ
ttl_of default ttl_days =
    signed_of (if is_positive ttl_days then (ttl_days * 86400000000000) % modulus else default)

unfoldable pub sum_bytes : ℕ → List Segment → ℕ
sum_bytes sum [] = sum
sum_bytes sum (seg ∷ segs) = sum_bytes (add64 sum seg.size_bytes) segs

-- estimateRehydrateSeconds
unfoldable pub estimate_rehydrate_seconds : ℕ → ℕ
estimate_rehydrate_seconds total =
    if not (is_positive total) then 1 else if total / 52428800 == 0 then 1 else total / 52428800

-- What the handler reads of the backend: whether its name is "none", and whether it retrieves.
pub record Capabilities : Type 0 where
  pub is_none : Bool
  pub retrieve : Bool

-- The server's parts, the JSON of a job's payload, and the id that the new job gets.
pub record RehydrateServer : Type 0 where
  pub capabilities : Option Capabilities
  pub default_ttl : ℕ
  pub json : Json
  pub payload_text : List Segment → ℤ → Bool → Bytes
  pub job_id : Bytes

pub data RehydrateAnswer : Type 0 where
  no_backend no_retrieve bad_json no_segments job_not_created : RehydrateAnswer
  bad_request : SelectError → RehydrateAnswer
  -- the segments of the job, their bytes, and the seconds of the estimate
  job_started : List Segment → ℕ → ℕ → RehydrateAnswer

abbrev pub rehydrate_payload : RehydrateServer → RehydrateRequest → List Segment → CreatePayload
rehydrate_payload s r segs = record {
  kind = codes "rehydrate";
  payload = s.payload_text segs (ttl_of s.default_ttl r.ttl_days) r.persistent;
  total_items = length segs;
  total_bytes = sum_bytes 0 segs;
}

abbrev when_created : RehydrateAnswer → Jobs → Option Jobs → RehydrateAnswer × Jobs
when_created answer jobs none = (job_not_created, jobs)
when_created answer jobs (some jobs') = (answer, jobs')

abbrev job_for :
    RehydrateServer
    → RehydrateRequest
    → Jobs
    → Result SelectError (List Segment)
    → RehydrateAnswer × Jobs
job_for s r jobs (err e) = (bad_request e, jobs)
job_for s r jobs (ok []) = (no_segments, jobs)
job_for s r jobs (ok (seg ∷ segs)) =
    let total = sum_bytes 0 (seg ∷ segs) in
    when_created (job_started (seg ∷ segs) total (estimate_rehydrate_seconds total)) jobs
      (create s.json (rehydrate_payload s r (seg ∷ segs)) s.job_id jobs)

abbrev requested : RehydrateServer → Option RehydrateRequest → Table → Jobs → RehydrateAnswer × Jobs
requested s none t jobs = (bad_json, jobs)
requested s (some r) t jobs = job_for s r jobs (select_candidates r t)

abbrev with_capabilities :
    RehydrateServer
    → Option Capabilities
    → Option RehydrateRequest
    → Table
    → Jobs
    → RehydrateAnswer × Jobs
with_capabilities s none r t jobs = (no_backend, jobs)
with_capabilities s (some caps) r t jobs =
    if caps.is_none
    then (no_backend, jobs)
    else if caps.retrieve
    then requested s r t jobs
    else (no_retrieve, jobs)

-- handleRehydrate, up to the goroutine of its job; the request is what JSON decoding gives.
unfoldable pub handle_rehydrate :
    RehydrateServer → Option RehydrateRequest → Table → Jobs → RehydrateAnswer × Jobs
handle_rehydrate s r t jobs = with_capabilities s s.capabilities r t jobs
