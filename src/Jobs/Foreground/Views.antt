-- ===== src/Jobs/Foreground/Views.antt =====
-- internal/jobs/manager.go: what Get shows of a job after UpdateProgress.
use logpond.Base.{
  ◌≡◌, refl, ap, ◌∙◌, false, [], Option, none, some, some-injective, if◌then◌else◌, ltb,
}
use logpond.Base.Text.{Bytes, equal}
use logpond.Base.Unique.{update_at}
use logpond.Base.Find.{changed, find_key-update_self, find_key-update_other}
use logpond.Catalog.Jobs.{Job, Jobs, id_of, get_job, updated_job, update_job}
use logpond.Jobs.Manager.{
  Progress, Json, update_progress, progress_update, update_found, stored_progress, merged,
  or_logged,
}
use logpond.Jobs.Lifecycle.Sound.{updated_job-id}
use logpond.Jobs.Foreground.{JobView, view_of, get_view, viewed}
use logpond.Jobs.Foreground.Outcome.{update_job-found}

shown :
    (json : Json) (p : Progress) (j : Job)
    → ((q : Progress) → json.read_progress (json.write_progress q) ≡ q)
    → ((q : Progress) → equal (json.write_progress q) [] ≡ false)
    → (view_of json (updated_job (progress_update json p j) j)).progress
      ≡ merged (view_of json j).progress p
unfolding view_of updated_job
shown json p j back full =
    let m = merged (stored_progress json j.progress_json) p in rw (full m) (back m)

-- What UpdateProgress does to the view of an existing job, when reading JSON gives back what was
-- written and written JSON is not empty: it succeeds; the done counts are those of the call; each total
-- is that of the call, or stays what the view showed if the call gives 0; the state stays; and the
-- views of other jobs stay.
pub get_view-update_progress :
    (json : Json) (id : Bytes) (p : Progress) (t : Jobs) (v : JobView)
    → ((q : Progress) → json.read_progress (json.write_progress q) ≡ q)
    → ((q : Progress) → equal (json.write_progress q) [] ≡ false)
    → get_view json id t ≡ some v
    → (t' : Jobs) × (v' : JobView) × (update_progress json id p t ≡ some t')
      × (get_view json id t' ≡ some v')
      × (v'.progress ≡ record {
        completed = p.completed;
        total = if ltb 0 p.total then p.total else v.progress.total;
        bytes_done = p.bytes_done;
        bytes_total = if ltb 0 p.bytes_total then p.bytes_total else v.progress.bytes_total;
      })
      × (v'.state ≡ v.state)
      × ((k : Bytes) → equal id k ≡ false → get_view json k t' ≡ get_view json k t)
unfolding get_view update_progress view_of updated_job merged
get_view-update_progress json id p t v back full h = by (get_job id t) refl h
  where
    by :
        (o : Option Job)
        → get_job id t ≡ o
        → viewed json o ≡ some v
        → (t' : Jobs) × (v' : JobView) × (update_found json id p t o ≡ some t')
          × (viewed json (get_job id t') ≡ some v')
          × (v'.progress ≡ record {
            completed = p.completed;
            total = if ltb 0 p.total then p.total else v.progress.total;
            bytes_done = p.bytes_done;
            bytes_total = if ltb 0 p.bytes_total then p.bytes_total else v.progress.bytes_total;
          })
          × (v'.state ≡ v.state)
          × ((k : Bytes)
              → equal id k ≡ false
              → viewed json (get_job k t') ≡ viewed json (get_job k t))
    by none q e = absurd (cc)
    by (some j) q e =
        let u = progress_update json p j in
        let t' : Jobs = or_logged t (update_job id u t) in
        let j' : Job = updated_job u j in
        (
          update_at id_of id (updated_job u) t,
          view_of json j',
          update_job-found id u t refl q,
          ap (viewed json) (
              find_key-update_self id_of (updated_job u) (updated_job-id u) id t
              ∙ ap (changed id_of (updated_job u)) q),
          shown json p j back full
              ∙ ap (λ c. merged c p) (ap (λ (w : JobView). w.progress) (some-injective _ v e)),
          ap (λ (w : JobView). w.state) (some-injective _ v e),
          λ k r.
              ap (viewed json)
                (find_key-update_other id_of (updated_job u) (updated_job-id u) k id t r),
        )
