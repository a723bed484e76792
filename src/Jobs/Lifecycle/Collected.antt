-- ===== src/Jobs/Lifecycle/Collected.antt =====
-- internal/jobs/manager.go: the collection of old rows beside the jobs in the background.
use logpond.Base.{
  ◌≡◌, refl, sym, subst, Bool, false, not, Option, none, some, arith, Bool-cases, inl, inr,
}
use logpond.Base.Int.{ℤ, ◌-ℤ◌}
use logpond.Base.Unique.{filter-IsUnique}
use logpond.Base.Find.{kept_by, find_key-filter}
use logpond.Catalog.Jobs.{Job, id_of, get_job, delete_jobs_older_than, is_collected, is_before}
use logpond.Jobs.Manager.{gc}
use logpond.Jobs.Lifecycle.{
  Phase, spawned, working, unrecorded, done, Live, with_table, IsSound, Fits, is_set,
}

unset : (cutoff : ℤ) (o : Option ℤ) → is_set o ≡ false → is_before cutoff o ≡ false
unset cutoff none h = refl
unset cutoff (some at) h = absurd (cc)

-- A row that is not finished stays.
stays :
    (cutoff : ℤ) (j : Job)
    → is_set j.finished_at ≡ false
    → kept_by id_of (λ j. not (is_collected cutoff j)) (some j) ≡ some j
stays cutoff j h =
    let no : is_collected cutoff j ≡ false = ground (arith, unset cutoff j.finished_at h) in
    rw no refl

collected :
    (cutoff : ℤ) (p : Phase) (o : Option Job)
    → Fits p o
    → Fits p (kept_by id_of (λ j. not (is_collected cutoff j)) o)
collected cutoff spawned none f = f
collected cutoff spawned (some j) f = subst (Fits spawned) (sym (stays cutoff j f.2)) f
collected cutoff working none f = f
collected cutoff working (some j) f = subst (Fits working) (sym (stays cutoff j f.2)) f
collected cutoff unrecorded none f = f
collected cutoff unrecorded (some j) f = subst (Fits spawned) (sym (stays cutoff j f.2)) f
collected cutoff done none f = f
collected cutoff done (some j) f = elim (Bool-cases (is_collected cutoff j)) [
  | inl e ↦ rw e tt
  | inr e ↦ rw e f
]

pub collect-IsSound :
    (now retention : ℤ) (s : Live)
    → IsSound s
    → IsSound (with_table (gc now retention s.system.table) s)
unfolding gc delete_jobs_older_than
collect-IsSound now retention s h =
    let cutoff = now -ℤ retention in
    let p : Job → Bool = λ j. not (is_collected cutoff j) in
    record {
      unique = filter-IsUnique id_of p s.system.table h.unique;
      fits = λ k q r.
          subst (Fits q) (sym (find_key-filter id_of k p s.system.table h.unique))
            (collected cutoff q (get_job k s.system.table) (h.fits k q r));
      cancellable = h.cancellable;
      once = h.once;
      cut = h.cut;
    }
