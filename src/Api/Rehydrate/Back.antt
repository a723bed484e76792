-- ===== src/Api/Rehydrate/Back.antt =====
-- internal/api/rehydrate.go: the rows of the segments after a job that went well.
use logpond.Base.{
  ℕ, suc, ◌≡◌, refl, sym, subst, ap, ◌∙◌, Bool, ◌&&◌, List, [], ◌∷◌, Option, none, some, any,
  length, All, map-All, if◌then◌else◌, Bool-cases, inl, inr, &&-eq-true,
}
use logpond.Base.Int.{ℤ}
use logpond.Base.Result.{Result, ok, err}
use logpond.Base.Text.{Bytes, equal}
use logpond.Catalog.Segment.{rehydrated, Segment}
use logpond.Catalog.Table.{
  Table, has_id, get_segment, update_where, set_evict_after, rehydrated_row,
  mark_segment_rehydrated,
}
use logpond.Catalog.Keys.{HasKeys}
use logpond.Api.Rehydrate.Request.{RehydrateRequest, select_candidates}
use logpond.Api.Rehydrate.Job.{
  RetrieveError, unsupported, broken, Retrieved, Archive, JobError, no_directory, build_segment_ref,
  update_of, Work, is_already_local, saved, unless_failed, noted, one_segment, then_others,
  each_segment, flush_output, evict_at, run_rehydrate_job,
}
use logpond.Catalog.Lookup.Rows.{Holds, kept-Holds, self-Holds, found-Holds}
use logpond.Api.Rehydrate.Selected.{IsRehydrated, Ready, select_candidates-Ready}

-- What a job leaves: a rehydrated row with the job's time of eviction.
pub record IsBack (evict : Option ℤ) (r : Segment) : Type 0 where
  pub state : r.state ≡ rehydrated
  pub evict_after : r.evict_after ≡ evict

-- From one table to a later one, with the rows that are rehydrated, and those that are back.
record Keeps (evict : Option ℤ) (t t' : Table) : Type 0 where
  pub state :
      (x : Bytes) → Holds IsRehydrated (get_segment t x) → Holds IsRehydrated (get_segment t' x)
  pub back :
      (x : Bytes) → Holds (IsBack evict) (get_segment t x) → Holds (IsBack evict) (get_segment t' x)

update_where-Keeps :
    (evict : Option ℤ) (id : Bytes) (f : Segment → Segment) (t : Table)
    → ((r : Segment) → (f r).id ≡ r.id)
    → ((r : Segment) → IsRehydrated r → IsBack evict (f r))
    → Keeps evict t (update_where id f t)
update_where-Keeps evict id f t same makes = record {
  state = λ x h. kept-Holds IsRehydrated id f t x same (λ r k. (makes r k).state) h;
  back = λ x h. kept-Holds (IsBack evict) id f t x same (λ r k. makes r k.state) h;
}

module _ (a : Archive) (evict : Option ℤ) (total : ℕ) where
  abbrev Stepped : Table → Segment → Result (Work × JobError) Work → Type 0
  Stepped t seg (err x) = Unit
  Stepped t seg (ok w) = Keeps evict t w.table × Holds (IsBack evict) (get_segment w.table seg.id)

  set_evict_after-Stepped :
      (i : ℕ) (seg : Segment) (w : Work) (e : JobError)
      → Holds IsRehydrated (get_segment w.table seg.id)
      → Stepped w.table seg (saved e i total w (set_evict_after seg.id evict w.table))
  unfolding set_evict_after
  set_evict_after-Stepped i seg w e h = elim (Bool-cases (any (has_id seg.id) w.table)) [
    | inr n ↦ rw n tt
    | inl y ↦
        let f : Segment → Segment = λ s. record s { evict_after = evict } in
        let back : (r : Segment) → IsRehydrated r → IsBack evict (f r) =
          λ r k. record { state = k; evict_after = refl } in
        rw y (
          update_where-Keeps evict seg.id f w.table (λ r. refl) back,
          self-Holds IsRehydrated (IsBack evict) seg.id f w.table (λ r. refl) back h,
        )
  ]

  mark_segment_rehydrated-Stepped :
      (i : ℕ) (seg : Segment) (w : Work) (r : Retrieved) (e : JobError)
      → Stepped w.table seg (
          saved e i total w
            (mark_segment_rehydrated (a.clock seg.id) seg.id (update_of a evict r) w.table))
  unfolding mark_segment_rehydrated rehydrated_row
  mark_segment_rehydrated-Stepped i seg w r e = elim (Bool-cases (any (has_id seg.id) w.table)) [
    | inr n ↦ rw n tt
    | inl y ↦
        let f = rehydrated_row (a.clock seg.id) (update_of a evict r) in
        let back : (s : Segment) → IsBack evict (f s) =
          λ s. record { state = refl; evict_after = refl } in
        rw y (
          update_where-Keeps evict seg.id f w.table (λ s. refl) (λ s k. back s),
          self-Holds (λ s. Unit {0}) (IsBack evict) seg.id f w.table (λ s. refl) (λ s k. back s)
              (found-Holds seg.id w.table y),
        )
  ]

  unless_failed-Stepped :
      (i : ℕ) (seg : Segment) (w : Work) (r : Retrieved) (o : Option RetrieveError)
      → Stepped w.table seg (unless_failed a evict total i seg r (noted a evict total seg r w) o)
  unless_failed-Stepped i seg w r none =
      mark_segment_rehydrated-Stepped i seg (noted a evict total seg r w) r _
  unless_failed-Stepped i seg w r (some unsupported) = tt
  unless_failed-Stepped i seg w r (some broken) = tt

  one_segment-Stepped :
      (i : ℕ) (seg : Segment) (w : Work)
      → Ready w.table seg
      → Stepped w.table seg (one_segment a evict total i seg w)
  unfolding one_segment
  one_segment-Stepped i seg w h = elim (Bool-cases (is_already_local a seg)) [
    | inl y ↦ rw y (set_evict_after-Stepped i seg w _ (h (&&-eq-true _ _ y).0))
    | inr n ↦ rw n (
        unless_failed-Stepped i seg w (a.retrieve (build_segment_ref a seg))
          (a.retrieve (build_segment_ref a seg)).failure)
  ]

  -- After a run of the loop from t over segs.
  record AllBack (t : Table) (segs : List Segment) (out : Work × Option JobError) : Type 0 where
    pub keeps : Keeps evict t out.0.table
    pub all : All (λ s. Holds (IsBack evict) (get_segment out.0.table s.id)) segs

  then_others-AllBack :
      (t : Table) (seg : Segment) (segs : List Segment) (later : Work → Work × Option JobError)
      (r : Result (Work × JobError) Work)
      → Stepped t seg r
      → ((w : Work)
          → All (Ready w.table) segs
          → (later w).1 ≡ none
          → AllBack w.table segs (later w))
      → All (Ready t) segs
      → (then_others a evict total later r).1 ≡ none
      → AllBack t (seg ∷ segs) (then_others a evict total later r)
  then_others-AllBack t seg segs later (err (w, x)) st ih h e = absurd (cc (e))
  then_others-AllBack t seg segs later (ok w) (keeps, here) ih h e =
      let rest = ih w (map-All (λ s k q. keeps.state s.id (k q)) segs h) e in
      record {
        keeps = record {
          state = λ x k. rest.keeps.state x (keeps.state x k);
          back = λ x k. rest.keeps.back x (keeps.back x k);
        };
        all = (rest.keeps.back seg.id here, rest.all);
      }

  -- A loop that ends without an error has brought every segment back.
  each_segment-AllBack :
      (segs : List Segment) (i : ℕ) (w : Work)
      → All (Ready w.table) segs
      → (each_segment a evict total segs i w).1 ≡ none
      → AllBack w.table segs (each_segment a evict total segs i w)
  unfolding each_segment
  each_segment-AllBack [] i w h e = record {
    keeps = record { state = λ x k. k; back = λ x k. k };
    all = tt;
  }
  each_segment-AllBack (seg ∷ segs) i w h e = elim (Bool-cases (a.is_cancelled i)) [
    | inl y ↦ absurd (stopped (rw y at e))
    | inr n ↦ rw n (
        then_others-AllBack w.table seg segs (each_segment a evict total segs (suc i))
          (one_segment a evict total i seg w) (one_segment-Stepped i seg w h.0)
          (each_segment-AllBack segs (suc i)) h.1 (rw n at e))
  ]
    where
      stopped : {x : JobError} → ◌≡◌ {A = Option JobError} (some x) none → ⊥
      stopped k = cc

flush_output-table :
    (r : Work × Option JobError)
    → ((flush_output r).0.table ≡ r.0.table) × ((flush_output r).1 ≡ r.1)
flush_output-table (w, e) = elim (Bool-cases (equal w.stdout [] && equal w.stderr [])) [
  | inl y ↦ rw y (refl, refl)
  | inr n ↦ rw n (refl, refl)
]

-- A rehydration that ends without an error, of the segments that the request selects: each of them has
-- a row that is rehydrated and is evicted at the end of the time to live, or never if the request says
-- so, whatever the backend gave and wherever the segment was before. Ids in the table are distinct.
pub run_rehydrate_job-IsBack :
    (a : Archive) (now ttl : ℤ) (persistent : Bool) (r : RehydrateRequest) (segs : List Segment)
    (t : Table)
    → HasKeys t
    → select_candidates r t ≡ ok segs
    → (run_rehydrate_job a now ttl persistent segs t).1 ≡ none
    → All
        (λ seg.
          Holds
            (IsBack (evict_at now ttl persistent))
            (get_segment (run_rehydrate_job a now ttl persistent segs t).0.table seg.id))
        segs
unfolding run_rehydrate_job
run_rehydrate_job-IsBack a now ttl persistent r segs t h s e = elim (Bool-cases a.make_dir) [
  | inr n ↦ absurd (stopped (rw n at e))
  | inl y ↦
      let evict = evict_at now ttl persistent in
      let w : Work = record { table = t; calls = []; stdout = []; stderr = [] } in
      let run = each_segment a evict (length segs) segs 0 w in
      let (same, end) = flush_output-table run in
      let job : run_rehydrate_job a now ttl persistent segs t ≡ flush_output run =
        ap (λ b. if b then flush_output run else (w, some no_directory)) y in
      let back =
        each_segment-AllBack a evict (length segs) segs 0 w (select_candidates-Ready t h r segs s)
          (sym end ∙ ap (λ (o : Work × Option JobError). o.1) (sym job) ∙ e) in
      subst (λ (x : Table). All (λ seg. Holds (IsBack evict) (get_segment x seg.id)) segs)
        (sym (ap (λ (o : Work × Option JobError). o.0.table) job ∙ same)) back.all
]
  where
    stopped : {x : JobError} → ◌≡◌ {A = Option JobError} (some x) none → ⊥
    stopped k = cc
