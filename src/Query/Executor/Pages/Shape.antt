-- ===== src/Query/Executor/Pages/Shape.antt =====
-- internal/query/executor.go: what every page of Run is like.
use logpond.Base.{
  ℕ, ◌+◌, ◌-◌, ◌≤◌, ◌≡◌, refl, sym, subst, ap, ◌∙◌, true, List, [], ◌∷◌, arith, All, All-append,
  map, map-All, any, length, length-take, ltb, leb, Bool-cases, inl, inr,
}
use logpond.Base.Text.{Bytes, equal_refl}
use logpond.Base.Int.{ℤ, pos, negsuc}
use logpond.Base.Result.{Result, ok, err, bind-ok, ok-injective}
use logpond.Catalog.Segment.{Segment}
use logpond.Catalog.Order.{order_by, IsOrdered, All-order_by, any-order_by}
use logpond.Catalog.Table.{Table, has_id}
use logpond.Catalog.Queries.{segments_in_range}
use logpond.Query.Value.{Runtime}
use logpond.Query.Executor.Request.{
  Request, ExecError, SortKey, Codec, QueryPlan, plan_of, clamp_limit, keys_or_default,
  order_by_sql, max_limit, cursor_invalidated,
}
use logpond.Query.Executor.Statement.{Statement}
use logpond.Query.Executor.Engine.{Engine, ResultEvent, Row, query_segment, scan_event, map_ok}
use logpond.Query.Executor.Pages.{
  sorts_before, sort_events, order_segments, segment_before, Gathered, gather, add_batch, Response,
  page, run_plan, run_query, no_events, cursor_known,
}
use logpond.Query.Executor.Facets.{select_facet_sample, compute_facets}
use logpond.Query.Executor.Request.Planned.{plan_of-Planned}
use logpond.Query.Executor.Pages.Order.{sort_events-IsOrdered, take-All, take-IsOrdered}

-- An event of one of the segments.
abbrev pub IsFrom : List Segment → ResultEvent → Type 0
IsFrom segs e = any (has_id e.segment_id) segs ≡ true

map_ok-inv :
    {A B : Type 0} (f : A → B) (r : Result ExecError A) {b : B}
    → map_ok f r ≡ ok b
    → (a : A) × (b ≡ f a)
map_ok-inv f (err e) h = absurd (cc)
map_ok-inv f (ok a) h = (a, sym (ok-injective h))

scanned-All : (id : Bytes) (rs : List Row) → All (λ e. e.segment_id ≡ id) (map (scan_event id) rs)
unfolding scan_event
scanned-All id [] = tt
scanned-All id (r ∷ rs) = (refl, scanned-All id rs)

-- A segment's events bear its id.
query_segment-All :
    (eng : Engine) (w : Statement) (order_by : Bytes) (n : ℕ) (s : Segment) {evs : List ResultEvent}
    → query_segment eng w order_by n s ≡ ok evs
    → All (λ e. e.segment_id ≡ s.id) evs
unfolding query_segment
query_segment-All eng w order_by n s h =
    let (rs, e) = map_ok-inv (map (scan_event s.id)) _ h in
    subst (All (λ e. e.segment_id ≡ s.id)) (sym e) (scanned-All s.id rs)

gather-All :
    (read : ℕ → Segment → Result ExecError (List ResultEvent)) (P : ResultEvent → Type 0)
    (needed : ℕ) (segs : List Segment)
    → All (λ s. (n : ℕ) (evs : List ResultEvent) → read n s ≡ ok evs → All P evs) segs
    → (g g' : Gathered) → All P g.events
    → gather read needed segs g ≡ ok g'
    → All P g'.events
unfolding gather
gather-All read P needed [] k g g' h e = subst (λ (x : Gathered). All P x.events) (ok-injective e) h
gather-All read P needed (s ∷ segs) k g g' h e = elim (Bool-cases (leb needed (length g.events))) [
  | inl p ↦ subst (λ (x : Gathered). All P x.events) (ok-injective (rw p at e)) h
  | inr p ↦
      let (evs, q, later) = bind-ok (read (needed - length g.events) s) _ (rw p at e) in
      gather-All read P needed segs k.1 (add_batch evs g) g'
        (All-append P g.events evs h (k.0 (needed - length g.events) evs q)) later
]

from_self : (segs : List Segment) → All (λ s. any (has_id s.id) segs ≡ true) segs
from_self [] = tt
from_self (s ∷ segs) =
    (rw (equal_refl s.id) refl, map-All (λ r h. ground (arith, h)) segs (from_self segs))

gathered-IsFrom :
    (eng : Engine) (w : Statement) (ob : Bytes) (needed : ℕ) (segs : List Segment) (g g' : Gathered)
    → All (IsFrom segs) g.events
    → gather (λ n. query_segment eng w ob n) needed segs g ≡ ok g'
    → All (IsFrom segs) g'.events
gathered-IsFrom eng w ob needed segs g g' h e =
    gather-All (λ n. query_segment eng w ob n) (IsFrom segs) needed segs
      (map-All
        (λ s here n evs q.
          map-All (λ x same. subst (λ id. any (has_id id) segs ≡ true) (sym same) here) evs
            (query_segment-All eng w ob n s q))
        segs (from_self segs))
      g g' h e

module _ (codec : Codec) (ks : List SortKey) (limit : ℕ) (g : Gathered) where
  page-length : length (page codec ks limit g).events ≤ limit
  unfolding page
  page-length = elim (Bool-cases (ltb limit (length (sort_events ks g.events)))) [
    | inl e ↦ rw e (omega (arith, length-take limit (sort_events ks g.events)))
    | inr e ↦ rw e (ground (arith, e))
  ]

  page-IsOrdered : IsOrdered (sorts_before ks) (page codec ks limit g).events
  unfolding page
  page-IsOrdered = elim (Bool-cases (ltb limit (length (sort_events ks g.events)))) [
    | inl e ↦ rw e (
        take-IsOrdered (sorts_before ks) limit (sort_events ks g.events)
          (sort_events-IsOrdered ks g.events))
    | inr e ↦ rw e (sort_events-IsOrdered ks g.events)
  ]

  page-All : (P : ResultEvent → Type 0) → All P g.events → All P (page codec ks limit g).events
  unfolding page sort_events
  page-All P h = elim (Bool-cases (ltb limit (length (sort_events ks g.events)))) [
    | inl e ↦ rw e (take-All P limit (sort_events ks g.events) (All-order_by _ P g.events h))
    | inr e ↦ rw e (All-order_by _ P g.events h)
  ]

clamp_limit-le : (n : ℤ) → clamp_limit n ≤ max_limit
unfolding clamp_limit
clamp_limit-le (negsuc n) = omega arith
clamp_limit-le (pos n) = ground arith

run_plan-page :
    (eng : Engine) (codec : Codec) (r : Request) (p : QueryPlan) (segs : List Segment)
    (resp : Response)
    → run_plan eng codec r p segs ≡ ok resp
    → p.keys ≡ keys_or_default r.sort
    → p.limit ≡ clamp_limit r.limit
    → (length resp.events ≤ clamp_limit r.limit)
      × (clamp_limit r.limit ≤ max_limit)
      × IsOrdered (sorts_before (keys_or_default r.sort)) resp.events
      × All (IsFrom segs) resp.events
      × (resp.rows_returned ≡ length resp.events)
unfolding run_plan page order_segments
run_plan-page eng codec r p segs resp h keys limit =
    elim (Bool-cases (cursor_known p.cursor segs)) [
      | inr e ↦ absurd (refused (rw e at h))
      | inl e ↦
          let read = λ (n : ℕ). query_segment eng p.where_all (order_by_sql p.keys) n in
          let ordered = order_segments p.keys segs in
          let (g, gathered, h1) =
            bind-ok (gather read (p.limit + 1) ordered no_events) _ (rw e at h) in
          let (facets, _, h2) =
            bind-ok
              (compute_facets eng (select_facet_sample ordered r.facet_sample_size) p.base r.facets
                [])
              _ h1 in
          let same = ok-injective h2 in
          let events = ap (λ (x : Response). x.events) same in
          let from : All (IsFrom ordered) g.events =
            gathered-IsFrom eng p.where_all (order_by_sql p.keys) (p.limit + 1) ordered no_events g
              tt gathered in
          let from' : All (IsFrom segs) g.events =
            map-All
              (λ x here.
                sym (any-order_by (segment_before p.keys) (has_id x.segment_id) segs) ∙ here)
              g.events from in
          (
            subst (λ evs. length evs ≤ clamp_limit r.limit) events
                (subst (λ n. length (page codec p.keys p.limit g).events ≤ n) limit
                  (page-length codec p.keys p.limit g)),
            clamp_limit-le r.limit,
            subst (IsOrdered (sorts_before (keys_or_default r.sort))) events (
                subst (λ ks. IsOrdered (sorts_before ks) (page codec p.keys p.limit g).events) keys
                  (page-IsOrdered codec p.keys p.limit g)),
            subst (All (IsFrom segs)) events (page-All codec p.keys p.limit g (IsFrom segs) from'),
            sym (ap (λ (x : Response). x.rows_returned) same) ∙ ap length events,
          )
    ]
  where
    refused : ◌≡◌ {A = Result ExecError Response} (err cursor_invalidated) (ok resp) → ⊥
    refused q = cc

-- Whatever the request, the catalog and the engine: the events of a page are at most as many as the
-- limit asks for, and never more than 1000; they come in the order of the sort keys; each bears the id
-- of a segment of the catalog that overlaps the time range; and the count of returned rows is theirs.
pub run_query-page :
    (env : Runtime) (codec : Codec) (eng : Engine) (t : Table) (r : Request) (resp : Response)
    → run_query env codec eng t r ≡ ok resp
    → (length resp.events ≤ clamp_limit r.limit)
      × (clamp_limit r.limit ≤ max_limit)
      × IsOrdered (sorts_before (keys_or_default r.sort)) resp.events
      × All (IsFrom (segments_in_range r.from r.to t)) resp.events
      × (resp.rows_returned ≡ length resp.events)
unfolding run_query
run_query-page env codec eng t r resp h =
    let segs = segments_in_range r.from r.to t in
    let (p, planned, h1) = bind-ok (plan_of env codec r) _ h in
    let made = plan_of-Planned env codec r planned in
    run_plan-page eng codec r p segs resp h1 (ap (λ (q : QueryPlan). q.keys) made.same)
      (ap (λ (q : QueryPlan). q.limit) made.same)
