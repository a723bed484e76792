-- ===== src/Retention/Run/Loss.antt =====
-- internal/retention/evaluator.go: which rows `Run` makes lost.
use logpond.Base.{
  ◌≡◌, refl, Bool, true, false, ◌&&◌, ◌||◌, List, [], ◌∷◌, Option, none, some, arith, or_left,
  or_right, if◌then◌else◌, All, map-All, &&-eq-true,
}
use logpond.Base.Text.{equal_refl}
use logpond.Base.Int.{ℤ}
use logpond.Catalog.Segment.{
  SegmentState, active, sealed, archived, rehydrated, lost, other, same_state, Segment, is_valid,
}
use logpond.Catalog.Table.{Table}
use logpond.Catalog.Queries.{is_local, list_local_segments}
use logpond.Catalog.Range.{list_local_segments-All}
use logpond.Retention.Plan.{
  Options, Verb, delete, archive_then_delete, Action, Reason, decide, decide_for, candidates,
  Selected, reason_of, with_action, actions_for, plan_for, plan,
}
use logpond.Retention.Host.{World, Host}
use logpond.Retention.Run.{run}
use logpond.Retention.Run.Keeping.{is_spent, IsSpent, OnlySpentLost, IsCareful, run_actions-Keeps}

kept :
    (x y : Bool)
    → x ≡ true
    → y ≡ true
    → same_state
        (if◌then◌else◌ {A = Verb × SegmentState}
          (x && y && true)
          (archive_then_delete, sealed)
          (delete, lost)).1
        lost
      ≡ true
    → ⊥
kept true true p q r = cc
kept true false p q r = cc
kept false y p q r = cc

-- Under archive_before_delete, `decide` lets a local segment be lost only if it is spent.
decide_for-is_spent :
    (o : Options) (state : SegmentState) (a b : Bool)
    → o.archive_before_delete ≡ true
    → o.backend_active ≡ true
    → same_state state sealed || same_state state archived || same_state state rehydrated ≡ true
    → same_state (decide_for o (a || b || same_state state archived) state).1 lost ≡ true
    → same_state state lost || a || b ≡ true
decide_for-is_spent o sealed true b before on h e = refl
decide_for-is_spent o sealed false true before on h e = refl
decide_for-is_spent o sealed false false before on h e =
    absurd (kept o.archive_before_delete o.backend_active before on e)
decide_for-is_spent o archived a b before on h e = absurd cc
decide_for-is_spent o rehydrated a b before on h e = absurd cc
decide_for-is_spent o lost a b before on h e = refl
decide_for-is_spent o active a b before on h e = absurd cc
decide_for-is_spent o (other x) a b before on h e = absurd cc

IsSpent-rows : (t : Table) → All (λ s. is_spent s ≡ true → IsSpent t s.id) t
IsSpent-rows [] = tt
IsSpent-rows (s ∷ t) = (
  λ e. or_left _ _ (both (equal_refl s.id) e),
  map-All (λ r h e. or_right _ _ (h e)) t (IsSpent-rows t),
)
  where
    both : {a b : Bool} → a ≡ true → b ≡ true → a && b ≡ true
    both h k = ground (arith, h, k)

module _ (o : Options) (now : ℤ) (start : Table) (before : o.archive_before_delete ≡ true)
    (on : o.backend_active ≡ true) where
  -- What is known of each row that `plan` looks at.
  abbrev Known : Segment → Type 0
  Known s = (is_local s ≡ true) × (is_spent s ≡ true → IsSpent start s.id)

  action-IsCareful :
      (s : Segment) (r : Option Reason) (later : List Action)
      → Known s
      → All (IsCareful start) later
      → All (IsCareful start) (with_action o s r later)
  unfolding decide is_local
  action-IsCareful s none later k h = h
  action-IsCareful s (some r) later k h = (
    λ e. k.1 (
        decide_for-is_spent o s.state (is_valid s.s3_url) (is_valid s.archive_ref) before on
          (&&-eq-true _ _ k.0).1 e),
    h,
  )

  actions_for-IsCareful :
      (sel : Selected) (segs : List Segment)
      → All Known segs
      → All (IsCareful start) (actions_for o sel (candidates o now segs))
  unfolding actions_for
  actions_for-IsCareful sel [] h = tt
  actions_for-IsCareful sel (s ∷ segs) h =
      action-IsCareful s (reason_of s.id sel) _ h.0 (actions_for-IsCareful sel segs h.1)

  known : All Known (list_local_segments start)
  known =
      list_local_segments-All (λ s. is_spent s ≡ true → IsSpent start s.id) start
        (IsSpent-rows start)

-- With archive_before_delete and a backend that is active, a row that is lost after `Run` has the id
-- of a row that was lost before, or that had a copy in the archive. This holds whatever the backend
-- and the file system do.
pub run-OnlySpentLost :
    (host : Host) (o : Options) (w : World)
    → o.archive_before_delete ≡ true
    → o.backend_active ≡ true
    → OnlySpentLost w.table (run host o false w).0.table
unfolding run plan plan_for
run-OnlySpentLost host o w before on =
    run_actions-Keeps w.table host (plan o host.now w.table).actions w
      (actions_for-IsCareful o host.now w.table before on _ (list_local_segments w.table)
        (known o host.now w.table before on))
      (map-All (λ s h e. h (or_left _ _ (or_left _ _ e))) w.table (IsSpent-rows w.table))
