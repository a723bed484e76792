-- ===== src/Retention/Plan/Age.antt =====
-- What a plan of internal/retention/evaluator.go selects under the age policy.
use logpond.Base.{
  or_left, or_right, ℕ, ◌≡◌, ◌∙◌, Bool, true, false, List, [], ◌∷◌, Option, none, some, All,
  if◌then◌else◌,
}
use logpond.Base.Text.{Bytes, equal_refl}
use logpond.Base.Int.{ℤ}
use logpond.Base.Int64.{sub64}
use logpond.Catalog.Segment.{Segment}
use logpond.Retention.Plan.{
  Options, Reason, Candidate, candidates, Selected, has_reason, age_entry, is_protected, is_expired,
  select_by_age, total_size, select_by_size, selected, plan_for,
}
use logpond.Retention.Plan.Selection.{is_planned, evict-has_reason}
use logpond.Retention.Plan.Bound.{planned_if_selected}

select_by_age-has_reason :
    (cs : List Candidate) (sel : Selected) (id : Bytes)
    → has_reason id sel ≡ true
    → has_reason id (select_by_age cs sel) ≡ true
unfolding select_by_age
select_by_age-has_reason [] sel id h = h
select_by_age-has_reason (c ∷ cs) sel id h =
    select_by_age-has_reason cs _ id (grown c.protected c.age_reason)
  where
    grown : (b : Bool) (r : Option Reason) → has_reason id (age_entry c b r sel) ≡ true
    grown true r = h
    grown false none = h
    grown false (some r) = or_right _ _ h

select_by_size-has_reason :
    (max : ℕ) (cs : List Candidate) (sel : Selected) (id : Bytes)
    → has_reason id sel ≡ true
    → has_reason id (select_by_size max cs sel) ≡ true
unfolding select_by_size
select_by_size-has_reason max cs sel id h =
    either _ _ (evict-has_reason max (sub64 (total_size cs 0) max) cs sel id h)
  where
    either :
        (b : Bool) (s : Selected)
        → has_reason id s ≡ true
        → has_reason id (if b then s else sel) ≡ true
    either true s k = k
    either false s k = h

age_selected :
    (o : Options) (now : ℤ) (segs : List Segment) (sel : Selected)
    → All
        (λ s.
          is_protected o now s ≡ false
          → is_expired o now s ≡ true
          → has_reason s.id (select_by_age (candidates o now segs) sel) ≡ true)
        segs
unfolding select_by_age
age_selected o now [] sel = tt
age_selected o now (s ∷ segs) sel = (
  λ unprotected expired.
      select_by_age-has_reason (candidates o now segs) _ s.id
        (rw (unprotected, expired) (or_left _ _ (equal_refl s.id))),
  age_selected o now segs _,
)

-- With an age limit, every local segment that ended longer ago and is not protected has an action.
pub plan_for-is_expired :
    (o : Options) (now : ℤ) (segs : List Segment)
    → All
        (λ s.
          is_protected o now s ≡ false
          → is_expired o now s ≡ true
          → is_planned s.id (plan_for o now segs).actions ≡ true)
        segs
unfolding plan_for
plan_for-is_expired o now segs =
    both segs (planned_if_selected o now segs _) (age_selected o now segs [])
  where
    both :
        (rest : List Segment)
        → All
            (λ s.
              is_planned s.id (plan_for o now segs).actions
              ≡ has_reason s.id (selected o (candidates o now segs)))
            rest
        → All
            (λ s.
              is_protected o now s ≡ false
              → is_expired o now s ≡ true
              → has_reason s.id (select_by_age (candidates o now segs) []) ≡ true)
            rest
        → All
            (λ s.
              is_protected o now s ≡ false
              → is_expired o now s ≡ true
              → is_planned s.id (plan_for o now segs).actions ≡ true)
            rest
    both [] h k = tt
    both (s ∷ rest) h k = (
      λ unprotected expired.
          h.0 ∙ select_by_size-has_reason o.max_size _ _ s.id (k.0 unprotected expired),
      both rest h.1 k.1,
    )
