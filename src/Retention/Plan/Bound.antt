-- ===== src/Retention/Plan/Bound.antt =====
-- internal/retention/evaluator.go: what a plan selects under the size policy.
use logpond.Base.{
  or_left, or_right, ℕ, ◌+◌, ◌-◌, ◌≤◌, ◌<◌, ◌≡◌, refl, sym, subst, ap, ◌∙◌, ◌⊎◌, inl, inr, Bool,
  true, false, ◌&&◌, ◌||◌, List, [], ◌∷◌, arith, any, All, map-All, Bool-cases, if◌then◌else◌,
}
use logpond.Base.Text.{equal, equal_refl}
use logpond.Base.Int.{ℤ}
use logpond.Base.Int64.{
  sign, add64-eq, sub64, is_positive, greater, greater-lt, greater-le, sub64-eq,
}
use logpond.Catalog.Segment.{Segment}
use logpond.Retention.Plan.{
  Options, Candidate, candidates, Selected, has_reason, is_protected, select_by_age, total_size,
  evict, select_by_size, selected, Action, actions_for, plan_for,
}
use logpond.Retention.Plan.Selection.{
  is_planned, actions_for-is_planned, sizes, left_size, left_size-le, AllTaken, evict-Freed,
}

total_size-eq :
    (cs : List Candidate) (total : ℕ)
    → total + sizes cs < sign
    → total_size cs total ≡ total + sizes cs
unfolding total_size
total_size-eq [] total h = omega arith
total_size-eq (c ∷ cs) total h =
    ap (total_size cs) (add64-eq total c.seg.size_bytes (omega arith))
    ∙ total_size-eq cs (total + c.seg.size_bytes) (omega arith)
    ∙ omega arith

positive : (n : ℕ) → is_positive n ≡ true → n < sign
positive n h = ground arith

select_by_size-bound :
    (max : ℕ) (cs : List Candidate) (sel : Selected)
    → sizes cs < sign
    → is_positive max ≡ true
    → (left_size (select_by_size max cs sel) cs ≤ max) ⊎ AllTaken (select_by_size max cs sel) cs
unfolding select_by_size
select_by_size-bound max cs sel small pos = elim (Bool-cases (greater (total_size cs 0) max)) [
  | inl h ↦ rw (pos, h) (freed (total_size cs 0) sum_eq h)
  | inr h ↦ rw (pos, h) (inl (fits (total_size cs 0) sum_eq h))
]
  where
    sum_eq : total_size cs 0 ≡ sizes cs
    sum_eq = total_size-eq cs 0 (omega (arith, small)) ∙ omega arith

    larger : (total : ℕ) → total ≡ sizes cs → greater total max ≡ true → max < total
    larger total e h = greater-lt total max (omega arith) (positive max pos) h

    freed :
        (total : ℕ)
        → total ≡ sizes cs
        → greater total max ≡ true
        → (left_size (evict max (sub64 total max) cs sel) cs ≤ max)
          ⊎ AllTaken (evict max (sub64 total max) cs sel) cs
    freed total e h = elim (evict-Freed max (total - max) cs sel (omega arith) small) [
      | inl k ↦
          rw (sub64-eq total max (omega arith) (omega (arith, larger total e h)))
            (inl (omega (arith, larger total e h)))
      | inr k ↦ rw (sub64-eq total max (omega arith) (omega (arith, larger total e h))) (inr k)
    ]

    fits : (total : ℕ) → total ≡ sizes cs → greater total max ≡ false → left_size sel cs ≤ max
    fits total e h =
        omega (arith, left_size-le sel cs, greater-le total max (omega arith) (positive max pos) h)

-- The candidates hold every segment that they are made of.
is_candidate :
    (o : Options) (now : ℤ) (segs : List Segment)
    → All (λ s. any (λ c. equal c.seg.id s.id) (candidates o now segs) ≡ true) segs
is_candidate o now [] = tt
is_candidate o now (s ∷ segs) =
    (or_left _ _ (equal_refl s.id), map-All (λ r h. or_right _ _ h) segs (is_candidate o now segs))

and_true : (a b : Bool) → b ≡ true → a && b ≡ a
and_true a b h = ground arith

-- Among the segments, those with an action are the selected ones.
pub planned_if_selected :
    (o : Options) (now : ℤ) (segs : List Segment) (sel : Selected)
    → All
        (λ s. is_planned s.id (actions_for o sel (candidates o now segs)) ≡ has_reason s.id sel)
        segs
planned_if_selected o now segs sel =
    map-All (λ s h. actions_for-is_planned o sel (candidates o now segs) s.id ∙ and_true _ _ h) segs
      (is_candidate o now segs)

-- The sizes of the segments, and of those that no action is about.
abbrev pub segment_sizes : List Segment → ℕ
segment_sizes [] = 0
segment_sizes (s ∷ segs) = s.size_bytes + segment_sizes segs

abbrev pub kept_size : List Action → List Segment → ℕ
kept_size actions [] = 0
kept_size actions (s ∷ segs) =
    (if is_planned s.id actions then 0 else s.size_bytes) + kept_size actions segs

sizes-candidates :
    (o : Options) (now : ℤ) (segs : List Segment)
    → sizes (candidates o now segs) ≡ segment_sizes segs
sizes-candidates o now [] = refl
sizes-candidates o now (s ∷ segs) = ap (◌+◌ s.size_bytes) (sizes-candidates o now segs)

kept_size-left_size :
    (o : Options) (now : ℤ) (actions : List Action) (sel : Selected) (segs : List Segment)
    → All (λ s. is_planned s.id actions ≡ has_reason s.id sel) segs
    → kept_size actions segs ≡ left_size sel (candidates o now segs)
kept_size-left_size o now actions sel [] h = refl
kept_size-left_size o now actions sel (s ∷ segs) h =
    rw (h.0, kept_size-left_size o now actions sel segs h.1) refl

-- No segment is kept but those that are protected.
abbrev pub OnlyProtected : Options → ℤ → List Action → List Segment → Type 0
OnlyProtected o now actions segs =
    All (λ s. is_protected o now s || is_planned s.id actions ≡ true) segs

AllTaken-OnlyProtected :
    (o : Options) (now : ℤ) (actions : List Action) (sel : Selected) (segs : List Segment)
    → All (λ s. is_planned s.id actions ≡ has_reason s.id sel) segs
    → AllTaken sel (candidates o now segs)
    → OnlyProtected o now actions segs
AllTaken-OnlyProtected o now actions sel [] h k = tt
AllTaken-OnlyProtected o now actions sel (s ∷ segs) h k = (
  ap (λ b. is_protected o now s || b) h.0 ∙ k.0,
  AllTaken-OnlyProtected o now actions sel segs h.1 k.1,
)

-- With a size limit, what no action is about fits into the limit, or it is all protected. The sizes
-- of all local segments must add up to less than 2 ^ 63.
pub plan_for-kept_size :
    (o : Options) (now : ℤ) (segs : List Segment)
    → segment_sizes segs < sign
    → is_positive o.max_size ≡ true
    → (kept_size (plan_for o now segs).actions segs ≤ o.max_size)
      ⊎ OnlyProtected o now (plan_for o now segs).actions segs
unfolding plan_for
plan_for-kept_size o now segs small pos = from_selection (
    select_by_size-bound o.max_size (candidates o now segs)
      (select_by_age (candidates o now segs) [])
      (subst (λ n. n < sign) (sym (sizes-candidates o now segs)) small) pos)
  where
    sel : Selected
    sel = selected o (candidates o now segs)

    same :
        All
          (λ s. is_planned s.id (actions_for o sel (candidates o now segs)) ≡ has_reason s.id sel)
          segs
    same = planned_if_selected o now segs sel

    from_selection :
        (left_size sel (candidates o now segs) ≤ o.max_size) ⊎ AllTaken sel (candidates o now segs)
        → (kept_size (actions_for o sel (candidates o now segs)) segs ≤ o.max_size)
          ⊎ OnlyProtected o now (actions_for o sel (candidates o now segs)) segs
    from_selection (inl h) =
        inl (subst (λ n. n ≤ o.max_size) (sym (kept_size-left_size o now _ sel segs same)) h)
    from_selection (inr h) = inr (AllTaken-OnlyProtected o now _ sel segs same h)
