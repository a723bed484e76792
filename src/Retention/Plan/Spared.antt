-- ===== src/Retention/Plan/Spared.antt =====
-- internal/retention/evaluator.go: which rows of the catalog a plan is about.
use logpond.Base.{
  or_left, or_right, ◌≡◌, refl, sym, subst, ap, ◌∙◌, ◌⊎◌, inl, inr, Bool, true, false, not, ◌&&◌,
  ◌||◌, List, [], ◌∷◌, arith, any, filter, All, map-All, Bool-cases, if◌then◌else◌, ||-false,
  ||-eq-false, &&-eq-true,
}
use logpond.Base.Text.{Bytes, equal}
use logpond.Base.Int.{ℤ}
use logpond.Catalog.Segment.{Segment}
use logpond.Catalog.Table.{Table, has_id}
use logpond.Catalog.Order.{any-order_by}
use logpond.Catalog.Queries.{ends_earlier, is_local, list_local_segments}
use logpond.Base.Unique.{equal_comm}
use logpond.Catalog.Keys.{Reachable, HasKeys, Reachable-HasKeys}
use logpond.Retention.Plan.{Options, candidates, is_protected, selected, plan_for, plan}
use logpond.Retention.Plan.Selection.{is_planned, actions_for-is_planned}
use logpond.Retention.Plan.Free.{is_free, or_cases, selected-Sound}

-- What retention may take at all.
unfoldable pub is_evictable : Options → ℤ → Segment → Bool
is_evictable o now s = is_local s && not (is_protected o now s)

any-candidates :
    (o : Options) (now : ℤ) (segs : List Segment) (id : Bytes)
    → is_free (candidates o now segs) id
      ≡ any (λ s. equal s.id id && not (is_protected o now s)) segs
any-candidates o now [] id = refl
any-candidates o now (s ∷ segs) id =
    ap (◌||◌ (equal s.id id && not (is_protected o now s))) (any-candidates o now segs id)

first_or_later :
    {b c d : Bool} → (b ≡ true) ⊎ (c ≡ true) → (c ≡ true → d ≡ true) → b && true || d ≡ true
first_or_later (inl h) f = ground (arith, h)
first_or_later (inr h) f = or_right _ _ (f h)

any-filter :
    (p q : Segment → Bool) (t : Table) → any p (filter q t) ≡ true → any (λ s. p s && q s) t ≡ true
any-filter p q [] h = h
any-filter p q (s ∷ t) h = elim (Bool-cases (q s)) [
  | inl e ↦ rw e (
      first_or_later
        (or_cases (p s) _
          (subst (λ b. any p (if b then s ∷ filter q t else filter q t) ≡ true) e h))
        (any-filter p q t))
  | inr e ↦
      or_right _ _ (
        any-filter p q t (subst (λ b. any p (if b then s ∷ filter q t else filter q t) ≡ true) e h))
]

any-weaken :
    (p q : Segment → Bool)
    → ((s : Segment) → p s ≡ true → q s ≡ true)
    → (t : List Segment) → any p t ≡ true
    → any q t ≡ true
any-weaken p q f [] h = h
any-weaken p q f (s ∷ t) h = elim (or_cases (p s) (any p t) h) [
  | inl k ↦ or_left _ _ (f s k)
  | inr k ↦ or_right _ _ (any-weaken p q f t k)
]

reorder : (a b c : Bool) → a && not b && c ≡ true → a && (c && not b) ≡ true
reorder a b c h = ground arith

-- Each planned id is that of an evictable row.
plan-is_evictable :
    (o : Options) (now : ℤ) (t : Table) (id : Bytes)
    → is_planned id (plan o now t).actions ≡ true
    → any (λ s. equal s.id id && is_evictable o now s) t ≡ true
unfolding plan plan_for list_local_segments is_evictable
plan-is_evictable o now t id h =
    any-weaken _ _ (λ s k. reorder (equal s.id id) (is_protected o now s) (is_local s) k) t
      (any-filter free is_local t (
        sym (any-order_by ends_earlier free (filter is_local t))
        ∙ sym (any-candidates o now local id)
        ∙ selected-Sound o (candidates o now local) id
            (&&-eq-true _ _ (
              sym (
                actions_for-is_planned o (selected o (candidates o now local))
                  (candidates o now local) id)
              ∙ h)).0))
  where
    free : Segment → Bool
    free s = equal s.id id && not (is_protected o now s)

    local : Table
    local = list_local_segments t

any-has_id :
    (q : Segment → Bool) (id : Bytes) (t : Table)
    → any (has_id id) t ≡ false
    → any (λ r. has_id id r && q r) t ≡ false
any-has_id q id [] h = refl
any-has_id q id (s ∷ t) h =
    let (first, later) = ||-eq-false (has_id id s) _ h in
    ||-false (neither first) (any-has_id q id t later)
  where
    neither : has_id id s ≡ false → has_id id s && q s ≡ false
    neither k = ground (arith, k)

-- Under a key, what holds of some row with the id of a row holds of that row.
keyed :
    (q : Segment → Bool) (t : Table)
    → HasKeys t
    → All (λ s. q s ≡ false → any (λ r. has_id s.id r && q r) t ≡ false) t
keyed q [] h = tt
keyed q (s ∷ t) h = (λ k. ||-false (ends k) (any-has_id q s.id t h.0), behind t h.0 (keyed q t h.1))
  where
    ends : q s ≡ false → has_id s.id s && q s ≡ false
    ends k = ground (arith, k)

    behind :
        (rest : Table)
        → any (has_id s.id) rest ≡ false
        → All (λ r. q r ≡ false → any (λ x. has_id r.id x && q x) t ≡ false) rest
        → All (λ r. q r ≡ false → any (λ x. has_id r.id x && q x) (s ∷ t) ≡ false) rest
    behind [] f g = tt
    behind (r ∷ rest) f g =
        let (first, later) = ||-eq-false (has_id s.id r) _ f in
        (λ k. ||-false (differs (equal_comm r.id s.id first)) (g.0 k), behind rest later g.1)
      where
        differs : equal s.id r.id ≡ false → has_id r.id s && q s ≡ false
        differs k = ground (arith, k)

-- In every table that the catalog can reach, retention leaves alone each row that is not local,
-- sealed, archived or rehydrated, or that was sealed within the protected window.
pub plan-spares :
    (o : Options) (now : ℤ) (t : Table)
    → Reachable t
    → All (λ s. is_evictable o now s ≡ false → is_planned s.id (plan o now t).actions ≡ false) t
plan-spares o now t r = map-All spared t (keyed (is_evictable o now) t (Reachable-HasKeys t r))
  where
    spared :
        (s : Segment)
        → (is_evictable o now s ≡ false
            → any (λ x. has_id s.id x && is_evictable o now x) t ≡ false)
        → is_evictable o now s ≡ false
        → is_planned s.id (plan o now t).actions ≡ false
    spared s k h = elim (Bool-cases (is_planned s.id (plan o now t).actions)) [
      | inl e ↦ absurd (clash (k h) (plan-is_evictable o now t s.id e))
      | inr e ↦ e
    ]
      where
        clash : {b : Bool} → b ≡ false → b ≡ true → ⊥
        clash a b = ground (arith, a, b)
