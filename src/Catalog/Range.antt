-- ===== src/Catalog/Range.antt =====
-- What SegmentsInRange of internal/catalog/catalog.go selects, and in which order.
use logpond.Base.{
  ◌↔◌, map-All, ◌≡◌, refl, ◌∙◌, Bool, true, false, not, ◌&&◌, List, [], ◌∷◌, arith, All, Bool-cases,
  inl, inr, count, filter, &&-eq-true,
}
use logpond.Base.Int.{ℤ, ◌≤ℤ◌, ltb_ℤ}
use logpond.Catalog.Segment.{lost, rehydrated, same_state, Segment}
use logpond.Catalog.Order.{IsOrdered, count-order_by, All-order_by, order_by-IsOrdered}
use logpond.Catalog.Table.{Table}
use logpond.Catalog.Queries.{
  starts_later, ends_earlier, is_in_range, segments_in_range, is_local, list_local_segments,
  list_rehydrated_segments, list_rehydrated_segments,
}

module _ {ℓ} {A : Type ℓ} (q : A → Bool) where
  pub All-filter : (xs : List A) → All (λ x. q x ≡ true) (filter q xs)
  All-filter [] = tt
  All-filter (x ∷ xs) = elim (Bool-cases (q x)) [
    | inl h ↦ rw h (h, All-filter xs)
    | inr h ↦ rw h (All-filter xs)
  ]

  pub count-filter :
      (p : A → Bool) (xs : List A) → count p (filter q xs) ≡ count (λ x. q x && p x) xs
  count-filter p [] = refl
  count-filter p (x ∷ xs) = elim (Bool-cases (q x)) [
    | inl h ↦ rw h (omega (arith, count-filter p xs))
    | inr h ↦ rw h (omega (arith, count-filter p xs))
  ]

ltb_ℤ-asym : (a b : ℤ) → ltb_ℤ a b ≡ true → ltb_ℤ b a ≡ false
ltb_ℤ-asym a b h = ground arith

ltb_ℤ-trans : (a b c : ℤ) → ltb_ℤ b a ≡ false → ltb_ℤ c b ≡ false → ltb_ℤ c a ≡ false
ltb_ℤ-trans a b c h k = ground arith

ltb_ℤ-trans' : (a b c : ℤ) → ltb_ℤ a b ≡ false → ltb_ℤ b c ≡ false → ltb_ℤ a c ≡ false
ltb_ℤ-trans' a b c h k = ground arith

not-ltb_ℤ : (a b : ℤ) → not (ltb_ℤ a b) ≡ true → b ≤ℤ a
not-ltb_ℤ a b h = ground arith

pub record IsInRange (from to : ℤ) (s : Segment) : Type 0 where
  pub kept : same_state s.state lost ≡ false
  pub starts : s.time_start ≤ℤ to
  pub ends : from ≤ℤ s.time_end

not-true : (b : Bool) → not b ≡ true → b ≡ false
not-true b h = ground arith

is_in_range-IsInRange :
    (from to : ℤ) (s : Segment) → is_in_range from to s ≡ true → IsInRange from to s
unfolding is_in_range
is_in_range-IsInRange from to s h =
    let (first, ends) = &&-eq-true _ (not (ltb_ℤ s.time_end from)) h in
    let (kept, starts) = &&-eq-true _ (not (ltb_ℤ to s.time_start)) first in
    record {
      kept = not-true _ kept;
      starts = not-ltb_ℤ to s.time_start starts;
      ends = not-ltb_ℤ s.time_end from ends;
    }

ltb_ℤ-not : (a b : ℤ) → b ≤ℤ a → not (ltb_ℤ a b) ≡ true
ltb_ℤ-not a b h = ground arith

IsInRange-is_in_range :
    (from to : ℤ) (s : Segment) → IsInRange from to s → is_in_range from to s ≡ true
unfolding is_in_range
IsInRange-is_in_range from to s h =
    rw (h.kept, ltb_ℤ-not to s.time_start h.starts, ltb_ℤ-not s.time_end from h.ends) refl

-- SegmentsInRange returns rows that are not lost and whose time span meets the range, its two ends
-- included, newest first; it returns the rows that pass its test as often as they are in the table;
-- and a row passes the test exactly if it is not lost and its span meets the range.
pub segments_in_range-exact :
    (from to : ℤ) (t : Table)
    → All (IsInRange from to) (segments_in_range from to t)
      × IsOrdered starts_later (segments_in_range from to t)
      × ((p : Segment → Bool)
          → count p (segments_in_range from to t) ≡ count (λ s. is_in_range from to s && p s) t)
      × ((s : Segment) → (is_in_range from to s ≡ true) ↔ IsInRange from to s)
unfolding segments_in_range
segments_in_range-exact from to t = (
  All-order_by starts_later (IsInRange from to) _
      (map-All (is_in_range-IsInRange from to) _ (All-filter (is_in_range from to) t)),
  order_by-IsOrdered starts_later (λ x y. ltb_ℤ-asym y.time_start x.time_start)
      (λ x y z. ltb_ℤ-trans' x.time_start y.time_start z.time_start) _,
  λ p. count-order_by starts_later p _ ∙ count-filter (is_in_range from to) p t,
  λ s. (is_in_range-IsInRange from to s, IsInRange-is_in_range from to s),
)

-- The oldest rows come first.
pub list_local_segments-IsOrdered : (t : Table) → IsOrdered ends_earlier (list_local_segments t)
unfolding list_local_segments
list_local_segments-IsOrdered t =
    order_by-IsOrdered ends_earlier (λ x y. ltb_ℤ-asym x.time_end y.time_end)
      (λ x y z. ltb_ℤ-trans x.time_end y.time_end z.time_end) _

pub list_local_segments-All {κ} :
    (P : Segment → Type κ) (t : Table)
    → All P t
    → All (λ s. (is_local s ≡ true) × P s) (list_local_segments t)
unfolding list_local_segments
list_local_segments-All P t h = All-order_by ends_earlier _ _ (filtered t h)
  where
    filtered : (t : Table) → All P t → All (λ s. (is_local s ≡ true) × P s) (filter is_local t)
    filtered [] h = tt
    filtered (s ∷ t) h = elim (Bool-cases (is_local s)) [
      | inl e ↦ rw e ((e, h.0), filtered t h.1)
      | inr e ↦ rw e (filtered t h.1)
    ]

pub list_rehydrated_segments-All {κ} :
    (P : Segment → Type κ) (t : Table) → All P t → All P (list_rehydrated_segments t)
unfolding list_rehydrated_segments
list_rehydrated_segments-All P t h = All-order_by _ P _ (filtered t h)
  where
    filtered : (t : Table) → All P t → All P (filter (λ s. same_state s.state rehydrated) t)
    filtered [] h = tt
    filtered (s ∷ t) h = elim (Bool-cases (same_state s.state rehydrated)) [
      | inl e ↦ rw e (h.0, filtered t h.1)
      | inr e ↦ rw e (filtered t h.1)
    ]
