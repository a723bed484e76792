-- ===== src/Query/Executor/Facets/Values.antt =====
-- internal/query/executor.go: the counts of a facet and the values that it shows.
use Prim.Native.Nat.{min, compare, Ordering}
use logpond.Base.{
  ℕ, ◌+◌, ◌≡◌, refl, sym, subst, ap, ◌∙◌, Bool, true, List, [], ◌∷◌, ◌++◌, arith, drop,
  take-append-drop, length, length-take, count, if◌then◌else◌, ltb, Bool-cases, inl, inr,
}
use logpond.Base.Text.{Bytes, equal, equal_iff, less}
use mathlib.Core.List.{append-nil}
use logpond.Base.Assoc.{Assoc, lookup, put, lookup-put, lookup-put_other}
use logpond.Base.Compare.{
  flip, is_lt, first, compare_bytes, IsLawful, flip-IsLawful, pulled-IsLawful, first-IsLawful,
  compare-IsLawful, compare_bytes-IsLawful, asym, trans',
}
use logpond.Base.Result.{Result, ok}
use logpond.Catalog.Segment.{Segment}
use logpond.Catalog.Order.{order_by, IsOrdered, order_by-IsOrdered, count-order_by}
use logpond.Query.Executor.Request.{ExecError, FacetSpec}
use logpond.Query.Executor.Facets.{
  FacetValue, or_zero, add_counts, aggregate, facet_values, ranks_before, positive_or,
  build_facet_result, is_hit,
}

rank : FacetValue → FacetValue → Ordering
rank a b = first (flip (compare a.count b.count)) (compare_bytes a.value b.value)

rank-IsLawful : IsLawful rank
unfolding rank
rank-IsLawful =
    first-IsLawful (pulled-IsLawful (λ (v : FacetValue). v.count) (flip-IsLawful compare-IsLawful))
      (pulled-IsLawful (λ (v : FacetValue). v.value) compare_bytes-IsLawful)

less-compare_bytes : (s t : Bytes) → less s t ≡ is_lt (compare_bytes s t)
unfolding less compare_bytes
less-compare_bytes [] [] = refl
less-compare_bytes (x ∷ s) [] = refl
less-compare_bytes [] (y ∷ t) = refl
less-compare_bytes (x ∷ s) (y ∷ t) = ground (arith, less-compare_bytes s t)

ranks_before-rank : (a b : FacetValue) → ranks_before a b ≡ is_lt (rank a b)
unfolding rank
ranks_before-rank a b = ground (arith, less-compare_bytes a.value b.value)

order_by-ranked : (vs : List FacetValue) → IsOrdered ranks_before (order_by ranks_before vs)
order_by-ranked vs =
    order_by-IsOrdered ranks_before
      (λ x y p. ranks_before-rank y x ∙ asym rank-IsLawful x y (sym (ranks_before-rank x y) ∙ p))
      (λ x y z p q.
        ranks_before-rank z x
        ∙ trans' rank-IsLawful x y z (sym (ranks_before-rank y x) ∙ p)
            (sym (ranks_before-rank z y) ∙ q))
      vs

length-order_by : (vs : List FacetValue) → length (order_by ranks_before vs) ≡ length vs
length-order_by vs =
    sym (count_all (order_by ranks_before vs))
    ∙ count-order_by ranks_before (λ v. true) vs
    ∙ count_all vs
  where
    count_all : (xs : List FacetValue) → count (λ v. true) xs ≡ length xs
    count_all [] = refl
    count_all (x ∷ xs) = omega (arith, count_all xs)

-- The values of a facet and those that it leaves out are together the counted ones, each as often as
-- it was counted; they stand in the order of their counts, and by value where these are equal, so that
-- no value that is left out goes before one that is shown. As many are shown as there are, up to the
-- cap, and something is marked as left out exactly if there are more.
pub build_facet_result-top :
    (spec : FacetSpec) (counts : Assoc ℕ) (hits : ℕ)
    → let r = build_facet_result spec counts hits in
      let bound = positive_or 50 spec.cardinality_cap in
      (left_out : List FacetValue) × IsOrdered ranks_before (r.values ++ left_out)
      × ((p : FacetValue → Bool) → count p (r.values ++ left_out) ≡ count p (facet_values counts))
      × (length r.values ≡ min bound (length (facet_values counts)))
      × (r.truncated ≡ ltb bound (length (facet_values counts)))
unfolding build_facet_result
build_facet_result-top spec counts hits =
    let vs = order_by ranks_before (facet_values counts) in
    let bound = positive_or 50 spec.cardinality_cap in
    let size = length-order_by (facet_values counts) in
    elim (Bool-cases (ltb bound (length vs))) [
      | inl e ↦
          let whole = take-append-drop bound vs in
          (
            drop bound vs,
            rw e (
                subst (IsOrdered ranks_before) (sym whole) (order_by-ranked (facet_values counts))),
            λ p. rw e (ap (count p) whole ∙ count-order_by ranks_before p (facet_values counts)),
            rw e (length-take bound vs ∙ ap (min bound) size),
            ap (ltb bound) size,
          )
      | inr e ↦
          let whole = append-nil vs in
          (
            [],
            rw e (
                subst (IsOrdered ranks_before) (sym whole) (order_by-ranked (facet_values counts))),
            λ p. rw e (ap (count p) whole ∙ count-order_by ranks_before p (facet_values counts)),
            rw e (ground (arith, e, size)),
            ap (ltb bound) size,
          )
    ]

-- How often the rows of one read give a value.
abbrev pub occurrences : Bytes → List (Bytes × ℕ) → ℕ
occurrences v [] = 0
occurrences v ((w, n) ∷ rs) = (if equal w v then n else 0) + occurrences v rs

put-or_zero :
    (v w : Bytes) (n : ℕ) (m : Assoc ℕ)
    → or_zero (lookup v (put w (or_zero (lookup w m) + n) m))
      ≡ or_zero (lookup v m) + (if equal w v then n else 0)
put-or_zero v w n m = elim (Bool-cases (equal w v)) [
  | inl e ↦ rw e (
      subst
        (λ k. or_zero (lookup k (put w (or_zero (lookup w m) + n) m)) ≡ or_zero (lookup k m) + n)
        ((equal_iff w v).0 e) (ap or_zero (lookup-put w (or_zero (lookup w m) + n) m)))
  | inr e ↦ rw e (ap or_zero (lookup-put_other v w (or_zero (lookup w m) + n) m e) ∙ omega arith)
]

add_counts-lookup :
    (v : Bytes) (rs : List (Bytes × ℕ)) (m : Assoc ℕ)
    → or_zero (lookup v (add_counts rs m)) ≡ or_zero (lookup v m) + occurrences v rs
unfolding add_counts
add_counts-lookup v [] m = omega arith
add_counts-lookup v ((w, n) ∷ rs) m =
    omega (arith, add_counts-lookup v rs (put w (or_zero (lookup w m) + n) m), put-or_zero v w n m)

abbrev pub total_of : Bytes → (Segment → List (Bytes × ℕ)) → List Segment → ℕ
total_of v rows [] = 0
total_of v rows (s ∷ segs) = occurrences v (rows s) + total_of v rows segs

aggregate-from :
    (read : Segment → Result ExecError (List (Bytes × ℕ))) (rows : Segment → List (Bytes × ℕ))
    → ((s : Segment) → read s ≡ ok (rows s))
    → (segs : List Segment) (m : Assoc ℕ) (hits : ℕ)
    → (m' : Assoc ℕ) × (hits' : ℕ) × (aggregate read segs m hits ≡ ok (m', hits'))
      × ((v : Bytes) → or_zero (lookup v m') ≡ or_zero (lookup v m) + total_of v rows segs)
unfolding aggregate
aggregate-from read rows k [] m hits = (m, hits, refl, λ v. omega arith)
aggregate-from read rows k (s ∷ segs) m hits =
    let (m', hits', p, q) =
      aggregate-from read rows k segs (add_counts (rows s) m) (hits + is_hit (rows s)) in
    (m', hits', rw (k s) p, λ v. omega (arith, q v, add_counts-lookup v (rows s) m))

-- When no read of a facet's field fails, the aggregation ends, and each value is counted as often as
-- the reads of the sampled segments give it, all together.
pub aggregate-total :
    (read : Segment → Result ExecError (List (Bytes × ℕ))) (rows : Segment → List (Bytes × ℕ))
    (sample : List Segment)
    → ((s : Segment) → read s ≡ ok (rows s))
    → (counts : Assoc ℕ) × (hits : ℕ) × (aggregate read sample [] 0 ≡ ok (counts, hits))
      × ((v : Bytes) → or_zero (lookup v counts) ≡ total_of v rows sample)
aggregate-total read rows sample k =
    let (m, hits, p, q) = aggregate-from read rows k sample [] 0 in
    (m, hits, p, λ v. omega (arith, q v))
