-- ===== src/Query/Executor/Busy.antt =====
-- internal/query/executor.go: the count of the queries that read each segment.
use logpond.Base.{
  ℕ, ◌+◌, ◌-◌, ◌≤◌, ◌≡◌, refl, subst, ap, ◌∙◌, Bool, false, List, [], ◌∷◌, Option, none, some,
  arith, if◌then◌else◌, ltb, leb, Bool-cases, inl, inr, count, any, ◌++◌, All, leb→le, lt→ltb,
}
use logpond.Base.Text.{Bytes, equal, equal_iff, equal_refl}
use logpond.Base.Assoc.{
  Assoc, lookup, put, remove, lookup-put, lookup-put_other, lookup-remove, lookup-remove_other,
  put-All, remove-All,
}

-- A missing key reads as 0.
abbrev pub or_zero : Option ℕ → ℕ
or_zero none = 0
or_zero (some n) = n

abbrev pub readers : Bytes → Assoc ℕ → ℕ
readers id m = or_zero (lookup id m)

-- acquireSegment, up to the function that it returns
unfoldable pub acquire_segment : Bytes → Assoc ℕ → Assoc ℕ
acquire_segment id m = put id (readers id m + 1) m

-- The function that acquireSegment returns.
unfoldable pub release_segment : Bytes → Assoc ℕ → Assoc ℕ
release_segment id m = if leb (readers id m) 1 then remove id m else put id (readers id m - 1) m

-- IsSegmentBusy
unfoldable pub is_segment_busy : Bytes → Assoc ℕ → Bool
is_segment_busy id m = ltb 0 (readers id m)

-- Queries that start and end the reading of segments, in any order. `rs` are the segments that are
-- being read, once for each query.
pub data Reads : Assoc ℕ → List Bytes → Type 0 where
  idle : Reads [] []
  start :
      {m : Assoc ℕ} {rs : List Bytes} (id : Bytes)
      → Reads m rs
      → Reads (acquire_segment id m) (id ∷ rs)
  finish :
      {m : Assoc ℕ} {rs : List Bytes} (a : List Bytes) (id : Bytes) (b : List Bytes)
      → Reads m rs
      → rs ≡ a ++ id ∷ b
      → Reads (release_segment id m) (a ++ b)

abbrev reading : Bytes → List Bytes → ℕ
reading id rs = count (λ r. equal r id) rs

abbrev IsCounted : Bytes × ℕ → Type 0
IsCounted (id, n) = 1 ≤ n

readers-acquire :
    (id k : Bytes) (m : Assoc ℕ)
    → readers k (acquire_segment id m) ≡ (if equal id k then 1 else 0) + readers k m
unfolding acquire_segment
readers-acquire id k m = elim (Bool-cases (equal id k)) [
  | inl e ↦ rw e (
      subst (λ j. readers j (put id (readers id m + 1) m) ≡ 1 + readers j m) ((equal_iff id k).0 e)
        (ap or_zero (lookup-put id (readers id m + 1) m) ∙ omega arith))
  | inr e ↦ rw e (ap or_zero (lookup-put_other k id (readers id m + 1) m e) ∙ omega arith)
]

released_self : (id : Bytes) (m : Assoc ℕ) → readers id (release_segment id m) ≡ readers id m - 1
unfolding release_segment
released_self id m = elim (Bool-cases (leb (readers id m) 1)) [
  | inl e ↦ rw e (ap or_zero (lookup-remove id m) ∙ omega (arith, leb→le (readers id m) 1 e))
  | inr e ↦ rw e (ap or_zero (lookup-put id (readers id m - 1) m))
]

released_other :
    (id k : Bytes) (m : Assoc ℕ)
    → equal id k ≡ false
    → readers k (release_segment id m) ≡ readers k m
unfolding release_segment
released_other id k m h = elim (Bool-cases (leb (readers id m) 1)) [
  | inl e ↦ rw e (ap or_zero (lookup-remove_other k id m h))
  | inr e ↦ rw e (ap or_zero (lookup-put_other k id (readers id m - 1) m h))
]

readers-release :
    (id k : Bytes) (m : Assoc ℕ)
    → readers k (release_segment id m) ≡ readers k m - (if equal id k then 1 else 0)
readers-release id k m = elim (Bool-cases (equal id k)) [
  | inl e ↦ rw e (
      subst (λ j. readers j (release_segment id m) ≡ readers j m - 1) ((equal_iff id k).0 e)
        (released_self id m))
  | inr e ↦ rw e (released_other id k m e ∙ omega arith)
]

count-append :
    (p : Bytes → Bool) (xs ys : List Bytes) → count p (xs ++ ys) ≡ count p xs + count p ys
count-append p [] ys = omega arith
count-append p (x ∷ xs) ys = omega (arith, count-append p xs ys)

Reads-readers :
    (m : Assoc ℕ) (rs : List Bytes) → Reads m rs → (k : Bytes) → readers k m ≡ reading k rs
Reads-readers m rs idle k = refl
Reads-readers m rs (start {m = m0} {rs = rs0} id r) k =
    readers-acquire id k m0 ∙ ap (◌+◌ (if equal id k then 1 else 0)) (Reads-readers m0 rs0 r k)
Reads-readers m rs (finish {m = m0} {rs = rs0} a id b r e) k =
    let p = λ (x : Bytes). equal x k in
    let before = Reads-readers m0 rs0 r k ∙ ap (count p) e ∙ count-append p a (id ∷ b) in
    readers-release id k m0 ∙ omega (arith, before, count-append p a b)

Reads-All : (m : Assoc ℕ) (rs : List Bytes) → Reads m rs → All IsCounted m
unfolding acquire_segment release_segment
Reads-All m rs idle = tt
Reads-All m rs (start {m = m0} {rs = rs0} id r) =
    put-All IsCounted id (readers id m0 + 1) m0 (λ j. omega arith) (Reads-All m0 rs0 r)
Reads-All m rs (finish {m = m0} {rs = rs0} a id b r e) = elim (Bool-cases (leb (readers id m0) 1)) [
  | inl p ↦ rw p (remove-All IsCounted id m0 (Reads-All m0 rs0 r))
  | inr p ↦
      rw p
        (put-All IsCounted id (readers id m0 - 1) m0 (λ j. ground (arith, p)) (Reads-All m0 rs0 r))
]

busy-any : (k : Bytes) (rs : List Bytes) → ltb 0 (reading k rs) ≡ any (λ r. equal r k) rs
busy-any k [] = refl
busy-any k (r ∷ rs) = elim (Bool-cases (equal r k)) [
  | inl e ↦ rw e (lt→ltb 0 (1 + reading k rs) (omega arith))
  | inr e ↦ rw e (ap (ltb 0) zero_plus ∙ busy-any k rs)
]
  where
    zero_plus : 0 + reading k rs ≡ reading k rs
    zero_plus = omega arith

nothing_read : (m : Assoc ℕ) → All IsCounted m → ((k : Bytes) → readers k m ≡ 0) → m ≡ []
nothing_read [] h z = refl
nothing_read ((j, n) ∷ m) h z = absurd (clash (rw (equal_refl j) at (z j)))
  where
    clash : n ≡ 0 → ⊥
    clash e = omega (arith, e, h.0)

-- However queries start and end their reads: IsSegmentBusy holds of exactly the segments that some
-- query is reading, and when none is reading, no count is left in the map.
pub is_segment_busy-Reads :
    (m : Assoc ℕ) (rs : List Bytes)
    → Reads m rs
    → ((k : Bytes) → is_segment_busy k m ≡ any (λ r. equal r k) rs) × (rs ≡ [] → m ≡ [])
unfolding is_segment_busy
is_segment_busy-Reads m rs r = (
  λ k. ap (ltb 0) (Reads-readers m rs r k) ∙ busy-any k rs,
  λ e. nothing_read m (Reads-All m rs r) (λ k. Reads-readers m rs r k ∙ ap (reading k) e),
)
