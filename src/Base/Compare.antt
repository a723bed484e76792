-- ===== src/Base/Compare.antt =====
-- Three-way comparisons (`strings.Compare` and its kin) and the laws that a sort needs of them.
use Prim.Native.Nat.{compare, Ordering, ◌+◌}
use Prim.Native.Nat.Ordering.{lt, eq, gt}
use mathlib.Core.Path.{◌≡◌, refl, sym, subst, ap, ◌∙◌}
use mathlib.Core.Logic.{inl, inr, ◌⊎◌}
use mathlib.Core.Bool.{Bool, true, false}
use mathlib.Core.List.{[], ◌∷◌}
use native.Mathlib.Omega.{arith}
use logpond.Base.Int.{ℤ, pos_part, neg_part}
use logpond.Base.Text.{Bytes}

-- `-cmp`
abbrev pub flip : Ordering → Ordering
flip lt = gt
flip eq = eq
flip gt = lt

abbrev pub is_lt : Ordering → Bool
is_lt lt = true
is_lt eq = false
is_lt gt = false

-- The first comparison that is not equal decides.
abbrev pub first : Ordering → Ordering → Ordering
first lt d = lt
first eq d = d
first gt d = gt

pub record IsLawful {ℓ} {A : Type ℓ} (c : A → A → Ordering) : Type ℓ where
  pub flips : (x y : A) → c y x ≡ flip (c x y)
  pub lt_trans : (x y z : A) → c x y ≡ lt → c y z ≡ lt → c x z ≡ lt
  pub eq_left : (x y z : A) → c x y ≡ eq → c x z ≡ c y z

module _ {ℓ} {A : Type ℓ} where
  pub constant-IsLawful : IsLawful {A = A} (λ x y. eq)
  constant-IsLawful = record {
    flips = λ x y. refl;
    lt_trans = λ x y z p q. p;
    eq_left = λ x y z p. refl;
  }

  pub flip-IsLawful : {c : A → A → Ordering} → IsLawful c → IsLawful (λ x y. flip (c x y))
  flip-IsLawful {c} h = record {
    flips = λ x y. ap flip (h.flips x y);
    lt_trans = λ x y z p q.
        let yx : c y x ≡ lt = h.flips x y ∙ p in
        let zy : c z y ≡ lt = h.flips y z ∙ q in sym (h.flips x z) ∙ h.lt_trans z y x zy yx;
    eq_left = λ x y z p. ap flip (h.eq_left x y z (flipped (c x y) p));
  }
    where
      flipped : (o : Ordering) → flip o ≡ eq → o ≡ eq
      flipped lt p = absurd (cc)
      flipped eq p = refl
      flipped gt p = absurd (cc)

  pub pulled-IsLawful {κ} :
      {B : Type κ} (f : B → A) {c : A → A → Ordering} → IsLawful c → IsLawful (λ x y. c (f x) (f y))
  pulled-IsLawful f h = record {
    flips = λ x y. h.flips (f x) (f y);
    lt_trans = λ x y z. h.lt_trans (f x) (f y) (f z);
    eq_left = λ x y z. h.eq_left (f x) (f y) (f z);
  }

  module _ {c : A → A → Ordering} (h : IsLawful c) where
    eq_right : (x y z : A) → c y z ≡ eq → c x y ≡ c x z
    eq_right x y z p = h.flips y x ∙ ap flip (h.eq_left y z x p) ∙ sym (h.flips z x)

    pub asym : (x y : A) → is_lt (c x y) ≡ true → is_lt (c y x) ≡ false
    asym x y p = subst (λ o. is_lt o ≡ false) (sym (h.flips x y)) (turned (c x y) p)
      where
        turned : (o : Ordering) → is_lt o ≡ true → is_lt (flip o) ≡ false
        turned lt q = refl
        turned eq q = refl
        turned gt q = absurd (cc)

    -- What is not below what is not below is not below.
    pub trans' : (x y z : A) → is_lt (c y x) ≡ false → is_lt (c z y) ≡ false → is_lt (c z x) ≡ false
    trans' x y z p q = by (c x y) (c y z) refl refl
      where
        above : (a b : Ordering) → b ≡ flip a → is_lt b ≡ false → (a ≡ lt) ⊎ (a ≡ eq)
        above lt b e r = inl refl
        above eq b e r = inr refl
        above gt b e r = absurd (ground (arith, e, r))

        behind : (o : Ordering) → o ≡ c x z → (c x z ≡ lt) ⊎ (c x z ≡ eq) → is_lt (c z x) ≡ false
        behind o e (inl r) = subst (λ w. is_lt w ≡ false) (sym (h.flips x z ∙ ap flip r)) refl
        behind o e (inr r) = subst (λ w. is_lt w ≡ false) (sym (h.flips x z ∙ ap flip r)) refl

        by : (a b : Ordering) → a ≡ c x y → b ≡ c y z → is_lt (c z x) ≡ false
        by a b _ _ = elim (above (c x y) (c y x) (h.flips x y) p) [
          | inl r ↦ elim (above (c y z) (c z y) (h.flips y z) q) [
            | inl s ↦ behind (c x z) refl (inl (h.lt_trans x y z r s))
            | inr s ↦ behind (c x z) refl (inl (sym (eq_right x y z s) ∙ r))
          ]
          | inr r ↦ elim (above (c y z) (c z y) (h.flips y z) q) [
            | inl s ↦ behind (c x z) refl (inl (h.eq_left x y z r ∙ s))
            | inr s ↦ behind (c x z) refl (inr (h.eq_left x y z r ∙ s))
          ]
        ]

first-cases : (a b : Ordering) → first a b ≡ lt → (a ≡ lt) ⊎ ((a ≡ eq) × (b ≡ lt))
first-cases lt b p = inl refl
first-cases eq b p = inr (refl, p)
first-cases gt b p = absurd (cc)

flip-first : (a b : Ordering) → first (flip a) (flip b) ≡ flip (first a b)
flip-first lt b = refl
flip-first eq b = refl
flip-first gt b = refl

first-eq : (a b : Ordering) → first a b ≡ eq → (a ≡ eq) × (b ≡ eq)
first-eq lt b p = absurd (cc)
first-eq eq b p = (refl, p)
first-eq gt b p = absurd (cc)

led : {a : Ordering} (b : Ordering) → a ≡ lt → first a b ≡ lt
led b p = ap (λ o. first o b) p

tied : {a b o : Ordering} → a ≡ eq → b ≡ o → first a b ≡ o
tied {b = b} p q = ap (λ x. first x b) p ∙ q

pub first-IsLawful {ℓ} :
    {A : Type ℓ} {c d : A → A → Ordering}
    → IsLawful c
    → IsLawful d
    → IsLawful (λ x y. first (c x y) (d x y))
first-IsLawful {c = c} {d = d} h k = record {
  flips = λ x y.
      ap (λ o. first o (d y x)) (h.flips x y)
      ∙ ap (first (flip (c x y))) (k.flips x y)
      ∙ flip-first (c x y) (d x y);
  lt_trans = λ x y z p q. elim (first-cases (c x y) (d x y) p) [
    | inl a ↦ elim (first-cases (c y z) (d y z) q) [
      | inl b ↦ led _ (h.lt_trans x y z a b)
      | inr b ↦ led _ (sym (eq_right h x y z b.0) ∙ a)
    ]
    | inr a ↦ elim (first-cases (c y z) (d y z) q) [
      | inl b ↦ led _ (h.eq_left x y z a.0 ∙ b)
      | inr b ↦ tied (h.eq_left x y z a.0 ∙ b.0) (k.lt_trans x y z a.1 b.1)
    ]
  ];
  eq_left = λ x y z p.
      let both = first-eq (c x y) (d x y) p in
      ap (λ o. first o (d x z)) (h.eq_left x y z both.0)
      ∙ ap (first (c y z)) (k.eq_left x y z both.1);
}

pub compare-IsLawful : IsLawful compare
compare-IsLawful = record {
  flips = λ x y. ground arith;
  lt_trans = λ x y z p q. ground arith;
  eq_left = λ x y z p. ground arith;
}

abbrev pub compare_ints : ℤ → ℤ → Ordering
compare_ints a b = compare (pos_part a + neg_part b) (pos_part b + neg_part a)

pub compare_ints-IsLawful : IsLawful compare_ints
compare_ints-IsLawful = record {
  flips = λ x y. ground arith;
  lt_trans = λ x y z p q. ground arith;
  eq_left = λ x y z p. ground arith;
}

-- strings.Compare
unfoldable pub compare_bytes : Bytes → Bytes → Ordering
compare_bytes [] [] = eq
compare_bytes [] (y ∷ ys) = lt
compare_bytes (x ∷ xs) [] = gt
compare_bytes (x ∷ xs) (y ∷ ys) = first (compare x y) (compare_bytes xs ys)

compare_bytes_flips : (s t : Bytes) → compare_bytes t s ≡ flip (compare_bytes s t)
unfolding compare_bytes
compare_bytes_flips [] [] = refl
compare_bytes_flips [] (y ∷ t) = refl
compare_bytes_flips (x ∷ s) [] = refl
compare_bytes_flips (x ∷ s) (y ∷ t) =
    ap (λ o. first o (compare_bytes t s)) (compare-IsLawful.flips x y)
    ∙ ap (first (flip (compare x y))) (compare_bytes_flips s t)
    ∙ flip-first (compare x y) (compare_bytes s t)

compare_bytes_eq_left :
    (s t u : Bytes) → compare_bytes s t ≡ eq → compare_bytes s u ≡ compare_bytes t u
unfolding compare_bytes
compare_bytes_eq_left [] [] u p = refl
compare_bytes_eq_left [] (y ∷ t) u p = absurd (cc)
compare_bytes_eq_left (x ∷ s) [] u p = absurd (cc)
compare_bytes_eq_left (x ∷ s) (y ∷ t) [] p = refl
compare_bytes_eq_left (x ∷ s) (y ∷ t) (z ∷ u) p =
    let both = first-eq (compare x y) (compare_bytes s t) p in
    ap (λ o. first o (compare_bytes s u)) (compare-IsLawful.eq_left x y z both.0)
    ∙ ap (first (compare y z)) (compare_bytes_eq_left s t u both.1)

compare_bytes_trans :
    (s t u : Bytes) → compare_bytes s t ≡ lt → compare_bytes t u ≡ lt → compare_bytes s u ≡ lt
unfolding compare_bytes
compare_bytes_trans [] [] u p q = absurd (cc)
compare_bytes_trans [] (y ∷ t) [] p q = absurd (cc)
compare_bytes_trans [] (y ∷ t) (z ∷ u) p q = refl
compare_bytes_trans (x ∷ s) [] u p q = absurd (cc)
compare_bytes_trans (x ∷ s) (y ∷ t) [] p q = absurd (cc)
compare_bytes_trans (x ∷ s) (y ∷ t) (z ∷ u) p q =
    elim (first-cases (compare x y) (compare_bytes s t) p) [
      | inl a ↦ elim (first-cases (compare y z) (compare_bytes t u) q) [
        | inl b ↦ led _ (compare-IsLawful.lt_trans x y z a b)
        | inr b ↦ led _ (sym (eq_right compare-IsLawful x y z b.0) ∙ a)
      ]
      | inr a ↦ elim (first-cases (compare y z) (compare_bytes t u) q) [
        | inl b ↦ led _ (compare-IsLawful.eq_left x y z a.0 ∙ b)
        | inr b ↦
            tied (compare-IsLawful.eq_left x y z a.0 ∙ b.0) (compare_bytes_trans s t u a.1 b.1)
      ]
    ]

pub compare_bytes-IsLawful : IsLawful compare_bytes
compare_bytes-IsLawful = record {
  flips = compare_bytes_flips;
  lt_trans = compare_bytes_trans;
  eq_left = compare_bytes_eq_left;
}
