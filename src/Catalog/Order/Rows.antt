-- ===== src/Catalog/Order/Rows.antt =====
-- ORDER BY of internal/catalog/catalog.go on a table to which a row is added, in which rows are
-- changed, and from which rows are deleted.
use logpond.Base.{
  ◌≡◌, refl, sym, ap, ◌∙◌, Bool, true, false, List, [], ◌∷◌, ◌++◌, map, All, filter, filter-All,
  Bool-cases, inl, inr, if◌then◌else◌,
}
use logpond.Catalog.Order.{insert, order_by, IsOrdered, order_by-IsOrdered, behind-All}

module _ {ℓ} {A : Type ℓ} (before : A → A → Bool) where
  insert-snoc :
      (x s : A) (ys : List A)
      → before s x ≡ false
      → insert before x (ys ++ s ∷ []) ≡ insert before x ys ++ s ∷ []
  unfolding insert
  insert-snoc x s [] h = rw h refl
  insert-snoc x s (y ∷ ys) h = elim (Bool-cases (before y x)) [
    | inl e ↦ rw e (ap (◌∷◌ y) (insert-snoc x s ys h))
    | inr e ↦ rw e refl
  ]

  -- A row that stands before no other comes last.
  pub order_by-snoc :
      (xs : List A) (s : A)
      → All (λ x. before s x ≡ false) xs
      → order_by before (xs ++ s ∷ []) ≡ order_by before xs ++ s ∷ []
  unfolding order_by insert
  order_by-snoc [] s h = refl
  order_by-snoc (x ∷ xs) s h =
      ap (insert before x) (order_by-snoc xs s h.1) ∙ insert-snoc x s (order_by before xs) h.0

  module _ (f : A → A) (same : (x y : A) → before (f x) (f y) ≡ before x y) where
    insert-map : (x : A) (ys : List A) → insert before (f x) (map f ys) ≡ map f (insert before x ys)
    unfolding insert
    insert-map x [] = refl
    insert-map x (y ∷ ys) = elim (Bool-cases (before y x)) [
      | inl e ↦ rw (same y x, e) (ap (◌∷◌ (f y)) (insert-map x ys))
      | inr e ↦ rw (same y x, e) refl
    ]

    -- A change that keeps the columns of the order keeps the order.
    pub order_by-map : (xs : List A) → order_by before (map f xs) ≡ map f (order_by before xs)
    unfolding order_by
    order_by-map [] = refl
    order_by-map (x ∷ xs) =
        ap (insert before (f x)) (order_by-map xs) ∙ insert-map x (order_by before xs)

  insert-front :
      (x : A) (ys : List A) → All (λ y. before y x ≡ false) ys → insert before x ys ≡ x ∷ ys
  unfolding insert
  insert-front x [] h = refl
  insert-front x (y ∷ ys) h = rw h.0 refl

  module _ (asym : (x y : A) → before x y ≡ true → before y x ≡ false)
      (trans : (x y z : A) → before y x ≡ false → before z y ≡ false → before z x ≡ false)
      (p : A → Bool) where
    filter-insert :
        (x : A) (ys : List A)
        → IsOrdered before ys
        → filter p (insert before x ys)
          ≡ (if p x then insert before x (filter p ys) else filter p ys)
    unfolding insert
    filter-insert x [] h = refl
    filter-insert x (y ∷ ys) h = elim (Bool-cases (before y x)) [
      | inl e ↦ elim (Bool-cases (p x)) [
        | inl k ↦ elim (Bool-cases (p y)) [
          | inl q ↦ rw (e, k, q, e) (ap (◌∷◌ y) (rw k at (filter-insert x ys h.1)))
          | inr q ↦ rw (e, k, q) (rw k at (filter-insert x ys h.1))
        ]
        | inr k ↦ elim (Bool-cases (p y)) [
          | inl q ↦ rw (e, k, q) (ap (◌∷◌ y) (rw k at (filter-insert x ys h.1)))
          | inr q ↦ rw (e, k, q) (rw k at (filter-insert x ys h.1))
        ]
      ]
      | inr e ↦ elim (Bool-cases (p x)) [
        | inl k ↦
            rw (e, k)
              (sym (
                insert-front x (filter p (y ∷ ys)) (
                  filter-All (λ z. before z x ≡ false) p (y ∷ ys)
                    (e, behind-All before asym trans x y ys e h.0))))
        | inr k ↦ rw (e, k) refl
      ]
    ]

    -- To delete rows and then to order is to order and then to leave them out.
    pub order_by-filter :
        (xs : List A) → order_by before (filter p xs) ≡ filter p (order_by before xs)
    unfolding order_by
    order_by-filter [] = refl
    order_by-filter (x ∷ xs) =
        let step = filter-insert x (order_by before xs) (order_by-IsOrdered before asym trans xs) in
        elim (Bool-cases (p x)) [
          | inl k ↦ rw k (ap (insert before x) (order_by-filter xs) ∙ sym (rw k at step))
          | inr k ↦ rw k (order_by-filter xs ∙ sym (rw k at step))
        ]
