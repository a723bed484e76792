-- ===== src/Catalog/Order.antt =====
-- ORDER BY of internal/catalog/catalog.go, as a stable insertion sort.
pub mod Rows
use logpond.Base.{
  ◌+◌, ◌≡◌, refl, ap, ◌∙◌, Bool, true, false, List, [], ◌∷◌, arith, All, any, ◌||◌, Bool-cases, inl,
  inr, if◌then◌else◌, count,
}

module _ {ℓ} {A : Type ℓ} (before : A → A → Bool) where
  -- `before x y`: x goes in front of y.
  unfoldable pub insert : A → List A → List A
  insert x [] = x ∷ []
  insert x (y ∷ ys) = let rest = insert x ys in if before y x then y ∷ rest else x ∷ y ∷ ys

  unfoldable pub order_by : List A → List A
  order_by [] = []
  order_by (x ∷ xs) = insert x (order_by xs)

  -- No element stands in front of an earlier one by `before`.
  abbrev pub IsOrdered : List A → Type ℓ
  IsOrdered [] = Unit
  IsOrdered (x ∷ xs) = All (λ y. before y x ≡ false) xs × IsOrdered xs

  count-insert :
      (p : A → Bool) (x : A) (xs : List A)
      → count p (insert x xs) ≡ (if p x then 1 else 0) + count p xs
  unfolding insert
  count-insert p x [] = refl
  count-insert p x (y ∷ ys) = elim (Bool-cases (before y x)) [
    | inl h ↦ rw h (omega (arith, count-insert p x ys))
    | inr h ↦ rw h refl
  ]

  -- The rows of the result are those of the table.
  pub count-order_by : (p : A → Bool) (xs : List A) → count p (order_by xs) ≡ count p xs
  unfolding order_by
  count-order_by p [] = refl
  count-order_by p (x ∷ xs) =
      count-insert p x (order_by xs) ∙ ap (◌+◌ (if p x then 1 else 0)) (count-order_by p xs)

  All-insert {κ} : (P : A → Type κ) (x : A) (xs : List A) → P x → All P xs → All P (insert x xs)
  unfolding insert
  All-insert P x [] p h = (p, tt)
  All-insert P x (y ∷ ys) p h = elim (Bool-cases (before y x)) [
    | inl e ↦ rw e (h.0, All-insert P x ys p h.1)
    | inr e ↦ rw e (p, h)
  ]

  pub All-order_by {κ} : (P : A → Type κ) (xs : List A) → All P xs → All P (order_by xs)
  unfolding order_by
  All-order_by P [] h = tt
  All-order_by P (x ∷ xs) h = All-insert P x (order_by xs) h.0 (All-order_by P xs h.1)

  module _ (asym : (x y : A) → before x y ≡ true → before y x ≡ false)
      (trans : (x y z : A) → before y x ≡ false → before z y ≡ false → before z x ≡ false) where
    pub behind-All :
        (x y : A) (ys : List A)
        → before y x ≡ false
        → All (λ z. before z y ≡ false) ys
        → All (λ z. before z x ≡ false) ys
    behind-All x y [] p h = tt
    behind-All x y (z ∷ zs) p h = (trans x y z p h.0, behind-All x y zs p h.1)

    insert-IsOrdered : (x : A) (xs : List A) → IsOrdered xs → IsOrdered (insert x xs)
    unfolding insert
    insert-IsOrdered x [] h = (tt, tt)
    insert-IsOrdered x (y ∷ ys) h = elim (Bool-cases (before y x)) [
      | inl e ↦
          rw e
            (All-insert (λ z. before z y ≡ false) x ys (asym y x e) h.0, insert-IsOrdered x ys h.1)
      | inr e ↦ rw e ((e, behind-All x y ys e h.0), h)
    ]

    pub order_by-IsOrdered : (xs : List A) → IsOrdered (order_by xs)
    unfolding order_by
    order_by-IsOrdered [] = tt
    order_by-IsOrdered (x ∷ xs) = insert-IsOrdered x (order_by xs) (order_by-IsOrdered xs)

  any-insert : (p : A → Bool) (x : A) (xs : List A) → any p (insert x xs) ≡ p x || any p xs
  unfolding insert
  any-insert p x [] = refl
  any-insert p x (y ∷ ys) = elim (Bool-cases (before y x)) [
    | inl h ↦ rw (h, any-insert p x ys) (swap (p y) (p x) (any p ys))
    | inr h ↦ rw h refl
  ]
    where
      swap : (a b c : Bool) → a || (b || c) ≡ b || (a || c)
      swap a b c = ground arith

  pub any-order_by : (p : A → Bool) (xs : List A) → any p (order_by xs) ≡ any p xs
  unfolding order_by
  any-order_by p [] = refl
  any-order_by p (x ∷ xs) = any-insert p x (order_by xs) ∙ ap (◌||◌ (p x)) (any-order_by p xs)
