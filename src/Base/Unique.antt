-- ===== src/Base/Unique.antt =====
-- Rows whose key is a string that no two of them share.
use mathlib.Core.Path.{◌≡◌, refl, sym, ap, ◌∙◌}
use mathlib.Core.Logic.{inl, inr}
use mathlib.Core.Bool.{Bool, true, false}
use mathlib.Core.List.{List, [], ◌∷◌, ◌++◌, map}
use native.Mathlib.Omega.{arith}
use logpond.Base.Tests.{if◌then◌else◌, Bool-cases, ||-eq-false, ||-false}
use logpond.Base.Lists.{any, filter}
use logpond.Base.Text.{Bytes, equal, equal_iff}

pub equal_comm : (a b : Bytes) → equal a b ≡ false → equal b a ≡ false
equal_comm a b h = elim (Bool-cases (equal b a)) [
  | inl e ↦ absurd (clash ((equal_iff a b).1 (sym ((equal_iff b a).0 e))))
  | inr e ↦ e
]
  where
    clash : equal a b ≡ true → ⊥
    clash k = ground (arith, h, k)

module _ {ℓ} {A : Type ℓ} (key : A → Bytes) where
  abbrev pub has_key : Bytes → A → Bool
  has_key k x = equal (key x) k

  abbrev pub IsUnique : List A → Type 0
  IsUnique [] = Unit
  IsUnique (x ∷ xs) = (any (has_key (key x)) xs ≡ false) × IsUnique xs

  -- A write to the rows of one key.
  abbrev pub update_at : Bytes → (A → A) → List A → List A
  update_at k f = map (λ x. if has_key k x then f x else x)

  module _ (k : Bytes) (f : A → A) (same : (x : A) → key (f x) ≡ key x) where
    pub any-update_at :
        (j : Bytes) (xs : List A) → any (has_key j) (update_at k f xs) ≡ any (has_key j) xs
    any-update_at j [] = refl
    any-update_at j (x ∷ xs) = elim (Bool-cases (has_key k x)) [
      | inl h ↦ rw (h, same x, any-update_at j xs) refl
      | inr h ↦ rw (h, any-update_at j xs) refl
    ]

    pub update_at-IsUnique : (xs : List A) → IsUnique xs → IsUnique (update_at k f xs)
    update_at-IsUnique [] h = tt
    update_at-IsUnique (x ∷ xs) h = elim (Bool-cases (has_key k x)) [
      | inl e ↦ rw (e, same x) (any-update_at (key x) xs ∙ h.0, update_at-IsUnique xs h.1)
      | inr e ↦ rw e (any-update_at (key x) xs ∙ h.0, update_at-IsUnique xs h.1)
    ]

  -- A write to a key that is not there.
  pub update_at-absent :
      (k : Bytes) (f : A → A) (xs : List A) → any (has_key k) xs ≡ false → update_at k f xs ≡ xs
  update_at-absent k f [] h = refl
  update_at-absent k f (x ∷ xs) h =
      let (first, later) = ||-eq-false (has_key k x) _ h in
      rw first (ap (◌∷◌ x) (update_at-absent k f xs later))

  any-snoc :
      (j : Bytes) (xs : List A) (x : A)
      → any (has_key j) xs ≡ false
      → equal (key x) j ≡ false
      → any (has_key j) (xs ++ x ∷ []) ≡ false
  any-snoc j [] x p q = rw q refl
  any-snoc j (y ∷ xs) x p q =
      let (first, later) = ||-eq-false (has_key j y) _ p in ||-false first (any-snoc j xs x later q)

  pub snoc-IsUnique :
      (xs : List A) (x : A)
      → IsUnique xs
      → any (has_key (key x)) xs ≡ false
      → IsUnique (xs ++ x ∷ [])
  snoc-IsUnique [] x h new = (refl, tt)
  snoc-IsUnique (y ∷ xs) x h new =
      let (first, later) = ||-eq-false (has_key (key x) y) _ new in
      (any-snoc (key y) xs x h.0 (equal_comm (key y) (key x) first), snoc-IsUnique xs x h.1 later)

  any-filter :
      (p : A → Bool) (j : Bytes) (xs : List A)
      → any (has_key j) xs ≡ false
      → any (has_key j) (filter p xs) ≡ false
  any-filter p j [] h = refl
  any-filter p j (x ∷ xs) h =
      let (first, later) = ||-eq-false (has_key j x) _ h in
      elim (Bool-cases (p x)) [
        | inl e ↦ rw e (||-false first (any-filter p j xs later))
        | inr e ↦ rw e (any-filter p j xs later)
      ]

  pub filter-IsUnique : (p : A → Bool) (xs : List A) → IsUnique xs → IsUnique (filter p xs)
  filter-IsUnique p [] h = tt
  filter-IsUnique p (x ∷ xs) h = elim (Bool-cases (p x)) [
    | inl e ↦ rw e (any-filter p (key x) xs h.0, filter-IsUnique p xs h.1)
    | inr e ↦ rw e (filter-IsUnique p xs h.1)
  ]
