-- ===== src/Base/Find.antt =====
-- The row of a key, in a table of rows.
use mathlib.Core.Path.{◌≡◌, refl, sym, subst, ap, ◌∙◌}
use mathlib.Core.Logic.{inl, inr}
use mathlib.Core.Bool.{Bool, true, false}
use mathlib.Core.Option.{Option, some, none}
use mathlib.Core.List.{List, [], ◌∷◌, ◌++◌}
use native.Mathlib.Omega.{arith}
use logpond.Base.Tests.{if◌then◌else◌, Bool-cases, ||-eq-false}
use logpond.Base.Lists.{any, filter}
use logpond.Base.Text.{Bytes, equal, equal_iff}
use logpond.Base.Unique.{equal_comm, has_key, IsUnique, update_at}

module _ {ℓ} {A : Type ℓ} (key : A → Bytes) where
  abbrev pub find_key : Bytes → List A → Option A
  find_key k [] = none
  find_key k (x ∷ xs) = let later = find_key k xs in if has_key key k x then some x else later

  find_key-absent :
      (k : Bytes) (xs : List A) → any (has_key key k) xs ≡ false → find_key k xs ≡ none
  find_key-absent k [] h = refl
  find_key-absent k (x ∷ xs) h =
      let (first, later) = ||-eq-false (has_key key k x) _ h in
      rw first (find_key-absent k xs later)

  pub find_key-any :
      (k : Bytes) (xs : List A) {x : A} → find_key k xs ≡ some x → any (has_key key k) xs ≡ true
  find_key-any k [] h = absurd (ground (arith, h))
  find_key-any k (x ∷ xs) h = elim (Bool-cases (has_key key k x)) [
    | inl e ↦ rw e refl
    | inr e ↦ rw e (find_key-any k xs (rw e at h))
  ]

  pub find_key-snoc :
      (k : Bytes) (xs : List A) (x : A)
      → any (has_key key (key x)) xs ≡ false
      → find_key k (xs ++ x ∷ []) ≡ (if has_key key k x then some x else find_key k xs)
  find_key-snoc k [] x h = refl
  find_key-snoc k (y ∷ xs) x h =
      let (first, later) = ||-eq-false (has_key key (key x) y) _ h in
      elim (Bool-cases (has_key key k y)) [
        | inl e ↦
            rw
              (
                e,
                subst (λ j. equal (key x) j ≡ false) ((equal_iff (key y) k).0 e)
                    (equal_comm (key y) (key x) first),
              )
              refl
        | inr e ↦ rw e (find_key-snoc k xs x later)
      ]

  abbrev pub changed : (A → A) → Option A → Option A
  changed f none = none
  changed f (some x) = some (f x)

  module _ (f : A → A) (same : (x : A) → key (f x) ≡ key x) where
    pub find_key-update_self :
        (k : Bytes) (xs : List A) → find_key k (update_at key k f xs) ≡ changed f (find_key k xs)
    find_key-update_self k [] = refl
    find_key-update_self k (x ∷ xs) = elim (Bool-cases (has_key key k x)) [
      | inl e ↦ rw (e, same x, e) refl
      | inr e ↦ rw (e, e) (find_key-update_self k xs)
    ]

    pub find_key-update_other :
        (k j : Bytes) (xs : List A)
        → equal j k ≡ false
        → find_key k (update_at key j f xs) ≡ find_key k xs
    find_key-update_other k j [] h = refl
    find_key-update_other k j (x ∷ xs) h = elim (Bool-cases (has_key key j x)) [
      | inl e ↦
          let apart : equal (key x) k ≡ false =
            subst (λ i. equal i k ≡ false) (sym ((equal_iff (key x) j).0 e)) h in
          rw (e, same x, apart) (find_key-update_other k j xs h)
      | inr e ↦ rw e (
          ap (λ (o : Option A). if has_key key k x then some x else o)
            (find_key-update_other k j xs h))
    ]

  abbrev pub kept_by : (A → Bool) → Option A → Option A
  kept_by p none = none
  kept_by p (some x) = if p x then some x else none

  -- A deletion, where keys are distinct.
  pub find_key-filter :
      (k : Bytes) (p : A → Bool) (xs : List A)
      → IsUnique key xs
      → find_key k (filter p xs) ≡ kept_by p (find_key k xs)
  find_key-filter k p [] h = refl
  find_key-filter k p (x ∷ xs) h = elim (Bool-cases (has_key key k x)) [
    | inl e ↦ elim (Bool-cases (p x)) [
      | inl q ↦ rw (e, q, e) refl
      | inr q ↦
          rw (e, q)
            (find_key-filter k p xs h.1
              ∙ ap (kept_by p) (
                  find_key-absent k xs
                    (subst (λ j. any (has_key key j) xs ≡ false) ((equal_iff (key x) k).0 e) h.0)))
    ]
    | inr e ↦ elim (Bool-cases (p x)) [
      | inl q ↦ rw (e, q, e) (find_key-filter k p xs h.1)
      | inr q ↦ rw (e, q) (find_key-filter k p xs h.1)
    ]
  ]
