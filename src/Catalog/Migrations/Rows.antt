-- ===== src/Catalog/Migrations/Rows.antt =====
-- internal/catalog/migrations.go: the rows of the table migrations, in the order they were written.
use logpond.Base.{
  ℕ, ◌<◌, ◌≤◌, ◌≡◌, refl, sym, ap, ◌∙◌, Bool, true, List, [], ◌∷◌, ◌++◌, any, All, All-append,
  map-All, if◌then◌else◌, ltb, ◌==◌, Bool-cases, inl, inr, arith, or_right,
}
use mathlib.Core.List.{append-nil, append_assoc}
use logpond.Catalog.Migrations.{AppliedVersion, is_applied, max_applied}

-- The versions of the table grow from row to row.
abbrev pub IsIncreasing : List AppliedVersion → Type 0
IsIncreasing [] = Unit
IsIncreasing (r ∷ rows) = All (λ s. r.version < s.version) rows × IsIncreasing rows

abbrev pub IsBelow : ℕ → List AppliedVersion → Type 0
IsBelow n rows = All (λ r. r.version ≤ n) rows

at_most : (a b : ℕ) → (a ≤ (if ltb b a then a else b)) × (b ≤ (if ltb b a then a else b))
at_most a b = (ground arith, ground arith)

pub max_applied-IsBelow : (rows : List AppliedVersion) → IsBelow (max_applied rows) rows
max_applied-IsBelow [] = tt
max_applied-IsBelow (r ∷ rows) =
    let (head, rest) = at_most r.version (max_applied rows) in
    (
      head,
      map-All (λ s (l : s.version ≤ max_applied rows). omega (arith, rest, l)) rows
          (max_applied-IsBelow rows),
    )

pub snoc-IsIncreasing :
    (n : ℕ) (rows : List AppliedVersion) (r : AppliedVersion)
    → IsIncreasing rows
    → IsBelow n rows
    → n < r.version
    → IsIncreasing (rows ++ r ∷ [])
snoc-IsIncreasing n [] r h b l = (tt, tt)
snoc-IsIncreasing n (s ∷ rows) r h b l = (
  All-append (λ x. s.version < x.version) rows (r ∷ []) h.0 (omega (arith, b.0, l), tt),
  snoc-IsIncreasing n rows r h.1 b.1 l,
)

any-append {ℓ} :
    {A : Type ℓ} (p : A → Bool) (xs ys : List A) → any p xs ≡ true → any p (xs ++ ys) ≡ true
any-append p [] ys h = absurd (cc)
any-append p (x ∷ xs) ys h = elim (Bool-cases (p x)) [
  | inl e ↦ rw e refl
  | inr e ↦ rw e (any-append p xs ys (sym (rw e refl) ∙ h))
]

pub any-last {ℓ} :
    {A : Type ℓ} (p : A → Bool) (xs : List A) (y : A) → p y ≡ true → any p (xs ++ y ∷ []) ≡ true
any-last p [] y h = rw h refl
any-last p (x ∷ xs) y h = or_right (p x) _ (any-last p xs y h)

-- A list that begins with another.
abbrev pub Extends : List AppliedVersion → List AppliedVersion → Type 0
Extends old rows = (new : List AppliedVersion) × (rows ≡ old ++ new)

pub Extends-any :
    (v : ℕ) (old rows : List AppliedVersion)
    → Extends old rows
    → is_applied v old ≡ true
    → is_applied v rows ≡ true
Extends-any v old rows (new, e) h =
    ap (is_applied v) e ∙ any-append (λ (r : AppliedVersion). v == r.version) old new h

pub Extends-self : (a : List AppliedVersion) → Extends a a
Extends-self a = ([], sym (append-nil a))

pub Extends-trans : (a b c : List AppliedVersion) → Extends a b → Extends b c → Extends a c
Extends-trans a b c (x, e) (y, f) = (x ++ y, f ∙ ap (λ l. l ++ y) e ∙ append_assoc a x y)
