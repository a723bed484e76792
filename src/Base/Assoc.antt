-- ===== src/Base/Assoc.antt =====
-- A Go map with string keys, as the list of its entries: a write to a new key goes to the end.
use mathlib.Core.Path.{◌≡◌, refl, sym, subst, ap}
use mathlib.Core.Logic.{inl, inr}
use mathlib.Core.Bool.{Bool, true, false, ◌||◌, not}
use mathlib.Core.Option.{Option, some, none}
use mathlib.Core.List.{List, [], ◌∷◌, ◌++◌}
use native.Mathlib.Omega.{arith}
use logpond.Base.Tests.{if◌then◌else◌, Bool-cases}
use logpond.Base.Lists.{any, filter, All}
use logpond.Base.Text.{Bytes, equal, equal_iff, equal_refl}

abbrev pub Assoc {ℓ} : Type ℓ → Type ℓ
Assoc V = List (Bytes × V)

module _ {ℓ} {V : Type ℓ} where
  -- `v, ok := m[k]`
  abbrev pub lookup : Bytes → Assoc V → Option V
  lookup k [] = none
  lookup k ((j, v) ∷ m) = let later = lookup k m in if equal j k then some v else later

  abbrev pub has : Bytes → Assoc V → Bool
  has k [] = false
  has k ((j, v) ∷ m) = equal j k || has k m

  -- `m[k] = v`
  abbrev pub put : Bytes → V → Assoc V → Assoc V
  put k v [] = (k, v) ∷ []
  put k v ((j, u) ∷ m) = let later = put k v m in if equal j k then (j, v) ∷ m else (j, u) ∷ later

  -- `delete(m, k)`
  abbrev pub remove : Bytes → Assoc V → Assoc V
  remove k [] = []
  remove k ((j, v) ∷ m) = let later = remove k m in if equal j k then later else (j, v) ∷ later

  abbrev pub keys : Assoc V → List Bytes
  keys [] = []
  keys ((j, v) ∷ m) = j ∷ keys m

  pub put-fresh : (k : Bytes) (v : V) (m : Assoc V) → has k m ≡ false → put k v m ≡ m ++ (k, v) ∷ []
  put-fresh k v [] h = refl
  put-fresh k v ((j, u) ∷ m) h = elim (Bool-cases (equal j k)) [
    | inl e ↦ absurd (ground (arith, h, e))
    | inr e ↦ rw e (ap (◌∷◌ (j, u)) (put-fresh k v m (ground (arith, h, e))))
  ]

  pub keys-put_fresh :
      (k : Bytes) (v : V) (m : Assoc V) → has k m ≡ false → keys (put k v m) ≡ keys m ++ k ∷ []
  keys-put_fresh k v [] h = refl
  keys-put_fresh k v ((j, u) ∷ m) h = elim (Bool-cases (equal j k)) [
    | inl e ↦ absurd (ground (arith, h, e))
    | inr e ↦ rw e (ap (◌∷◌ j) (keys-put_fresh k v m (ground (arith, h, e))))
  ]

  -- A write to a key that is there keeps the keys.
  pub keys-put : (k : Bytes) (v : V) (m : Assoc V) → has k m ≡ true → keys (put k v m) ≡ keys m
  keys-put k v [] h = absurd (ground (arith, h))
  keys-put k v ((j, u) ∷ m) h = elim (Bool-cases (equal j k)) [
    | inl e ↦ rw e refl
    | inr e ↦ rw e (ap (◌∷◌ j) (keys-put k v m (ground (arith, h, e))))
  ]

  pub keys-remove :
      (k : Bytes) (m : Assoc V) → keys (remove k m) ≡ filter (λ j. not (equal j k)) (keys m)
  keys-remove k [] = refl
  keys-remove k ((j, v) ∷ m) = elim (Bool-cases (equal j k)) [
    | inl e ↦ rw e (keys-remove k m)
    | inr e ↦ rw e (ap (◌∷◌ j) (keys-remove k m))
  ]

  pub lookup→has : (k : Bytes) (m : Assoc V) {v : V} → lookup k m ≡ some v → has k m ≡ true
  lookup→has k [] h = absurd (ground (arith, h))
  lookup→has k ((j, u) ∷ m) h = elim (Bool-cases (equal j k)) [
    | inl e ↦ rw e refl
    | inr e ↦ rw e (lookup→has k m (rw e at h))
  ]

  pub lookup_none→has : (k : Bytes) (m : Assoc V) → lookup k m ≡ none → has k m ≡ false
  lookup_none→has k [] h = refl
  lookup_none→has k ((j, u) ∷ m) h = elim (Bool-cases (equal j k)) [
    | inl e ↦ absurd (ground (arith, h, e))
    | inr e ↦ rw e (lookup_none→has k m (rw e at h))
  ]

  pub has-keys : (k : Bytes) (m : Assoc V) → has k m ≡ any (λ j. equal j k) (keys m)
  has-keys k [] = refl
  has-keys k ((j, v) ∷ m) = ap (◌||◌ (equal j k)) (has-keys k m)

  pub lookup-put : (k : Bytes) (v : V) (m : Assoc V) → lookup k (put k v m) ≡ some v
  lookup-put k v [] = rw (equal_refl k) refl
  lookup-put k v ((j, u) ∷ m) = elim (Bool-cases (equal j k)) [
    | inl e ↦ rw (e, e) refl
    | inr e ↦ rw (e, e) (lookup-put k v m)
  ]

  pub lookup-put_other :
      (k j : Bytes) (v : V) (m : Assoc V) → equal j k ≡ false → lookup k (put j v m) ≡ lookup k m
  lookup-put_other k j v [] h = rw h refl
  lookup-put_other k j v ((i, u) ∷ m) h = elim (Bool-cases (equal i j)) [
    | inl e ↦
        let apart : equal i k ≡ false =
          subst (λ x. equal x k ≡ false) (sym ((equal_iff i j).0 e)) h in
        rw (e, apart) refl
    | inr e ↦
        rw e (ap (λ (o : Option V). if equal i k then some u else o) (lookup-put_other k j v m h))
  ]

  pub lookup-remove : (k : Bytes) (m : Assoc V) → lookup k (remove k m) ≡ none
  lookup-remove k [] = refl
  lookup-remove k ((j, u) ∷ m) = elim (Bool-cases (equal j k)) [
    | inl e ↦ rw e (lookup-remove k m)
    | inr e ↦ rw (e, e) (lookup-remove k m)
  ]

  pub lookup-remove_other :
      (k j : Bytes) (m : Assoc V) → equal j k ≡ false → lookup k (remove j m) ≡ lookup k m
  lookup-remove_other k j [] h = refl
  lookup-remove_other k j ((i, u) ∷ m) h = elim (Bool-cases (equal i j)) [
    | inl e ↦
        let apart : equal i k ≡ false =
          subst (λ x. equal x k ≡ false) (sym ((equal_iff i j).0 e)) h in
        rw (e, apart) (lookup-remove_other k j m h)
    | inr e ↦
        rw e (ap (λ (o : Option V). if equal i k then some u else o) (lookup-remove_other k j m h))
  ]

  -- A predicate on the values.
  pub put-All {κ} :
      (P : Bytes × V → Type κ) (k : Bytes) (v : V) (m : Assoc V)
      → ((j : Bytes) → P (j, v))
      → All P m
      → All P (put k v m)
  put-All P k v [] p h = (p k, tt)
  put-All P k v ((j, u) ∷ m) p h = elim (Bool-cases (equal j k)) [
    | inl e ↦ rw e (p j, h.1)
    | inr e ↦ rw e (h.0, put-All P k v m p h.1)
  ]

  pub remove-All {κ} :
      (P : Bytes × V → Type κ) (k : Bytes) (m : Assoc V) → All P m → All P (remove k m)
  remove-All P k [] h = tt
  remove-All P k ((j, u) ∷ m) h = elim (Bool-cases (equal j k)) [
    | inl e ↦ rw e (remove-All P k m h.1)
    | inr e ↦ rw e (h.0, remove-All P k m h.1)
  ]
