-- ===== src/Catalog/Writes.antt =====
-- What a write of internal/catalog/catalog.go to one row keeps of the others.
use logpond.Base.{
  ◌≡◌, refl, sym, Bool, true, false, [], ◌∷◌, Option, none, some, All, Bool-cases, inl, inr, any,
  arith, ||-eq-false, if◌then◌else◌,
}
use logpond.Base.Text.{Bytes, equal, equal_iff}
use logpond.Catalog.Segment.{Segment}
use logpond.Catalog.Keys.{HasKeys}
use logpond.Catalog.Table.{Table, has_id, update_where, update_one}

pub All-update_where {κ μ} :
    (P : Segment → Type κ) (Q : Segment → Type μ) (id : Bytes) (f : Segment → Segment)
    → ((s : Segment) → has_id id s ≡ true → P s → Q (f s))
    → ((s : Segment) → has_id id s ≡ false → P s → Q s)
    → (t : Table) → All P t
    → All Q (update_where id f t)
All-update_where P Q id f step same [] h = tt
All-update_where P Q id f step same (s ∷ t) h = elim (Bool-cases (has_id id s)) [
  | inl e ↦ rw e (step s e h.0, All-update_where P Q id f step same t h.1)
  | inr e ↦ rw e (same s e h.0, All-update_where P Q id f step same t h.1)
]

-- A property of the table that a write may end with, or not write at all.
abbrev pub AllOf {κ} : (P : Segment → Type κ) → Option Table → Type κ
AllOf P none = Unit
AllOf P (some t) = All P t

pub AllOf-update_one {κ} :
    (P : Segment → Type κ) (id : Bytes) (f : Segment → Segment)
    → ((s : Segment) → has_id id s ≡ true → P s → P (f s))
    → (t : Table) → All P t
    → AllOf P (update_one id f t)
AllOf-update_one P id f step t h =
    either (any (has_id id) t) (All-update_where P P id f step (λ s e k. k) t h)
  where
    either :
        (b : Bool)
        → All P (update_where id f t)
        → AllOf P (if b then some (update_where id f t) else none)
    either true k = k
    either false k = tt

-- Where no row has the id.
pub All-without {κ μ} :
    (P : Segment → Type κ) (Q : Segment → Type μ) (id : Bytes)
    → ((s : Segment) → has_id id s ≡ false → P s → Q s)
    → (t : Table) → any (has_id id) t ≡ false
    → All P t
    → All Q t
All-without P Q id same [] e h = tt
All-without P Q id same (s ∷ t) e h =
    let (first, later) = ||-eq-false (has_id id s) _ e in
    (same s first h.0, All-without P Q id same t later h.1)

absent :
    (s : Segment) (t : Table)
    → any (has_id s.id) t ≡ false
    → All (λ r. has_id s.id r ≡ true → r ≡ s) t
absent s [] e = tt
absent s (r ∷ t) e =
    let (first, later) = ||-eq-false (has_id s.id r) _ e in
    (λ k. absurd (clash first k), absent s t later)
  where
    clash : {b : Bool} → b ≡ false → b ≡ true → ⊥
    clash p q = ground (arith, p, q)

-- Under a key, a row with the id of a row is that row.
pub HasKeys-unique :
    (t : Table) → HasKeys t → All (λ s. All (λ r. has_id s.id r ≡ true → r ≡ s) t) t
HasKeys-unique [] h = tt
HasKeys-unique (s ∷ t) h =
    ((λ k. refl, absent s t h.0), behind t (absent s t h.0) (HasKeys-unique t h.1))
  where
    behind :
        (rest : Table)
        → All (λ r. has_id s.id r ≡ true → r ≡ s) rest
        → All (λ x. All (λ r. has_id x.id r ≡ true → r ≡ x) t) rest
        → All (λ x. All (λ r. has_id x.id r ≡ true → r ≡ x) (s ∷ t)) rest
    behind [] f g = tt
    behind (x ∷ rest) f g = ((λ k. sym (f.0 (flip x k)), g.0), behind rest f.1 g.1)
      where
        flip : (x : Segment) → equal s.id x.id ≡ true → equal x.id s.id ≡ true
        flip x k = (equal_iff x.id s.id).1 (sym ((equal_iff s.id x.id).0 k))
