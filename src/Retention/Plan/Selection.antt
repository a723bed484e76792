-- ===== src/Retention/Plan/Selection.antt =====
-- internal/retention/evaluator.go: which segments the loops of `plan` select.
use logpond.Base.{
  ℕ, ◌+◌, ◌-◌, ◌≤◌, ◌<◌, ◌≡◌, refl, sym, subst, ap, ◌∙◌, ◌⊎◌, inl, inr, Bool, true, false, ◌&&◌,
  ◌||◌, List, [], ◌∷◌, Option, none, some, arith, any, All, Bool-cases, if◌then◌else◌, leb, leb→le,
  or_left, or_right,
}
use logpond.Base.Text.{Bytes, equal, equal_iff, equal_refl}
use logpond.Base.Int64.{sign, sub64, is_positive, sub64-eq, sub64-negative}
use logpond.Catalog.Segment.{Segment}
use logpond.Retention.Plan.{
  Options, Reason, size_over, Candidate, Selected, reason_of, has_reason, add_unless, evict, Action,
  with_action, actions_for,
}

abbrev pub is_planned : Bytes → List Action → Bool
is_planned id actions = any (λ a. equal a.segment_id id) actions

abbrev is_some : Option Reason → Bool
is_some none = false
is_some (some r) = true

reason_of-is_some : (id : Bytes) (sel : Selected) → is_some (reason_of id sel) ≡ has_reason id sel
reason_of-is_some id [] = refl
reason_of-is_some id ((key, r) ∷ rest) = elim (Bool-cases (equal key id)) [
  | inl h ↦ rw h refl
  | inr h ↦ rw h (reason_of-is_some id rest)
]

with_action-is_planned :
    (o : Options) (s : Segment) (r : Option Reason) (later : List Action) (id : Bytes)
    → is_planned id (with_action o s r later) ≡ is_some r && equal s.id id || is_planned id later
with_action-is_planned o s none later id = refl
with_action-is_planned o s (some r) later id = refl

absorb : (h e a : Bool) → h && e || h && a ≡ h && (e || a)
absorb h e a = ground arith

absorb_false : (k h a : Bool) → k && false || h && a ≡ h && (false || a)
absorb_false k h a = ground arith

-- A segment has an action if it is selected and among the candidates.
pub actions_for-is_planned :
    (o : Options) (sel : Selected) (cs : List Candidate) (id : Bytes)
    → is_planned id (actions_for o sel cs) ≡ has_reason id sel && any (λ c. equal c.seg.id id) cs
unfolding actions_for
actions_for-is_planned o sel [] id = ground arith
actions_for-is_planned o sel (c ∷ cs) id =
    with_action-is_planned o c.seg (reason_of c.seg.id sel) (actions_for o sel cs) id
    ∙ rw (reason_of-is_some c.seg.id sel, actions_for-is_planned o sel cs id)
        (elim (Bool-cases (equal c.seg.id id)) [
          | inl h ↦ rw ((equal_iff c.seg.id id).0 h) (absorb (has_reason id sel) (equal id id) _)
          | inr h ↦ rw h (absorb_false (has_reason c.seg.id sel) (has_reason id sel) _)
        ])

pub has_reason-add_unless :
    (key id : Bytes) (r : Reason) (sel : Selected)
    → has_reason id (add_unless key r sel) ≡ equal key id || has_reason id sel
has_reason-add_unless key id r sel = elim (Bool-cases (has_reason key sel)) [
  | inl h ↦ rw h (elim (Bool-cases (equal key id)) [
    | inl e ↦ rw e (ap (λ k. has_reason k sel) (sym ((equal_iff key id).0 e)) ∙ h)
    | inr e ↦ rw e refl
  ])
  | inr h ↦ rw h refl
]

pub evict-stop :
    (max over : ℕ) (c : Candidate) (cs : List Candidate) (sel : Selected)
    → is_positive over ≡ false
    → evict max over (c ∷ cs) sel ≡ sel
unfolding evict
evict-stop max over c cs sel h = rw h refl

pub evict-skip :
    (max over : ℕ) (c : Candidate) (cs : List Candidate) (sel : Selected)
    → is_positive over ≡ true
    → c.protected ≡ true
    → evict max over (c ∷ cs) sel ≡ evict max over cs sel
unfolding evict
evict-skip max over c cs sel h k = rw (h, k) refl

pub evict-take :
    (max over : ℕ) (c : Candidate) (cs : List Candidate) (sel : Selected)
    → is_positive over ≡ true
    → c.protected ≡ false
    → evict max over (c ∷ cs) sel
      ≡ evict max (sub64 over c.seg.size_bytes) cs (add_unless c.seg.id (size_over max) sel)
unfolding evict
evict-take max over c cs sel h k = rw (h, k) refl

-- The size loop takes no segment out.
pub evict-has_reason :
    (max over : ℕ) (cs : List Candidate) (sel : Selected) (id : Bytes)
    → has_reason id sel ≡ true
    → has_reason id (evict max over cs sel) ≡ true
unfolding evict
evict-has_reason max over [] sel id h = h
evict-has_reason max over (c ∷ cs) sel id h = elim (Bool-cases (is_positive over)) [
  | inr stop ↦ rw (evict-stop max over c cs sel stop) h
  | inl on ↦ elim (Bool-cases c.protected) [
    | inl p ↦ rw (evict-skip max over c cs sel on p) (evict-has_reason max over cs sel id h)
    | inr p ↦ rw (evict-take max over c cs sel on p) (
        evict-has_reason max (sub64 over c.seg.size_bytes) cs _ id
          (has_reason-add_unless c.seg.id id (size_over max) sel ∙ or_right _ _ h))
  ]
]

-- The sizes of all candidates, and of those that a selection leaves, as natural numbers.
abbrev pub sizes : List Candidate → ℕ
sizes [] = 0
sizes (c ∷ cs) = c.seg.size_bytes + sizes cs

abbrev pub left_size : Selected → List Candidate → ℕ
left_size sel [] = 0
left_size sel (c ∷ cs) =
    (if has_reason c.seg.id sel then 0 else c.seg.size_bytes) + left_size sel cs

pub left_size-le : (sel : Selected) (cs : List Candidate) → left_size sel cs ≤ sizes cs
left_size-le sel [] = omega arith
left_size-le sel (c ∷ cs) = ground (arith, left_size-le sel cs)

-- Nothing is left but what is protected.
abbrev pub AllTaken : Selected → List Candidate → Type 0
AllTaken sel cs = All (λ c. c.protected || has_reason c.seg.id sel ≡ true) cs

taken_none : (b : Bool) (n m : ℕ) → b ≡ true → (if b then 0 else n) + m ≡ m
taken_none true n m h = omega arith
taken_none false n m h = absurd cc

-- What is over is freed, or everything is taken that may be.
abbrev Freed : ℕ → List Candidate → Selected → Type 0
Freed over cs sel = (left_size sel cs + over ≤ sizes cs) ⊎ AllTaken sel cs

not_positive : (n : ℕ) → n < sign → is_positive n ≡ false → n ≡ 0
not_positive n p h = ground arith

not_le : (a b : ℕ) → leb a b ≡ false → b < a
not_le a b h = ground arith

left_out : (b : Bool) (n m k over : ℕ) → m + over ≤ k → (if b then 0 else n) + m + over ≤ n + k
left_out b n m k over h = ground arith

Freed-skip :
    (over : ℕ) (c : Candidate) (cs : List Candidate) (sel : Selected)
    → c.protected ≡ true
    → Freed over cs sel
    → Freed over (c ∷ cs) sel
Freed-skip over c cs sel p (inl h) =
    inl (left_out (has_reason c.seg.id sel) c.seg.size_bytes (left_size sel cs) (sizes cs) over h)
Freed-skip over c cs sel p (inr h) = inr (or_left c.protected _ p, h)

Freed-take :
    (over : ℕ) (c : Candidate) (cs : List Candidate) (sel : Selected)
    → has_reason c.seg.id sel ≡ true
    → Freed (over - c.seg.size_bytes) cs sel
    → Freed over (c ∷ cs) sel
Freed-take over c cs sel p (inl h) =
    inl (ground (arith, taken_none (has_reason c.seg.id sel) c.seg.size_bytes (left_size sel cs) p))
Freed-take over c cs sel p (inr h) = inr (or_right c.protected _ p, h)

evict-done :
    (max over : ℕ) (cs : List Candidate) (sel : Selected)
    → is_positive over ≡ false
    → evict max over cs sel ≡ sel
unfolding evict
evict-done max over [] sel h = refl
evict-done max over (c ∷ cs) sel h = rw h refl

-- Behind a segment that is taken: what is still over is a positive number, or the loop stops.
Freed-behind :
    (max over size : ℕ) (cs : List Candidate) (sel : Selected)
    → over < sign
    → size < sign
    → sizes cs < sign
    → ((n : ℕ) → n < sign → Freed n cs (evict max n cs sel))
    → Freed (over - size) cs (evict max (sub64 over size) cs sel)
Freed-behind max over size cs sel small fits bound later = elim (Bool-cases (leb size over)) [
  | inl h ↦
      subst (λ n. Freed (over - size) cs (evict max n cs sel))
        (sym (sub64-eq over size small (leb→le size over h))) (later (over - size) (omega arith))
  | inr h ↦
      subst (Freed (over - size) cs)
        (sym (
          evict-done max (sub64 over size) cs sel
            (sub64-negative over size (not_le size over h) fits)))
        (inl (omega (arith, left_size-le sel cs, not_le size over h)))
]

-- The size loop frees what is over, or takes all that it may.
pub evict-Freed :
    (max over : ℕ) (cs : List Candidate) (sel : Selected)
    → over < sign
    → sizes cs < sign
    → Freed over cs (evict max over cs sel)
evict-Freed max over [] sel small bound = inr tt
evict-Freed max over (c ∷ cs) sel small bound = elim (Bool-cases (is_positive over)) [
  | inr stop ↦ inl (
      omega
        (arith, not_positive over small stop, left_size-le (evict max over (c ∷ cs) sel) (c ∷ cs)))
  | inl on ↦ elim (Bool-cases c.protected) [
    | inl p ↦
        subst (Freed over (c ∷ cs)) (sym (evict-skip max over c cs sel on p))
          (Freed-skip over c cs _ p (evict-Freed max over cs sel small (omega arith)))
    | inr p ↦ subst (Freed over (c ∷ cs)) (sym (evict-take max over c cs sel on p)) (
        Freed-take over c cs _
          (evict-has_reason max (sub64 over c.seg.size_bytes) cs _ c.seg.id (
            has_reason-add_unless c.seg.id c.seg.id (size_over max) sel
            ∙ or_left _ _ (equal_refl c.seg.id)))
          (Freed-behind max over c.seg.size_bytes cs _ small (omega arith) (omega arith)
            (λ n p. evict-Freed max n cs _ p (omega arith))))
  ]
]
