-- ===== src/Retention/Plan/Free.antt =====
-- internal/retention/evaluator.go: the loops of `plan` and the candidates that are not protected.
use logpond.Base.{
  or_left, or_right, ℕ, ◌≡◌, refl, sym, subst, ◌⊎◌, inl, inr, Bool, true, false, not, ◌&&◌, ◌||◌,
  List, [], ◌∷◌, Option, none, some, arith, any, All, map-All, Bool-cases, if◌then◌else◌,
}
use logpond.Base.Text.{Bytes, equal, equal_iff, equal_refl}
use logpond.Base.Int64.{sub64, is_positive}
use logpond.Retention.Plan.{
  Options, Reason, size_over, Candidate, Selected, has_reason, add_unless, age_entry, select_by_age,
  evict, select_by_size, selected,
}
use logpond.Retention.Plan.Selection.{evict-stop, evict-skip, evict-take}

-- Some candidate with this id is not protected.
abbrev pub is_free : List Candidate → Bytes → Bool
is_free cs id = any (λ c. equal c.seg.id id && not c.protected) cs

-- A selection holds free ids only.
abbrev pub Sound : List Candidate → Selected → Type 0
Sound all sel = (id : Bytes) → has_reason id sel ≡ true → is_free all id ≡ true

-- Each candidate that is not protected makes its id free.
abbrev pub Within : List Candidate → List Candidate → Type 0
Within all cs = All (λ c. c.protected ≡ false → is_free all c.seg.id ≡ true) cs

pub or_cases : (a b : Bool) → a || b ≡ true → (a ≡ true) ⊎ (b ≡ true)
or_cases a b h = ground arith

Sound-new :
    (all : List Candidate) (id : Bytes) (r : Reason) (sel : Selected)
    → is_free all id ≡ true
    → Sound all sel
    → Sound all ((id, r) ∷ sel)
Sound-new all id r sel free h key k = elim (or_cases (equal id key) (has_reason key sel) k) [
  | inl e ↦ subst (λ x. is_free all x ≡ true) ((equal_iff id key).0 e) free
  | inr e ↦ h key e
]

Sound-add_unless :
    (all : List Candidate) (id : Bytes) (r : Reason) (sel : Selected)
    → is_free all id ≡ true
    → Sound all sel
    → Sound all (add_unless id r sel)
Sound-add_unless all id r sel free h = elim (Bool-cases (has_reason id sel)) [
  | inl e ↦ rw e h
  | inr e ↦ rw e (Sound-new all id r sel free h)
]

age_entry-Sound :
    (all : List Candidate) (c : Candidate) (b : Bool) (r : Option Reason) (sel : Selected)
    → (b ≡ false → is_free all c.seg.id ≡ true)
    → Sound all sel
    → Sound all (age_entry c b r sel)
age_entry-Sound all c true r sel free h = h
age_entry-Sound all c false none sel free h = h
age_entry-Sound all c false (some r) sel free h = Sound-new all c.seg.id r sel (free refl) h

select_by_age-Sound :
    (all cs : List Candidate) (sel : Selected)
    → Within all cs
    → Sound all sel
    → Sound all (select_by_age cs sel)
unfolding select_by_age
select_by_age-Sound all [] sel w h = h
select_by_age-Sound all (c ∷ cs) sel w h =
    select_by_age-Sound all cs _ w.1 (age_entry-Sound all c c.protected c.age_reason sel w.0 h)

evict-Sound :
    (all : List Candidate) (max over : ℕ) (cs : List Candidate) (sel : Selected)
    → Within all cs
    → Sound all sel
    → Sound all (evict max over cs sel)
unfolding evict
evict-Sound all max over [] sel w h = h
evict-Sound all max over (c ∷ cs) sel w h = elim (Bool-cases (is_positive over)) [
  | inr stop ↦ subst (Sound all) (sym (evict-stop max over c cs sel stop)) h
  | inl on ↦ elim (Bool-cases c.protected) [
    | inl p ↦
        subst (Sound all) (sym (evict-skip max over c cs sel on p))
          (evict-Sound all max over cs sel w.1 h)
    | inr p ↦ subst (Sound all) (sym (evict-take max over c cs sel on p)) (
        evict-Sound all max (sub64 over c.seg.size_bytes) cs _ w.1
          (Sound-add_unless all c.seg.id (size_over max) sel (w.0 p) h))
  ]
]

Sound-if :
    (all : List Candidate) (b : Bool) (s t : Selected)
    → Sound all s
    → Sound all t
    → Sound all (if b then s else t)
Sound-if all true s t h k = h
Sound-if all false s t h k = k

Within-itself : (cs : List Candidate) → Within cs cs
Within-itself [] = tt
Within-itself (c ∷ cs) = (
  λ p. or_left _ _ (both (equal_refl c.seg.id) p),
  map-All (λ d h p. or_right _ _ (h p)) cs (Within-itself cs),
)
  where
    both : {a b : Bool} → a ≡ true → b ≡ false → a && not b ≡ true
    both h k = ground (arith, h, k)

pub selected-Sound : (o : Options) (cs : List Candidate) → Sound cs (selected o cs)
unfolding select_by_size
selected-Sound o cs =
    Sound-if cs _ (evict o.max_size _ cs aged) aged
      (evict-Sound cs o.max_size _ cs aged (Within-itself cs) aged-Sound) aged-Sound
  where
    aged : Selected
    aged = select_by_age cs []

    aged-Sound : Sound cs aged
    aged-Sound = select_by_age-Sound cs cs [] (Within-itself cs) (λ id h. absurd cc)
