-- ===== src/Ingest/Extractor/Kept.antt =====
-- internal/ingest/extractor.go: what Extract keeps of an object, and the level that it finds.
use logpond.Base.{
  ◌≡◌, refl, sym, subst, ap, ◌∙◌, Bool, true, false, ◌||◌, List, [], ◌∷◌, Option, none, some,
  some-injective, any, arith, Bool-cases, inl, inr, ||-eq-false,
}
use logpond.Base.Assoc.{Assoc, lookup}
use logpond.Base.Int.{ℤ}
use logpond.Base.Text.{Bytes, codes, equal}
use logpond.Query.Value.{
  Value, null, str, bool, float, int, number, arr, obj, Fields, Runtime, parse_int, format_int,
}
use logpond.Query.Event.{Event, split_dots, get_field}
use logpond.Ingest.Extractor.{
  SourceSpec, Outside, or_none, paths_of, lookup_path, read_with, or_later, resolve,
  coerce_timestamp, number_level, read_level, read_message, read_string, timestamp_fallback,
  level_original, level_unrecognized, level_fallback, marks, with_text, set_timestamp, set_level,
  set_message, set_service, set_host, timed, levelled, messaged, serviced, hosted, draft_of,
  event_of, of_value, extract,
}
use logpond.Ingest.Extractor.Levels.{LevelText, is_level, normalize_level-is_level}
use logpond.Ingest.Extractor.Attributes.{
  Draft, remove_path, with_mark, get_field-put_other, top, get_field-delete_at,
}

abbrev pub touches : Bytes → Bytes → Bool
touches k path = equal (top (split_dots [] path)) k

-- Whether a configured path begins with the key.
abbrev pub is_used : Bytes → SourceSpec → Bool
is_used k src = any (λ e. any (touches k) e.1) src.extract

paths_of-touches :
    (k field : Bytes) (src : SourceSpec)
    → is_used k src ≡ false
    → any (touches k) (paths_of field src) ≡ false
paths_of-touches k field src h = go src.extract h
  where
    go :
        (m : Assoc (List Bytes))
        → any (λ e. any (touches k) e.1) m ≡ false
        → any (touches k) (or_none (lookup field m)) ≡ false
    go [] h = refl
    go ((j, ps) ∷ m) h = elim (Bool-cases (equal j field)) [
      | inl e ↦ rw e ((||-eq-false _ _ h).0)
      | inr e ↦ rw e (go m (||-eq-false _ _ h).1)
    ]

module _ {A : Type 0} where
  -- A property of the value that is found and of its path.
  abbrev pub Found : (A → Bytes → Type 0) → Option (A × Bytes) → Type 0
  Found P none = Unit
  Found P (some (a, p)) = P a p

  pub resolve-Found :
      (P : A → Type 0) (q : Bytes → Bool) (f : Value → Option A) (ps : List Bytes) (object : Fields)
      → ((v : Value) (a : A) → f v ≡ some a → P a)
      → any q ps ≡ false
      → Found (λ a p. P a × (q p ≡ false)) (resolve f ps object)
  unfolding resolve
  resolve-Found P q f [] object h u = tt
  resolve-Found P q f (p ∷ ps) object h u =
      let (here, more) = ||-eq-false (q p) (any q ps) u in
      by (lookup_path p object) here (resolve-Found P q f ps object h more)
    where
      found :
          (v : Value) (o : Option A) (later : Option (A × Bytes))
          → f v ≡ o
          → q p ≡ false
          → Found (λ a p. P a × (q p ≡ false)) later
          → Found (λ a p. P a × (q p ≡ false)) (or_later p later o)
      found v none later e u l = l
      found v (some a) later e u l = (h v a e, u)

      by :
          (o : Option Value)
          → q p ≡ false
          → Found (λ a p. P a × (q p ≡ false)) (resolve f ps object)
          → Found (λ a p. P a × (q p ≡ false)) (or_later p (resolve f ps object) (read_with f o))
      by none u l = l
      by (some v) u l = found v (f v) (resolve f ps object) refl u l

abbrev LevelOk : Option LevelText → Type 0
LevelOk none = Unit
LevelOk (some l) = is_level l.norm ≡ true

read_level-LevelOk : (env : Runtime) (v : Value) → LevelOk (read_level env v)
unfolding read_level
read_level-LevelOk env (str s) = normalize_level-is_level env s
read_level-LevelOk env (number s) = by (parse_int s)
  where
    by : (o : Option ℤ) → LevelOk (number_level env o)
    by none = tt
    by (some i) = normalize_level-is_level env (format_int i)
read_level-LevelOk env (float x) = normalize_level-is_level env (format_int (env.int_of_float x))
read_level-LevelOk env null = tt
read_level-LevelOk env (bool b) = tt
read_level-LevelOk env (int i) = tt
read_level-LevelOk env (arr vs) = tt
read_level-LevelOk env (obj fs) = tt

-- The level that is read is one of the four, whatever stands in the object.
pub read_level-is_level :
    (env : Runtime) (v : Value) (l : LevelText) → read_level env v ≡ some l → is_level l.norm ≡ true
read_level-is_level env v l e = subst LevelOk e (read_level-LevelOk env v)

four :
    (a b c d : Bool)
    → a || (b || (c || (d || false))) ≡ false
    → (a ≡ false) × (b ≡ false) × (c ≡ false) × (d ≡ false)
four a b c d h = (ground (arith, h), ground (arith, h), ground (arith, h), ground (arith, h))

abbrev Apart : {A : Type 0} → Bytes → Option (A × Bytes) → Type 0
Apart k r = Found (λ a p. Unit {0} × (touches k p ≡ false)) r

abbrev Keeps : Bytes → Draft → Draft → Type 0
Keeps k d d' = get_field k d'.event.attributes ≡ get_field k d.event.attributes

remove_path-Keeps : (k p : Bytes) (d : Draft) → touches k p ≡ false → Keeps k d (remove_path p d)
unfolding remove_path
remove_path-Keeps k p d h = get_field-delete_at k (split_dots [] p) d.event.attributes h

with_mark-Keeps :
    (k j : Bytes) (v : Value) (d : Draft) → equal j k ≡ false → Keeps k d (with_mark j v d)
with_mark-Keeps k j v d h = get_field-put_other k j v d.event.attributes h

with_text-Keeps : (k j s : Bytes) (d : Draft) → equal j k ≡ false → Keeps k d (with_text j s d)
with_text-Keeps k j [] d h = refl
with_text-Keeps k j (c ∷ cs) d h = with_mark-Keeps k j (str (c ∷ cs)) d h

module _ (env : Runtime) (out : Outside) (src : SourceSpec) (k : Bytes)
    (unused : is_used k src ≡ false) (not_mark : any (λ j. equal j k) marks ≡ false) where
  resolved :
      {A : Type 0} (f : Value → Option A) (key : Bytes) (object : Fields)
      → Apart k (resolve f (paths_of key src) object)
  resolved f key object =
      resolve-Found (λ a. Unit) (touches k) f (paths_of key src) object (λ v a e. tt)
        (paths_of-touches k key src unused)

  marks_apart :
      (equal timestamp_fallback k ≡ false)
      × (equal level_original k ≡ false)
      × (equal level_unrecognized k ≡ false)
      × (equal level_fallback k ≡ false)
  marks_apart =
      four (equal timestamp_fallback k) (equal level_original k) (equal level_unrecognized k)
        (equal level_fallback k) not_mark

  timed-Keeps : (d : Draft) → Keeps k d (timed env out src d)
  timed-Keeps d = by _ (resolved (coerce_timestamp env out) (codes "timestamp") d.object)
    where
      by : (r : Option (ℤ × Bytes)) → Apart k r → Keeps k d (set_timestamp out.now r d)
      by none h = with_mark-Keeps k timestamp_fallback (bool true) d marks_apart.0
      by (some (t, p)) h = remove_path-Keeps k p _ h.1

  levelled-Keeps : (d : Draft) → Keeps k d (levelled env out src d)
  levelled-Keeps d = by _ (resolved (read_level env) (codes "level") d.object)
    where
      by : (r : Option (LevelText × Bytes)) → Apart k r → Keeps k d (set_level r d)
      by none h =
          with_mark-Keeps k level_fallback (bool true)
            (record d { event = record (d.event) { level = codes "info" } }) marks_apart.3
      by (some (l, p)) h =
          let (_, b, c, _) = marks_apart in
          let d1 = remove_path p (record d { event = record (d.event) { level = l.norm } }) in
          let d2 = with_text level_original l.original d1 in
          with_text-Keeps k level_unrecognized l.unrecognized d2 c
          ∙ with_text-Keeps k level_original l.original d1 b
          ∙ remove_path-Keeps k p _ h.1

  messaged-Keeps : (d : Draft) → Keeps k d (messaged env out src d)
  messaged-Keeps d = by _ (resolved (read_message env) (codes "message") d.object)
    where
      by : (r : Option (Bytes × Bytes)) → Apart k r → Keeps k d (set_message r d)
      by none h = refl
      by (some (t, p)) h = remove_path-Keeps k p _ h.1

  serviced-Keeps : (d : Draft) → Keeps k d (serviced env out src d)
  serviced-Keeps d = by _ (resolved read_string (codes "service") d.object)
    where
      by : (r : Option (Bytes × Bytes)) → Apart k r → Keeps k d (set_service r d)
      by none h = refl
      by (some (t, p)) h = remove_path-Keeps k p _ h.1

  hosted-Keeps : (d : Draft) → Keeps k d (hosted env out src d)
  hosted-Keeps d = by _ (resolved read_string (codes "host") d.object)
    where
      by : (r : Option (Bytes × Bytes)) → Apart k r → Keeps k d (set_host r d)
      by none h = refl
      by (some (t, p)) h = remove_path-Keeps k p _ h.1

  -- What Extract takes out and adds: a key at the top of the object keeps its value among the attributes
  -- of the event, and a key that is not in the object is not there either, unless a configured path
  -- begins with the key or it is one of the four that the extractor writes.
  pub extract-get_field :
      (line : Bytes) (object : Fields) (ev : Event)
      → out.decode line ≡ some (obj object)
      → extract env out src line ≡ some ev
      → get_field k ev.attributes ≡ get_field k object
  unfolding extract event_of
  extract-get_field line object ev d e =
      let d0 = draft_of env out src line object in
      let d1 = timed env out src d0 in
      let d2 = levelled env out src d1 in
      let d3 = messaged env out src d2 in
      let d4 = serviced env out src d3 in
      let same = some-injective _ ev (sym (ap (of_value env out src line) d) ∙ e) in
      ap (λ (x : Event). get_field k x.attributes) (sym same)
      ∙ hosted-Keeps d4
      ∙ serviced-Keeps d3
      ∙ messaged-Keeps d2
      ∙ levelled-Keeps d1
      ∙ timed-Keeps d0
