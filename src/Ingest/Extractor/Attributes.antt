-- ===== src/Ingest/Extractor/Attributes.antt =====
-- internal/ingest/extractor.go: the decoded object, and its copy that becomes the attributes. The copy
-- is shallow: a nested map is one map in both, so that a delete in it shows in both.
use logpond.Base.{
  ◌≡◌, refl, sym, subst, ap, false, List, [], ◌∷◌, Option, none, some, if◌then◌else◌, Bool-cases,
  inl, inr,
}
use logpond.Base.Text.{Bytes, equal, equal_iff}
use logpond.Query.Value.{Value, obj, Fields, end, field}
use logpond.Query.Event.{Event, split_dots, get_field}

-- The object, and the event so far with the copy as its attributes.
pub record Draft : Type 0 where
  pub object : Fields
  pub event : Event

-- `m[k] = v`
unfoldable pub put_field : Bytes → Value → Fields → Fields
put_field k v end = field k v end
put_field k v (field j u fs) =
    let rest = put_field k v fs in if equal j k then field j v fs else field j u rest

-- `delete(m, k)`
unfoldable pub drop_field : Bytes → Fields → Fields
drop_field k end = end
drop_field k (field j u fs) =
    let rest = drop_field k fs in if equal j k then rest else field j u rest

abbrev pub inside : Bytes → (Fields → Fields) → Fields → Option Value → Fields
inside k change fs (some (obj m)) = put_field k (obj (change m)) fs
inside k change fs _ = fs

-- The delete at the end of a path, from a map on.
unfoldable pub delete_at : List Bytes → Fields → Fields
delete_at [] fs = fs
delete_at (k ∷ []) fs = drop_field k fs
delete_at (k ∷ j ∷ ks) fs = inside k (delete_at (j ∷ ks)) fs (get_field k fs)

-- What the delete does to the object: nothing at its top, and in a nested map what it does to the copy.
abbrev pub delete_shared : List Bytes → Fields → Fields → Fields
delete_shared [] attrs object = object
delete_shared (k ∷ []) attrs object = object
delete_shared (k ∷ j ∷ ks) attrs object = inside k (delete_at (j ∷ ks)) object (get_field k attrs)

-- removePath
unfoldable pub remove_path : Bytes → Draft → Draft
remove_path path d =
    let parts = split_dots [] path in
    record {
      object = delete_shared parts d.event.attributes d.object;
      event = record (d.event) { attributes = delete_at parts d.event.attributes };
    }

-- `attrs[key] = v`
abbrev pub with_mark : Bytes → Value → Draft → Draft
with_mark key v d = record d {
  event = record (d.event) { attributes = put_field key v d.event.attributes };
}

pub get_field-put_other :
    (k j : Bytes) (v : Value) (fs : Fields)
    → equal j k ≡ false
    → get_field k (put_field j v fs) ≡ get_field k fs
unfolding put_field get_field
get_field-put_other k j v end h = rw h refl
get_field-put_other k j v (field i u fs) h = elim (Bool-cases (equal i j)) [
  | inl e ↦
      let apart : equal i k ≡ false =
        subst (λ x. equal x k ≡ false) (sym ((equal_iff i j).0 e)) h in
      rw (e, apart) refl
  | inr e ↦
      rw e (
        ap (λ (o : Option Value). if equal i k then some u else o) (get_field-put_other k j v fs h))
]

get_field-drop_other :
    (k j : Bytes) (fs : Fields) → equal j k ≡ false → get_field k (drop_field j fs) ≡ get_field k fs
unfolding drop_field get_field
get_field-drop_other k j end h = refl
get_field-drop_other k j (field i u fs) h = elim (Bool-cases (equal i j)) [
  | inl e ↦
      let apart : equal i k ≡ false =
        subst (λ x. equal x k ≡ false) (sym ((equal_iff i j).0 e)) h in
      rw (e, apart) (get_field-drop_other k j fs h)
  | inr e ↦
      rw e
        (ap (λ (o : Option Value). if equal i k then some u else o) (get_field-drop_other k j fs h))
]

-- The first part of a path.
abbrev pub top : List Bytes → Bytes
top [] = []
top (k ∷ ks) = k

-- A delete leaves the other top-level keys alone.
pub get_field-delete_at :
    (k : Bytes) (parts : List Bytes) (fs : Fields)
    → equal (top parts) k ≡ false
    → get_field k (delete_at parts fs) ≡ get_field k fs
unfolding delete_at
get_field-delete_at k [] fs h = refl
get_field-delete_at k (i ∷ []) fs h = get_field-drop_other k i fs h
get_field-delete_at k (i ∷ j ∷ ks) fs h = by (get_field i fs)
  where
    by : (o : Option Value) → get_field k (inside i (delete_at (j ∷ ks)) fs o) ≡ get_field k fs
    by (some (obj m)) = get_field-put_other k i (obj (delete_at (j ∷ ks) m)) fs h
    by none = refl
    by _ = refl
