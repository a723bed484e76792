-- ===== src/Catalog/Keys.antt =====
-- internal/catalog/catalog.go: its writes as a step relation, and the ids of the rows.
use logpond.Base.{
  ◌≡◌, refl, subst, Bool, true, false, [], ◌∷◌, ◌++◌, Option, some, none, if◌then◌else◌, any,
}
use logpond.Base.Text.{Bytes}
use logpond.Base.Int.{ℤ}
use logpond.Base.Unique.{IsUnique, snoc-IsUnique, update_at-IsUnique, filter-IsUnique}
use logpond.Catalog.Segment.{
  SegmentState, active, sealed, archived, rehydrated, lost, other, Segment, SealedSegmentUpdate,
  ArchiveUpdate, RehydrateUpdate, ImportedSegment,
}
use logpond.Catalog.Table.{
  Table, has_id, update_where, update_one, insert_segment, update_segment_state,
  mark_segment_sealed, delete_segment, mark_segment_archived, mark_segment_rehydrated,
  set_evict_after, clear_local_file, insert_imported_segment, stamped,
}

-- A write that succeeds.
pub data Write (t : Table) : Table → Type 0 where
  insert : {t' : Table} (now : ℤ) (s : Segment) → insert_segment now s t ≡ some t' → Write t t'
  set_state :
      {t' : Table} (now : ℤ) (id : Bytes) (state : SegmentState)
      → update_segment_state now id state t ≡ some t'
      → Write t t'
  seal : (now : ℤ) (id : Bytes) (u : SealedSegmentUpdate) → Write t (mark_segment_sealed now id u t)
  delete : (id : Bytes) → Write t (delete_segment id t)
  archive :
      {t' : Table} (now : ℤ) (id : Bytes) (u : ArchiveUpdate)
      → mark_segment_archived now id u t ≡ some t'
      → Write t t'
  rehydrate :
      {t' : Table} (now : ℤ) (id : Bytes) (u : RehydrateUpdate)
      → mark_segment_rehydrated now id u t ≡ some t'
      → Write t t'
  set_ttl :
      {t' : Table} (id : Bytes) (at : Option ℤ) → set_evict_after id at t ≡ some t' → Write t t'
  clear :
      {t' : Table} (id : Bytes) (state : SegmentState)
      → clear_local_file id state t ≡ some t'
      → Write t t'
  import_one :
      {t' : Table} (now : ℤ) (s : ImportedSegment)
      → insert_imported_segment now s t ≡ some t'
      → Write t t'

pub data Reachable : Table → Type 0 where
  empty : Reachable []
  written : {t t' : Table} → Reachable t → Write t t' → Reachable t'

abbrev pub key_of : Segment → Bytes
key_of s = s.id

abbrev pub HasKeys : Table → Type 0
HasKeys t = IsUnique key_of t

pub unless_some {ℓ} :
    {A : Type ℓ} (b : Bool) (x y : A)
    → (if b then none else some x) ≡ some y
    → (b ≡ false) × (x ≡ y)
unless_some true x y h = absurd (cc)
unless_some false x y h = (refl, cc)

pub when_some {ℓ} :
    {A : Type ℓ} (b : Bool) (x y : A) → (if b then some x else none) ≡ some y → x ≡ y
when_some true x y h = cc
when_some false x y h = absurd (cc)

inserted-HasKeys :
    (s : Segment) (t t' : Table)
    → HasKeys t
    → (if any (has_id s.id) t then none else some (t ++ s ∷ [])) ≡ some t'
    → HasKeys t'
inserted-HasKeys s t t' h e =
    let (new, same) = unless_some (any (has_id s.id) t) _ t' e in
    subst HasKeys same (snoc-IsUnique key_of t s h new)

updated-HasKeys :
    (id : Bytes) (f : Segment → Segment)
    → ((s : Segment) → (f s).id ≡ s.id)
    → (t t' : Table) → HasKeys t
    → update_one id f t ≡ some t'
    → HasKeys t'
updated-HasKeys id f same t t' h e =
    subst HasKeys (when_some (any (has_id id) t) (update_where id f t) t' e)
      (update_at-IsUnique key_of id f same t h)

stamped-id : (now : ℤ) (state : SegmentState) (s : Segment) → (stamped now state s).id ≡ s.id
unfolding stamped
stamped-id now active s = refl
stamped-id now sealed s = refl
stamped-id now archived s = refl
stamped-id now rehydrated s = refl
stamped-id now lost s = refl
stamped-id now (other x) s = refl

Write-HasKeys : (t t' : Table) → Write t t' → HasKeys t → HasKeys t'
unfolding insert_segment update_segment_state mark_segment_sealed delete_segment
    mark_segment_archived mark_segment_rehydrated set_evict_after clear_local_file
    insert_imported_segment
Write-HasKeys t t' (insert now s e) h = inserted-HasKeys _ t t' h e
Write-HasKeys t t' (set_state now id state e) h =
    updated-HasKeys id (stamped now state) (stamped-id now state) t t' h e
Write-HasKeys t t' (seal now id u) h = update_at-IsUnique key_of id _ (λ s. refl) t h
Write-HasKeys t t' (delete id) h = filter-IsUnique key_of _ t h
Write-HasKeys t t' (archive now id u e) h = updated-HasKeys id _ (λ s. refl) t t' h e
Write-HasKeys t t' (rehydrate now id u e) h = updated-HasKeys id _ (λ s. refl) t t' h e
Write-HasKeys t t' (set_ttl id at e) h = updated-HasKeys id _ (λ s. refl) t t' h e
Write-HasKeys t t' (clear id state e) h = updated-HasKeys id _ (λ s. refl) t t' h e
Write-HasKeys t t' (import_one now s e) h = inserted-HasKeys _ t t' h e

-- In every table that the writes of the catalog reach, no two rows have the same id.
pub Reachable-HasKeys : (t : Table) → Reachable t → HasKeys t
Reachable-HasKeys t empty = tt
Reachable-HasKeys t (written {t = s} r w) = Write-HasKeys s t w (Reachable-HasKeys s r)
