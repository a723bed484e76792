-- ===== src/Retention/Evictor/Backed.antt =====
-- internal/api/evictor.go: archived rows and their copies in the archive, before and after `Sweep`.
use logpond.Base.{
  ◌≡◌, refl, ap, ◌∙◌, any, Bool, true, false, List, [], ◌∷◌, Option, none, some, All, map-All,
  Bool-cases, inl, inr, if◌then◌else◌,
}
use logpond.Catalog.Segment.{archived, lost, same_state, Segment, has_archive}
use logpond.Catalog.Table.{Table, has_id, clear_local_file}
use logpond.Catalog.Queries.{list_rehydrated_segments}
use logpond.Catalog.Keys.{Reachable, Reachable-HasKeys}
use logpond.Catalog.Range.{list_rehydrated_segments-All}
use logpond.Catalog.Writes.{All-update_where, HasKeys-unique}
use logpond.Retention.Host.{World, Host, HostError}
use logpond.Retention.Evictor.{
  Swept, next_of, cleared, then_cleared, remove_both, Removal, evict_rehydrated_segment, is_due,
  counted, sweep_segments, sweep,
}

-- A row that is archived has a copy in the archive.
abbrev pub IsBacked : Segment → Type 0
IsBacked s = same_state s.state archived ≡ true → has_archive s ≡ true

-- What is known of the row with this segment's id.
abbrev Agrees : Segment → Segment → Type 0
Agrees seg r = has_id seg.id r ≡ true → has_archive r ≡ has_archive seg

abbrev AllAgree : List Segment → Table → Type 0
AllAgree segs t = All (λ seg. All (Agrees seg) t) segs

abbrev Holds : List Segment → Table → Type 0
Holds segs t = All IsBacked t × AllAgree segs t

next_of-archived : (b : Bool) → same_state (if b then archived else lost) archived ≡ true → b ≡ true
next_of-archived true h = refl
next_of-archived false h = absurd cc

cleared-Holds :
    (seg : Segment) (segs : List Segment) (w : World)
    → All (Agrees seg) w.table
    → Holds segs w.table
    → Holds segs (cleared w (clear_local_file seg.id (next_of seg) w.table)).0.table
unfolding clear_local_file has_archive
cleared-Holds seg segs w agree h = elim (Bool-cases (any (has_id seg.id) w.table)) [
  | inl e ↦ rw e (
    All-update_where (λ s. IsBacked s × Agrees seg s) IsBacked seg.id _
        (λ s same k now. k.1 same ∙ next_of-archived (has_archive seg) now) (λ s other k. k.0)
        w.table (paired w.table h.0 agree),
    map-All
        (λ x a.
          All-update_where (Agrees x) (Agrees x) seg.id _ (λ s same k. k) (λ s other k. k) w.table
            a)
        segs h.1,
  )
  | inr e ↦ rw e h
]
  where
    paired :
        (t : Table) → All IsBacked t → All (Agrees seg) t → All (λ s. IsBacked s × Agrees seg s) t
    paired [] a b = tt
    paired (s ∷ t) a b = ((a.0, b.0), paired t a.1 b.1)

evicted-Holds :
    (host : Host) (seg : Segment) (segs : List Segment) (s : Swept) (r : Removal)
    → All (Agrees seg) s.world.table
    → Holds segs s.world.table
    → Holds segs (counted s (then_cleared seg s.world r)).world.table
evicted-Holds host seg segs s (files, false) agree h = h
evicted-Holds host seg segs s (files, true) agree h =
    counted-Holds _ (cleared-Holds seg segs (record (s.world) { files = files }) agree h)
  where
    counted-Holds :
        (r : World × Option HostError) → Holds segs r.0.table → Holds segs (counted s r).world.table
    counted-Holds (w, none) k = k
    counted-Holds (w, some e) k = k

sweep_segments-IsBacked :
    (host : Host) (segs : List Segment) (s : Swept)
    → Holds segs s.world.table
    → All IsBacked (sweep_segments host segs s).world.table
unfolding sweep_segments evict_rehydrated_segment
sweep_segments-IsBacked host [] s h = h.0
sweep_segments-IsBacked host (seg ∷ segs) s h =
    sweep_segments-IsBacked host segs _ (one (is_due host seg))
  where
    one :
        (b : Bool)
        → Holds segs
            (if b then counted s (evict_rehydrated_segment host seg s.world) else s).world.table
    one true =
        evicted-Holds host seg segs s (remove_both host seg.id seg.local_path s.world.files) h.1.0
          (h.0, h.1.1)
    one false = (h.0, h.1.1)

-- In a table that the catalog can reach, if each archived row has a copy in the archive, then so it
-- is after `Sweep`, whatever the file system does: an evicted segment with no copy is lost.
pub sweep-IsBacked :
    (host : Host) (w : World)
    → Reachable w.table
    → All IsBacked w.table
    → All IsBacked (sweep host w).world.table
unfolding sweep
sweep-IsBacked host w reach h =
    sweep_segments-IsBacked host (list_rehydrated_segments w.table)
      (record { world = w; evicted = 0; first_error = none })
      (
        h,
        list_rehydrated_segments-All _ w.table (
            map-All (λ seg k. map-All (λ r same id. ap has_archive (same id)) w.table k) w.table
              (HasKeys-unique w.table (Reachable-HasKeys w.table reach))),
      )
