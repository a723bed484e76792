-- ===== src/Retention/Evictor/Complete.antt =====
-- internal/api/evictor.go: the rows that are due, before and after `Sweep`.
use logpond.Base.{
  ◌≡◌, refl, ◌∙◌, inl, inr, Bool, true, false, ◌&&◌, ◌||◌, List, [], ◌∷◌, Option, none, some, any,
  filter, arith, All, map-All, Bool-cases, or_left, or_right, if◌then◌else◌,
}
use logpond.Base.Text.{Bytes, equal, equal_refl}
use logpond.Catalog.Segment.{archived, rehydrated, lost, same_state, Segment, has_archive}
use logpond.Catalog.Table.{Table, has_id, clear_local_file}
use logpond.Catalog.Order.{any-order_by}
use logpond.Catalog.Queries.{list_rehydrated_segments}
use logpond.Base.Unique.{equal_comm}
use logpond.Catalog.Writes.{All-update_where, All-without}
use logpond.Retention.Host.{World, Host, HostError, remove_file}
use logpond.Retention.Evictor.{
  Swept, manifest_filename, next_of, cleared, then_cleared, remove_both, Removal,
  evict_rehydrated_segment, is_due, counted, sweep_segments, sweep,
}

module _ (host : Host) where
  -- Among the segments is one with this id that is due.
  abbrev is_awaited : List Segment → Bytes → Bool
  is_awaited segs id = any (λ s. equal s.id id && is_due host s) segs

  -- Each rehydrated row that is due waits among the segments.
  abbrev Awaited : List Segment → Segment → Type 0
  Awaited segs r =
      same_state r.state rehydrated ≡ true → is_due host r ≡ true → is_awaited segs r.id ≡ true

  abbrev AllAwaited : List Segment → Table → Type 0
  AllAwaited segs t = All (Awaited segs) t

  any-skip :
      (p q : Segment → Bool) (s : Segment) (t : Table)
      → any p (filter q t) ≡ true
      → any p (filter q (s ∷ t)) ≡ true
  any-skip p q s t h = elim (Bool-cases (q s)) [ inl e ↦ rw e (or_right _ _ h) | inr e ↦ rw e h ]

  both_true : {a b : Bool} → a ≡ true → b ≡ true → a && b ≡ true
  both_true h k = ground (arith, h, k)

  filtered : (t : Table) → AllAwaited (filter (λ s. same_state s.state rehydrated) t) t
  filtered [] = tt
  filtered (s ∷ t) = (
    λ e due. rw e (or_left _ _ (both_true (equal_refl s.id) due)),
    map-All (λ r h e due. any-skip _ _ s t (h e due)) t (filtered t),
  )

  listed : (t : Table) → AllAwaited (list_rehydrated_segments t) t
  unfolding list_rehydrated_segments
  listed t =
      map-All
        (λ r h e due. any-order_by _ _ (filter (λ s. same_state s.state rehydrated) t) ∙ h e due) t
        (filtered t)

  not_this : {a : Bool} (b : Bool) {c : Bool} → a ≡ false → a && b || c ≡ true → c ≡ true
  not_this b h k = ground (arith, h, k)

  not_due : (a : Bool) {b c : Bool} → b ≡ false → a && b || c ≡ true → c ≡ true
  not_due a h k = ground (arith, h, k)

  Awaited-other :
      (seg : Segment) (segs : List Segment) (r : Segment)
      → has_id seg.id r ≡ false
      → Awaited (seg ∷ segs) r
      → Awaited segs r
  Awaited-other seg segs r other h e due = not_this _ (equal_comm r.id seg.id other) (h e due)

  next_of-same_state : (b : Bool) → same_state (if b then archived else lost) rehydrated ≡ true → ⊥
  next_of-same_state true h = cc
  next_of-same_state false h = cc

  cleared-AllAwaited :
      (seg : Segment) (segs : List Segment) (w : World)
      → AllAwaited (seg ∷ segs) w.table
      → AllAwaited segs (cleared w (clear_local_file seg.id (next_of seg) w.table)).0.table
  unfolding clear_local_file
  cleared-AllAwaited seg segs w h = elim (Bool-cases (any (has_id seg.id) w.table)) [
    | inl e ↦ rw e (
        All-update_where (Awaited (seg ∷ segs)) (Awaited segs) seg.id _
          (λ s same k rehydrated_now. absurd (next_of-same_state (has_archive seg) rehydrated_now))
          (Awaited-other seg segs) w.table h)
    | inr e ↦ rw e (
        All-without (Awaited (seg ∷ segs)) (Awaited segs) seg.id (Awaited-other seg segs) w.table e
          h)
  ]

  -- One segment of the loop, with no file that cannot be removed.
  module _ (open_files : (path : Bytes) → host.blocked path ≡ false) where
    remove_both-open :
        (id : Bytes) (path : Option Bytes) (files : List Bytes)
        → (remove_both host id path files).1 ≡ true
    unfolding remove_file
    remove_both-open id none files = refl
    remove_both-open id (some []) files = refl
    remove_both-open id (some (c ∷ cs)) files =
        rw (open_files (c ∷ cs), open_files (host.beside (c ∷ cs) (manifest_filename id))) refl

    then_cleared-AllAwaited :
        (seg : Segment) (segs : List Segment) (w : World) (r : Removal)
        → r.1 ≡ true
        → AllAwaited (seg ∷ segs) w.table
        → AllAwaited segs (then_cleared seg w r).0.table
    then_cleared-AllAwaited seg segs w (files, true) e h =
        cleared-AllAwaited seg segs (record w { files = files }) h
    then_cleared-AllAwaited seg segs w (files, false) e h = absurd cc

    counted-AllAwaited :
        (segs : List Segment) (s : Swept) (r : World × Option HostError)
        → AllAwaited segs r.0.table
        → AllAwaited segs (counted s r).world.table
    counted-AllAwaited segs s (w, none) h = h
    counted-AllAwaited segs s (w, some e) h = h

    Awaited-passed :
        (seg : Segment) (segs : List Segment) (t : Table)
        → is_due host seg ≡ false
        → AllAwaited (seg ∷ segs) t
        → AllAwaited segs t
    Awaited-passed seg segs t e h =
        map-All (λ r k now due. not_due (equal seg.id r.id) e (k now due)) t h

    sweep_segments-AllAwaited :
        (segs : List Segment) (s : Swept)
        → AllAwaited segs s.world.table
        → AllAwaited [] (sweep_segments host segs s).world.table
    unfolding sweep_segments evict_rehydrated_segment
    sweep_segments-AllAwaited [] s h = h
    sweep_segments-AllAwaited (seg ∷ segs) s h =
        sweep_segments-AllAwaited segs _ (one (is_due host seg) refl)
      where
        one :
            (b : Bool)
            → is_due host seg ≡ b
            → AllAwaited segs
                (if b then counted s (evict_rehydrated_segment host seg s.world) else s).world.table
        one true e = counted-AllAwaited segs s _ (
            then_cleared-AllAwaited seg segs s.world _
              (remove_both-open seg.id seg.local_path s.world.files) h)
        one false e = Awaited-passed seg segs s.world.table e h

    never_due :
        (t : Table)
        → AllAwaited [] t
        → All (λ r. same_state r.state rehydrated ≡ true → is_due host r ≡ false) t
    never_due t h = map-All (λ r k now. passed r (k now)) t h
      where
        passed : (r : Segment) → (is_due host r ≡ true → false ≡ true) → is_due host r ≡ false
        passed r k = elim (Bool-cases (is_due host r)) [
          | inl e ↦ absurd (impossible (k e))
          | inr e ↦ e
        ]
          where
            impossible : false ≡ true → ⊥
            impossible h = cc

-- If every file can be removed, no row is rehydrated and due after `Sweep`: its time to live has not
-- passed, it has none, or its segment is busy.
pub sweep-is_due :
    (host : Host) (w : World)
    → ((path : Bytes) → host.blocked path ≡ false)
    → All
        (λ r. same_state r.state rehydrated ≡ true → is_due host r ≡ false)
        (sweep host w).world.table
unfolding sweep
sweep-is_due host w open_files = never_due host open_files _ (
    sweep_segments-AllAwaited host open_files (list_rehydrated_segments w.table)
      (record { world = w; evicted = 0; first_error = none }) (listed host w.table))
