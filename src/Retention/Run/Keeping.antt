-- ===== src/Retention/Run/Keeping.antt =====
-- How the actions of `Run` in internal/retention/evaluator.go bear on lost rows.
use logpond.Base.{
  ◌≡◌, sym, subst, Bool, true, ◌&&◌, ◌||◌, List, [], ◌∷◌, Option, none, some, any, All,
}
use logpond.Base.Text.{Bytes, equal, equal_iff}
use logpond.Base.Int.{ℤ}
use logpond.Catalog.Segment.{
  SegmentState, archived, lost, same_state, Segment, is_valid, ArchiveUpdate,
}
use logpond.Catalog.Table.{Table, get_segment, mark_segment_archived, clear_local_file}
use logpond.Catalog.Writes.{AllOf, AllOf-update_one}
use logpond.Retention.Plan.{Verb, delete, archive_then_delete, Action}
use logpond.Retention.Host.{World, SegmentRef, Host, HostError, remove_local, remove_file}
use logpond.Retention.Run.{
  After, then_clear, execute_on, execute, drop_archived, record_archived, archive_path, archive_on,
  archive_then_remove, archive_if, archive_finished, finished, by_verb, run_action, run_actions,
}

-- A row that was lost before, or has a copy in the archive.
abbrev pub is_spent : Segment → Bool
is_spent s = same_state s.state lost || is_valid s.s3_url || is_valid s.archive_ref

-- The table has a spent row with this id.
abbrev pub IsSpent : Table → Bytes → Type 0
IsSpent t id = any (λ s. equal s.id id && is_spent s) t ≡ true

-- Each lost row has the id of a row that was spent at the start.
abbrev pub OnlySpentLost : Table → Table → Type 0
OnlySpentLost start t = All (λ s. same_state s.state lost ≡ true → IsSpent start s.id) t

module _ (start : Table) where
  -- An action that makes a row lost does it to a spent one.
  abbrev pub IsCareful : Action → Type 0
  IsCareful a = same_state a.next_state lost ≡ true → IsSpent start a.segment_id

  abbrev pub Keeps : After → Type 0
  Keeps r = OnlySpentLost start r.0.table

  clear-OnlySpentLost :
      (id : Bytes) (next_state : SegmentState) (t : Table)
      → (same_state next_state lost ≡ true → IsSpent start id)
      → OnlySpentLost start t
      → AllOf
          (λ s. same_state s.state lost ≡ true → IsSpent start s.id)
          (clear_local_file id next_state t)
  unfolding clear_local_file
  clear-OnlySpentLost id next_state t careful h =
      AllOf-update_one _ id _
        (λ s same k e. subst (IsSpent start) (sym ((equal_iff s.id id).0 same)) (careful e)) t h

  then_clear-Keeps :
      (id : Bytes) (next_state : SegmentState) (w : World) (files : Option (List Bytes))
      → (same_state next_state lost ≡ true → IsSpent start id)
      → OnlySpentLost start w.table
      → Keeps (then_clear id next_state w files)
  then_clear-Keeps id next_state w none careful h = h
  then_clear-Keeps id next_state w (some files) careful h =
      either (clear_local_file id next_state w.table)
        (clear-OnlySpentLost id next_state w.table careful h)
    where
      either :
          (r : Option Table)
          → AllOf (λ s. same_state s.state lost ≡ true → IsSpent start s.id) r
          → Keeps (elim r [
            | none ↦ (record w { files = files }, some HostError.catalog_failed)
            | some t ↦ (record (record w { files = files }) { table = t }, none)
          ])
      either none k = h
      either (some t) k = k

  execute_on-Keeps :
      (host : Host) (a : Action) (w : World) (r : Option Segment)
      → IsCareful a
      → OnlySpentLost start w.table
      → Keeps (execute_on host a w r)
  execute_on-Keeps host a w none careful h = h
  execute_on-Keeps host a w (some seg) careful h =
      then_clear-Keeps a.segment_id a.next_state w (remove_local host seg.local_path w.files)
        careful h

  archived-OnlySpentLost :
      (now : ℤ) (id : Bytes) (u : ArchiveUpdate) (t : Table)
      → OnlySpentLost start t
      → AllOf
          (λ s. same_state s.state lost ≡ true → IsSpent start s.id)
          (mark_segment_archived now id u t)
  unfolding mark_segment_archived
  archived-OnlySpentLost now id u t h = AllOf-update_one _ id _ (λ s same k e. absurd cc) t h

  drop_archived-Keeps :
      (host : Host) (id path : Bytes) (w : World) (r : Option Table)
      → AllOf (λ s. same_state s.state lost ≡ true → IsSpent start s.id) r
      → OnlySpentLost start w.table
      → Keeps (drop_archived host id path w r)
  drop_archived-Keeps host id path w none k h = h
  drop_archived-Keeps host id path w (some t) k h =
      then_clear-Keeps id archived (record w { table = t }) (remove_file host path w.files)
        (λ e. absurd cc) k

  archive_path-Keeps :
      (host : Host) (backend : SegmentRef → Option ArchiveUpdate) (seg : Segment) (w : World)
      (r : Option Bytes)
      → OnlySpentLost start w.table
      → Keeps (archive_path host backend seg w r)
  archive_path-Keeps host backend seg w none h = h
  archive_path-Keeps host backend seg w (some []) h = h
  archive_path-Keeps host backend seg w (some (c ∷ cs)) h = stored (backend _)
    where
      stored : (r : Option ArchiveUpdate) → Keeps (record_archived host seg.id (c ∷ cs) w r)
      stored none = h
      stored (some u) =
          drop_archived-Keeps host seg.id (c ∷ cs) w _
            (archived-OnlySpentLost host.now seg.id u w.table h) h

  archive_on-Keeps :
      (host : Host) (backend : SegmentRef → Option ArchiveUpdate) (w : World) (r : Option Segment)
      → OnlySpentLost start w.table
      → Keeps (archive_on host backend w r)
  archive_on-Keeps host backend w none h = h
  archive_on-Keeps host backend w (some seg) h =
      archive_path-Keeps host backend seg w seg.local_path h

  finished-Keeps : (a : Action) (r : After) → Keeps r → OnlySpentLost start (finished a r).0.table
  finished-Keeps a r h = h

  archive_finished-Keeps :
      (a : Action) (r : After) → Keeps r → OnlySpentLost start (archive_finished a r).0.table
  archive_finished-Keeps a (w, none) h = h
  archive_finished-Keeps a (w, some e) h = h

  archive_if-Keeps :
      (host : Host) (b : Option (SegmentRef → Option ArchiveUpdate)) (a : Action) (w : World)
      → OnlySpentLost start w.table
      → OnlySpentLost start (archive_if host b a w).0.table
  unfolding archive_then_remove
  archive_if-Keeps host none a w h = h
  archive_if-Keeps host (some backend) a w h =
      archive_finished-Keeps a _
        (archive_on-Keeps host backend w (get_segment w.table a.segment_id) h)

  by_verb-Keeps :
      (host : Host) (v : Verb) (a : Action) (w : World)
      → IsCareful a
      → OnlySpentLost start w.table
      → OnlySpentLost start (by_verb host v a w).0.table
  unfolding execute
  by_verb-Keeps host delete a w careful h =
      execute_on-Keeps host a w (get_segment w.table a.segment_id) careful h
  by_verb-Keeps host archive_then_delete a w careful h = archive_if-Keeps host host.backend a w h

  pub run_actions-Keeps :
      (host : Host) (actions : List Action) (w : World)
      → All IsCareful actions
      → OnlySpentLost start w.table
      → OnlySpentLost start (run_actions host actions w).0.table
  unfolding run_actions run_action
  run_actions-Keeps host [] w careful h = h
  run_actions-Keeps host (a ∷ later) w careful h =
      run_actions-Keeps host later _ careful.1 (by_verb-Keeps host a.action a w careful.0 h)
