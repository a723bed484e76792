-- ===== src/Tests/Segments.antt =====
-- internal/catalog and internal/retention on a table of three segments.
use logpond.Base.{
  ◌↔◌, ℕ, ◌≤◌, ◌≡◌, ◌⊎◌, refl, Bool, true, false, ◌&&◌, [], ◌∷◌, Option, none, some, All, arith,
  count, map,
}
use logpond.Base.Text.{Bytes, codes, equal, has_prefix}
use logpond.Base.Int64.{add64, sub64, greater}
use logpond.Base.Int.{ℤ, pos, ◌-ℤ◌}
use logpond.Catalog.Segment.{
  SegmentState, sealed, archived, rehydrated, lost, same_state, Segment, has_archive,
}
use logpond.Catalog.Order.{IsOrdered, insert, order_by}
use logpond.Catalog.Table.{
  Table, get_segment, insert_segment, clear_local_file, mark_segment_archived,
}
use logpond.Catalog.Queries.{
  starts_later, is_in_range, segments_in_range, is_local, list_local_segments,
  list_rehydrated_segments,
}
use logpond.Catalog.Keys.{Reachable, empty, written, HasKeys, Reachable-HasKeys}
use logpond.Catalog.Keys
use logpond.Catalog.Range.{IsInRange, segments_in_range-exact}
use logpond.Retention.Plan.{
  Options, is_protected, is_expired, select_by_age, select_by_size, total_size, evict, actions_for,
  decide, plan_for, plan,
}
use logpond.Retention.Plan.Selection.{is_planned}
use logpond.Retention.Plan.Bound.{kept_size, OnlyProtected, plan_for-kept_size}
use logpond.Retention.Plan.Age.{plan_for-is_expired}
use logpond.Retention.Plan.Spared.{is_evictable, plan-spares}
use logpond.Retention.Host.{World, Host, remove_file, remove_local}
use logpond.Retention.Run.{run, run_actions, run_action, execute, archive_then_remove}
use logpond.Retention.Run.Loss.{run-OnlySpentLost}
use logpond.Retention.Run.Keeping.{OnlySpentLost}
use logpond.Retention.Evictor.{is_due, evict_rehydrated_segment, sweep_segments, sweep}
use logpond.Retention.Evictor.Complete.{sweep-is_due}
use logpond.Retention.Evictor.Backed.{IsBacked, sweep-IsBacked}

-- A segment that ends at `at` and was sealed then.
abbrev row : Bytes → SegmentState → ℕ → ℕ → Option ℤ → Segment
row id state at size ttl = record {
  id = id;
  state = state;
  time_start = pos at;
  time_end = pos at;
  row_count = 1;
  size_bytes = size;
  size_compressed = none;
  local_path = some id;
  s3_url = none;
  archive_ref = none;
  manifest_sha256 = none;
  parquet_sha256 = none;
  source_names = none;
  created_at = pos at;
  sealed_at = some (pos at);
  archived_at = none;
  rehydrated_at = none;
  evict_after = ttl;
}

abbrev pub old : Segment
old = row (codes "old") sealed 10 100 none

abbrev pub fetched : Segment
fetched = row (codes "fetched") rehydrated 20 200 (some (pos 50))

abbrev pub fresh : Segment
fresh = row (codes "fresh") sealed 95 300 none

abbrev pub table : Table
table = old ∷ fetched ∷ fresh ∷ []

table-Reachable : Reachable table
unfolding insert_segment equal
table-Reachable =
    written
      (written (written empty (Keys.insert (pos 0) old refl)) (Keys.insert (pos 0) fetched refl))
      (Keys.insert (pos 0) fresh refl)

segments_in_range-exact_example :
    All (IsInRange (pos 15) (pos 99)) (segments_in_range (pos 15) (pos 99) table)
    × IsOrdered starts_later (segments_in_range (pos 15) (pos 99) table)
    × ((p : Segment → Bool)
        → count p (segments_in_range (pos 15) (pos 99) table)
          ≡ count (λ s. is_in_range (pos 15) (pos 99) s && p s) table)
    × ((s : Segment) → (is_in_range (pos 15) (pos 99) s ≡ true) ↔ IsInRange (pos 15) (pos 99) s)
segments_in_range-exact_example = segments_in_range-exact (pos 15) (pos 99) table

-- Older than 85 is too old, more than 350 bytes is too much, sealed within 10 is protected.
abbrev options : Options
options = record {
  max_age = pos 85;
  max_size = 350;
  protected_window = pos 10;
  archive_before_delete = true;
  backend_active = true;
}

abbrev host : Host
host = record {
  now = pos 100;
  blocked = λ p. false;
  backend = some (λ r. some (record {
    s3_url = codes "s3://bucket/old";
    archive_ref = [];
    manifest_sha256 = [];
    parquet_sha256 = [];
  }));
  is_segment_busy = λ id. false;
  beside = λ path name. name;
  trim_space = λ s. s;
  unmarshal = λ s. none;
}

abbrev world : World
world = record { table = table; files = codes "old" ∷ codes "fetched" ∷ codes "fresh" ∷ [] }

plan_for-kept_size_example :
    (kept_size (plan_for options (pos 100) table).actions table ≤ 350)
    ⊎ OnlyProtected options (pos 100) (plan_for options (pos 100) table).actions table
plan_for-kept_size_example = plan_for-kept_size options (pos 100) table (omega arith) refl

plan_for-is_expired_example :
    All
      (λ s.
        is_protected options (pos 100) s ≡ false
        → is_expired options (pos 100) s ≡ true
        → is_planned s.id (plan_for options (pos 100) table).actions ≡ true)
      table
plan_for-is_expired_example = plan_for-is_expired options (pos 100) table

plan-spares_example :
    All
      (λ s.
        is_evictable options (pos 100) s ≡ false
        → is_planned s.id (plan options (pos 100) table).actions ≡ false)
      table
plan-spares_example = plan-spares options (pos 100) table table-Reachable

run-OnlySpentLost_example : OnlySpentLost table (run host options false world).0.table
run-OnlySpentLost_example = run-OnlySpentLost host options world refl refl

all_removable : (path : Bytes) → host.blocked path ≡ false
all_removable path = refl

sweep-is_due_example :
    All
      (λ r. same_state r.state rehydrated ≡ true → is_due host r ≡ false)
      (sweep host world).world.table
sweep-is_due_example = sweep-is_due host world all_removable

IsBacked-at_first : All IsBacked table
IsBacked-at_first = ((λ e. absurd cc), ((λ e. absurd cc), ((λ e. absurd cc), tt)))

sweep-IsBacked_example : All IsBacked (sweep host world).world.table
sweep-IsBacked_example = sweep-IsBacked host world table-Reachable IsBacked-at_first

-- The expired segment is archived first. The fetched one, which has no copy, is called archived too.
run_states :
    map {B = SegmentState × Bool}
      (λ s. (s.state, has_archive s))
      (run host options false world).0.table
    ≡ (archived, true) ∷ (archived, false) ∷ (sealed, false) ∷ []
unfolding run run_actions run_action execute plan plan_for list_local_segments is_local order_by
    insert is_protected is_expired ◌-ℤ◌ select_by_age select_by_size total_size add64 sub64 greater
    evict actions_for decide equal get_segment remove_local remove_file clear_local_file
    archive_then_remove mark_segment_archived has_archive has_prefix
run_states = refl

sweep_states : map (λ s. s.state) (sweep host world).world.table ≡ sealed ∷ lost ∷ sealed ∷ []
unfolding sweep sweep_segments list_rehydrated_segments order_by insert evict_rehydrated_segment
    remove_file clear_local_file equal has_archive
sweep_states = refl
