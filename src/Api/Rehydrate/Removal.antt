-- ===== src/Api/Rehydrate/Removal.antt =====
-- internal/api/rehydrate.go: DELETE /api/rehydrated/{id}.
use logpond.Base.{not, Option, none, some, if◌then◌else◌}
use logpond.Base.Text.{Bytes}
use logpond.Catalog.Segment.{rehydrated, same_state, Segment}
use logpond.Catalog.Table.{get_segment}
use logpond.Retention.Host.{World, Host, HostError}
use logpond.Retention.Evictor.{evict_rehydrated_segment}

-- What the handler of DELETE answers.
pub data Deleted : Type 0 where
  not_found not_rehydrated segment_busy internal_error no_content : Deleted

abbrev delete_answer : World × Option HostError → Deleted × World
delete_answer (w, none) = (no_content, w)
delete_answer (w, some e) = (internal_error, w)

abbrev delete_found : Host → World → Option Segment → Deleted × World
delete_found host w none = (not_found, w)
delete_found host w (some seg) =
    if not (same_state seg.state rehydrated)
    then (not_rehydrated, w)
    else if host.is_segment_busy seg.id
    then (segment_busy, w)
    else delete_answer (evict_rehydrated_segment host seg w)

-- handleDeleteRehydrated
unfoldable pub delete_rehydrated : Host → Bytes → World → Deleted × World
delete_rehydrated host id w = delete_found host w (get_segment w.table id)
