-- ===== src/Retention/Plan.antt =====
-- internal/retention/evaluator.go: `plan` and `decide`. A duration is a number of nanoseconds.
pub mod Selection
pub mod Age
pub mod Bound
pub mod Free
pub mod Spared
use logpond.Base.{
  ℕ, ◌+◌, Bool, true, false, not, ◌&&◌, ◌||◌, List, [], ◌∷◌, Option, none, some, map, any, length,
  if◌then◌else◌,
}
use logpond.Base.Text.{Bytes, equal}
use logpond.Base.Int.{ℤ, pos, ◌-ℤ◌, ltb_ℤ}
use logpond.Base.Int64.{add64, sub64, is_positive, greater}
use logpond.Catalog.Segment.{
  SegmentState, active, sealed, archived, rehydrated, lost, other, same_state, Segment, is_valid,
}
use logpond.Catalog.Table.{Table}
use logpond.Catalog.Queries.{list_local_segments}

-- `Options`, after `New`: the parts that decide.
pub record Options : Type 0 where
  pub max_age : ℤ
  pub max_size : ℕ
  pub protected_window : ℤ
  pub archive_before_delete : Bool
  pub backend_active : Bool

-- The texts of Action.Reason, by what they are made of.
pub data Reason : Type 0 where
  age_over : ℤ → Reason
  size_over : ℕ → Reason

pub data Verb : Type 0 where
  delete archive_then_delete : Verb

pub record Candidate : Type 0 where
  pub seg : Segment
  pub protected : Bool
  pub age_reason : Option Reason

-- `sealed_at` is there and after `until`.
abbrev sealed_after : Option ℤ → ℤ → Bool
sealed_after none until = false
sealed_after (some at) until = ltb_ℤ until at

unfoldable pub is_protected : Options → ℤ → Segment → Bool
is_protected o now s =
    same_state s.state sealed && sealed_after s.sealed_at (now -ℤ o.protected_window)

unfoldable pub is_expired : Options → ℤ → Segment → Bool
is_expired o now s = ltb_ℤ (pos 0) o.max_age && ltb_ℤ s.time_end (now -ℤ o.max_age)

abbrev pub age_reason_if : Options → Bool → Option Reason
age_reason_if o true = some (age_over o.max_age)
age_reason_if o false = none

abbrev pub candidate : Options → ℤ → Segment → Candidate
candidate o now s = record {
  seg = s;
  protected = is_protected o now s;
  age_reason = age_reason_if o (is_expired o now s);
}

-- The map from segment ids to reasons. A later entry for an id replaces the earlier one.
abbrev pub Selected : Type 0
Selected = List (Bytes × Reason)

abbrev pub reason_of : Bytes → Selected → Option Reason
reason_of id [] = none
reason_of id ((key, r) ∷ rest) = if equal key id then some r else reason_of id rest

abbrev pub has_reason : Bytes → Selected → Bool
has_reason id sel = any (λ entry. equal (entry.0) id) sel

abbrev pub age_entry : Candidate → Bool → Option Reason → Selected → Selected
age_entry c true r sel = sel
age_entry c false none sel = sel
age_entry c false (some r) sel = (c.seg.id, r) ∷ sel

-- The first loop over the candidates: the age policy.
unfoldable pub select_by_age : List Candidate → Selected → Selected
select_by_age [] sel = sel
select_by_age (c ∷ cs) sel = select_by_age cs (age_entry c c.protected c.age_reason sel)

unfoldable pub total_size : List Candidate → ℕ → ℕ
total_size [] total = total
total_size (c ∷ cs) total = total_size cs (add64 total c.seg.size_bytes)

abbrev pub add_unless : Bytes → Reason → Selected → Selected
add_unless id r sel = if has_reason id sel then sel else (id, r) ∷ sel

-- The loop of the size policy: `over` is what is still too much.
unfoldable pub evict : ℕ → ℕ → List Candidate → Selected → Selected
evict max over [] sel = sel
evict max over (c ∷ cs) sel =
    let skipped = evict max over cs sel in
    let taken =
      evict max (sub64 over c.seg.size_bytes) cs (add_unless c.seg.id (size_over max) sel) in
    if not (is_positive over) then sel else if c.protected then skipped else taken

unfoldable pub select_by_size : ℕ → List Candidate → Selected → Selected
select_by_size max cs sel =
    let total = total_size cs 0 in
    if is_positive max && greater total max then evict max (sub64 total max) cs sel else sel

-- `archived` of `decide`
abbrev has_copy : Segment → Bool
has_copy s = is_valid s.s3_url || is_valid s.archive_ref || same_state s.state archived

abbrev pub decide_for : Options → Bool → SegmentState → Verb × SegmentState
decide_for o copy sealed =
    if o.archive_before_delete && o.backend_active && not copy
    then (archive_then_delete, sealed)
    else (delete, lost)
decide_for o copy archived = (delete, archived)
decide_for o copy rehydrated = (delete, archived)
decide_for o copy _ = (delete, lost)

-- decide
unfoldable pub decide : Options → Segment → Verb × SegmentState
decide o s = decide_for o (has_copy s) s.state

-- The parts of an `Action` that `plan` fills in.
pub record Action : Type 0 where
  pub segment_id : Bytes
  pub action : Verb
  pub reason : Reason
  pub size_bytes : ℕ
  pub time_end : ℤ
  pub state : SegmentState
  pub next_state : SegmentState

abbrev pub action_for : Options → Segment → Reason → Action
action_for o s r = record {
  segment_id = s.id;
  action = (decide o s).0;
  reason = r;
  size_bytes = s.size_bytes;
  time_end = s.time_end;
  state = s.state;
  next_state = (decide o s).1;
}

abbrev pub with_action : Options → Segment → Option Reason → List Action → List Action
with_action o s none later = later
with_action o s (some r) later = action_for o s r ∷ later

-- The last loop of `plan`.
unfoldable pub actions_for : Options → Selected → List Candidate → List Action
actions_for o sel [] = []
actions_for o sel (c ∷ cs) = with_action o c.seg (reason_of c.seg.id sel) (actions_for o sel cs)

abbrev pub candidates : Options → ℤ → List Segment → List Candidate
candidates o now segs = map (candidate o now) segs

abbrev pub selected : Options → List Candidate → Selected
selected o cs = select_by_size o.max_size cs (select_by_age cs [])

pub record Plan : Type 0 where
  pub evaluated : ℕ
  pub actions : List Action

-- plan, on the rows that ListLocalSegments returns
unfoldable pub plan_for : Options → ℤ → List Segment → Plan
plan_for o now segs =
    let cs = candidates o now segs in
    record { evaluated = length segs; actions = actions_for o (selected o cs) cs }

unfoldable pub plan : Options → ℤ → Table → Plan
unfolding plan_for
plan o now t = plan_for o now (list_local_segments t)
