-- ===== src/Ingest/Extractor.antt =====
-- internal/ingest/extractor.go: a JSON object becomes an event. The decoder of encoding/json, which
-- reads the first value of a line and the last value of a repeated key, is a parameter.
pub mod Levels
pub mod Attributes
pub mod Kept
pub mod Normal
use logpond.Base.{
  ℕ, zero, suc, ◌+◌, ◌-◌, ◌*◌, Bool, true, false, List, [], ◌∷◌, Option, none, some, ltb, leb,
  if◌then◌else◌,
}
use logpond.Base.Assoc.{Assoc, lookup}
use logpond.Base.Int.{ℤ, pos, negsuc, sub_ℕ, ◌+ℤ◌}
use logpond.Base.Text.{Bytes, codes, equal}
use logpond.Query.Value.{
  Value, null, str, bool, float, int, number, arr, obj, Values, nil, cons, Fields, Runtime,
  parse_int, format_int, bool_text,
}
use logpond.Query.Event.{Event, split_dots, get_field}
use logpond.Ingest.Extractor.Levels.{LevelText, normalize_level}
use logpond.Ingest.Extractor.Attributes.{Draft, with_mark, remove_path}

-- SourceSpec
pub record SourceSpec : Type 0 where
  pub name : Bytes
  pub extract : Assoc (List Bytes)

-- The decoder; time.Parse with the layout RFC3339, for what RFC3339Nano refuses; and the clock.
pub record Outside : Type 0 where
  pub decode : Bytes → Option Value
  pub parse_rfc3339 : Bytes → Option ℤ
  pub now : ℤ

abbrev or_none : Option (List Bytes) → List Bytes
or_none none = []
or_none (some ps) = ps

-- `e.Source.Extract[field]`
abbrev pub paths_of : Bytes → SourceSpec → List Bytes
paths_of field src = or_none (lookup field src.extract)

elem_at : ℕ → Values → Option Value
elem_at n nil = none
elem_at zero (cons v vs) = some v
elem_at (suc n) (cons v vs) = elem_at n vs

indexed : Values → Option ℤ → Option Value
unfolding elem_at
indexed vs none = none
indexed vs (some (pos n)) = elem_at n vs
indexed vs (some (negsuc n)) = none

step_into : Bytes → Value → Option Value
unfolding indexed
step_into part (obj fs) = get_field part fs
step_into part (arr vs) = indexed vs (parse_int part)
step_into part _ = none

then_follow : (Value → Option Value) → Option Value → Option Value
then_follow later none = none
then_follow later (some v) = later v

follow : List Bytes → Value → Option Value
unfolding step_into then_follow
follow [] v = some v
follow (part ∷ parts) v = then_follow (follow parts) (step_into part v)

-- lookup
unfoldable pub lookup_path : Bytes → Fields → Option Value
unfolding follow
lookup_path [] object = none
lookup_path (c ∷ cs) object = follow (split_dots [] (c ∷ cs)) (obj object)

module _ {A : Type 0} where
  abbrev read_with : (Value → Option A) → Option Value → Option A
  read_with f none = none
  read_with f (some v) = f v

  abbrev or_later : Bytes → Option (A × Bytes) → Option A → Option (A × Bytes)
  or_later p later none = later
  or_later p later (some a) = some (a, p)

  -- The loop over the candidate paths: the first value that can be read, with its path.
  unfoldable pub resolve : (Value → Option A) → List Bytes → Fields → Option (A × Bytes)
  resolve f [] object = none
  resolve f (p ∷ ps) object = or_later p (resolve f ps object) (read_with f (lookup_path p object))

-- Nanoseconds from Go's zero time to the Unix epoch.
abbrev epoch : ℤ
epoch = pos 62135596800000000000

abbrev scaled : ℕ → ℤ → ℤ
scaled k (pos n) = pos (n * k)
scaled k (negsuc n) = sub_ℕ 0 (suc n * k)

abbrev is_milliseconds : ℤ → Bool
is_milliseconds (pos n) = leb 1000000000000 n
is_milliseconds (negsuc n) = false

-- unixToTime
unfoldable pub unix_to_time : ℤ → ℤ
unix_to_time n = epoch +ℤ scaled (if is_milliseconds n then 1000000 else 1000000000) n

abbrev or_time : Option ℤ → Option ℤ → Option ℤ
or_time none later = later
or_time (some t) later = some t

abbrev float_time : Runtime → Option ℕ → Option ℤ
float_time env none = none
float_time env (some x) = some (unix_to_time (env.int_of_float x))

abbrev number_time : Runtime → Bytes → Option ℤ → Option ℤ
number_time env s none = float_time env (env.parse_float s)
number_time env s (some i) = some (unix_to_time i)

-- coerceTimestamp. A null is skipped by every loop.
unfoldable pub coerce_timestamp : Runtime → Outside → Value → Option ℤ
coerce_timestamp env out (str s) = or_time (env.parse_time s) (out.parse_rfc3339 s)
coerce_timestamp env out (number s) = number_time env s (parse_int s)
coerce_timestamp env out (float x) = some (unix_to_time (env.int_of_float x))
coerce_timestamp env out (int i) = some (unix_to_time i)
coerce_timestamp env out _ = none

abbrev number_level : Runtime → Option ℤ → Option LevelText
number_level env none = none
number_level env (some i) = some (normalize_level env (format_int i))

-- The switch of resolveLevel.
unfoldable pub read_level : Runtime → Value → Option LevelText
read_level env (str s) = some (normalize_level env s)
read_level env (number s) = number_level env (parse_int s)
read_level env (float x) = some (normalize_level env (format_int (env.int_of_float x)))
read_level env _ = none

-- The switch of resolveMessage.
unfoldable pub read_message : Runtime → Value → Option Bytes
read_message env null = none
read_message env (str s) = some s
read_message env (number s) = some s
read_message env (bool b) = some (bool_text b)
read_message env (float x) = some (env.format_float_g x)
read_message env v = env.marshal v

-- The test of resolveString.
unfoldable pub read_string : Value → Option Bytes
read_string (str []) = none
read_string (str (c ∷ cs)) = some (c ∷ cs)
read_string _ = none

abbrev pub timestamp_fallback : Bytes
timestamp_fallback = codes "logpond_timestamp_fallback"

abbrev pub level_original : Bytes
level_original = codes "logpond_level_original"

abbrev pub level_unrecognized : Bytes
level_unrecognized = codes "logpond_level_unrecognized"

abbrev pub level_fallback : Bytes
level_fallback = codes "logpond_level_fallback"

-- The keys that the extractor itself writes.
abbrev pub marks : List Bytes
marks = timestamp_fallback ∷ level_original ∷ level_unrecognized ∷ level_fallback ∷ []

abbrev with_text : Bytes → Bytes → Draft → Draft
with_text key [] d = d
with_text key (c ∷ cs) d = with_mark key (str (c ∷ cs)) d

abbrev pub set_timestamp : ℤ → Option (ℤ × Bytes) → Draft → Draft
set_timestamp now none d =
    with_mark timestamp_fallback (bool true)
      (record d { event = record (d.event) { timestamp = now } })
set_timestamp now (some (t, p)) d =
    remove_path p (record d { event = record (d.event) { timestamp = t } })

abbrev pub set_level : Option (LevelText × Bytes) → Draft → Draft
set_level none d =
    with_mark level_fallback (bool true)
      (record d { event = record (d.event) { level = codes "info" } })
set_level (some (l, p)) d = with_text level_unrecognized l.unrecognized (
    with_text level_original l.original
      (remove_path p (record d { event = record (d.event) { level = l.norm } })))

abbrev pub set_message : Option (Bytes × Bytes) → Draft → Draft
set_message none d = d
set_message (some (m, p)) d = remove_path p (record d { event = record (d.event) { message = m } })

abbrev pub set_service : Option (Bytes × Bytes) → Draft → Draft
set_service none d = d
set_service (some (s, p)) d = remove_path p (record d { event = record (d.event) { service = s } })

abbrev pub set_host : Option (Bytes × Bytes) → Draft → Draft
set_host none d = d
set_host (some (s, p)) d = remove_path p (record d { event = record (d.event) { host = s } })

module _ (env : Runtime) (out : Outside) (src : SourceSpec) where
  abbrev pub timed : Draft → Draft
  timed d =
      set_timestamp out.now
        (resolve (coerce_timestamp env out) (paths_of (codes "timestamp") src) d.object) d

  abbrev pub levelled : Draft → Draft
  levelled d = set_level (resolve (read_level env) (paths_of (codes "level") src) d.object) d

  abbrev pub messaged : Draft → Draft
  messaged d = set_message (resolve (read_message env) (paths_of (codes "message") src) d.object) d

  abbrev pub serviced : Draft → Draft
  serviced d = set_service (resolve read_string (paths_of (codes "service") src) d.object) d

  abbrev pub hosted : Draft → Draft
  hosted d = set_host (resolve read_string (paths_of (codes "host") src) d.object) d

  abbrev pub draft_of : Bytes → Fields → Draft
  draft_of line object = record {
    object = object;
    event = record {
      timestamp = pos 0;
      service = [];
      level = [];
      message = [];
      host = [];
      source = src.name;
      attributes = object;
      raw = line;
    };
  }

  unfoldable pub event_of : Bytes → Fields → Event
  event_of line object =
      (hosted (serviced (messaged (levelled (timed (draft_of line object)))))).event

  abbrev pub of_value : Bytes → Option Value → Option Event
  of_value line (some (obj object)) = some (event_of line object)
  of_value line _ = none

  -- Extract; no result is ErrInvalidJSON.
  unfoldable pub extract : Bytes → Option Event
  extract line = of_value line (out.decode line)
