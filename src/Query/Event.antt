-- ===== src/Query/Event.antt =====
-- internal/ingest/event.go: the row that Logpond stores, and the look-up of its fields by name
-- (`coreFieldValue`, `attrValue`, `fieldString`, `fieldExists` of internal/query/match.go).
use logpond.Base.{
  Bool, true, false, ◌||◌, List, [], ◌∷◌, ◌++◌, Option, none, some, ◌==◌, if◌then◌else◌, drop,
}
use logpond.Base.Int.{ℤ, pos, negsuc}
use logpond.Base.Text.{Bytes, codes, equal, has_prefix}
use logpond.Query.Value.{Value, null, obj, Fields, end, field, Runtime, scalar_to_string}

-- Timestamps are nanoseconds since Go's zero time.
pub record Event : Type 0 where
  pub timestamp : ℤ
  pub service : Bytes
  pub level : Bytes
  pub message : Bytes
  pub host : Bytes
  pub source : Bytes
  pub attributes : Fields
  pub raw : Bytes

-- CoreColumns
unfoldable pub is_core_column : Bytes → Bool
unfolding equal
is_core_column f =
    equal f (codes "timestamp")
    || equal f (codes "service")
    || equal f (codes "level")
    || equal f (codes "message")
    || equal f (codes "host")
    || equal f (codes "source")
    || equal f (codes "raw")

-- AttributePrefix
abbrev pub attribute_prefix : Bytes
attribute_prefix = codes "attributes."

-- Whether a field addresses the attributes, and the path behind the prefix.
unfoldable pub is_attribute : Bytes → Bool
unfolding has_prefix
is_attribute f = has_prefix f attribute_prefix

abbrev pub attribute_path : Bytes → Bytes
attribute_path f = drop 11 f

abbrev present : Bytes → Option Bytes
present [] = none
present (c ∷ cs) = some (c ∷ cs)

abbrev time_text : Runtime → ℤ → Option Bytes
time_text env (pos n) = if n == 0 then none else some (env.format_time (pos n))
time_text env (negsuc n) = some (env.format_time (negsuc n))

unfoldable pub core_field_value : Runtime → Bytes → Event → Option Bytes
unfolding equal
core_field_value env f ev =
    if equal f (codes "timestamp")
    then time_text env ev.timestamp
    else if equal f (codes "service")
    then present ev.service
    else if equal f (codes "level")
    then present ev.level
    else if equal f (codes "message")
    then present ev.message
    else if equal f (codes "host")
    then present ev.host
    else if equal f (codes "source")
    then present ev.source
    else if equal f (codes "raw")
    then present ev.raw
    else none

-- strings.Split(s, "."): the part being read is kept in reverse order of arrival at its end.
unfoldable pub split_dots : Bytes → Bytes → List Bytes
split_dots part [] = part ∷ []
split_dots part (c ∷ cs) =
    let here = split_dots [] cs in
    let further = split_dots (part ++ c ∷ []) cs in if c == b'.' then part ∷ here else further

unfoldable pub get_field : Bytes → Fields → Option Value
unfolding equal
get_field k end = none
get_field k (field j v fs) = if equal j k then some v else get_field k fs

get_in : Bytes → Value → Option Value
unfolding get_field
get_in k (obj fs) = get_field k fs
get_in k _ = none

and_then : Option Value → (Value → Option Value) → Option Value
and_then none f = none
and_then (some v) f = f v

walk : List Bytes → Value → Option Value
unfolding get_in and_then
walk [] v = some v
walk (k ∷ ks) v = and_then (get_in k v) (walk ks)

-- A null at the end of the path is absent.
non_null : Option Value → Option Value
non_null (some null) = none
non_null v = v

unfoldable pub attr_value : Bytes → Fields → Option Value
unfolding non_null walk split_dots
attr_value path end = none
attr_value [] attrs = none
attr_value path attrs = non_null (walk (split_dots [] path) (obj attrs))

abbrev string_of : Runtime → Option Value → Option Bytes
string_of env none = none
string_of env (some v) = scalar_to_string env v

unfoldable pub field_string : Runtime → Bytes → Bool → Event → Option Bytes
unfolding attr_value core_field_value
field_string env f is_attr ev =
    if is_attr
    then string_of env (attr_value (attribute_path f) ev.attributes)
    else core_field_value env f ev

abbrev pub is_some {ℓ} : {A : Type ℓ} → Option A → Bool
is_some none = false
is_some (some a) = true

unfoldable pub field_exists : Runtime → Bytes → Bool → Event → Bool
unfolding attr_value core_field_value
field_exists env f is_attr ev =
    if is_attr
    then is_some (attr_value (attribute_path f) ev.attributes)
    else is_some (core_field_value env f ev)
