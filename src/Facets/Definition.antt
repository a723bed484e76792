-- ===== src/Facets/Definition.antt =====
-- internal/facets/registry.go: the definition of a facet, its label and its value type.
use logpond.Base.{
  Bool, true, false, ◌&&◌, ◌||◌, List, [], ◌∷◌, ◌++◌, ◌-◌, Option, none, some, map, if◌then◌else◌,
  leb, ◌==◌, ℕ,
}
use logpond.Base.Text.{Bytes, codes, equal}
use logpond.Catalog.Segment.{zero_time}
use logpond.Base.Int.{ℤ, pos, ltb_ℤ}

-- `no_kind` is the empty Kind of a zero Definition.
pub data Kind : Type 0 where
  no_kind : Kind
  builtin : Kind
  custom : Kind

-- `none_set` is the empty Source of a built-in facet.
pub data Source : Type 0 where
  none_set : Source
  config : Source
  ui : Source

pub record Definition : Type 0 where
  pub name : Bytes
  pub field : Bytes
  pub display_label : Bytes
  pub cardinality_cap : ℤ
  pub value_type : Bytes
  pub kind : Kind
  pub source : Source
  pub created_at : ℤ
  pub updated_at : ℤ

-- A Definition that no write has set.
abbrev pub zero_definition : Definition
zero_definition = record {
  name = [];
  field = [];
  display_label = [];
  cardinality_cap = pos 0;
  value_type = [];
  kind = no_kind;
  source = none_set;
  created_at = zero_time;
  updated_at = zero_time;
}

-- `existing.Kind != KindCustom || existing.Source != SourceUI`, negated
abbrev pub is_ui : Kind → Source → Bool
is_ui custom ui = true
is_ui custom config = false
is_ui custom none_set = false
is_ui builtin s = false
is_ui no_kind s = false

-- Where a run of white space of Unicode, as UTF-8, stands: between two characters, or behind the bytes
-- of one that has begun.
pub data Blank : Type 0 where
  between : Blank
  c2 : Blank
  e1 : Blank
  e1_9a : Blank
  e2 : Blank
  e2_80 : Blank
  e2_81 : Blank
  e3 : Blank
  e3_80 : Blank
  text : Blank

abbrev began : ℕ → Blank
began c =
    if c == b' ' || (leb 9 c && leb c 13)
    then between
    else if c == 194
    then c2
    else if c == 225
    then e1
    else if c == 226
    then e2
    else if c == 227
    then e3
    else text

abbrev ends : Bool → Blank
ends true = between
ends false = text

abbrev next_blank : Blank → ℕ → Blank
next_blank between c = began c
next_blank c2 c = ends (c == 133 || c == 160)
next_blank e1 c = if c == 154 then e1_9a else text
next_blank e1_9a c = ends (c == 128)
next_blank e2 c = if c == 128 then e2_80 else if c == 129 then e2_81 else text
next_blank e2_80 c = ends (leb 128 c && leb c 138 || c == 168 || c == 169 || c == 175)
next_blank e2_81 c = ends (c == 159)
next_blank e3 c = if c == 128 then e3_80 else text
next_blank e3_80 c = ends (c == 128)
next_blank text c = text

abbrev is_between : Blank → Bool
is_between between = true
is_between _ = false

abbrev blank_from : Blank → Bytes → Bool
blank_from b [] = is_between b
blank_from b (c ∷ s) = blank_from (next_blank b c) s

-- `strings.TrimSpace(s) == ""`
unfoldable pub is_blank_label : Bytes → Bool
is_blank_label s = blank_from between s

abbrev is_separator : ℕ → Bool
is_separator c = c == b'_' || c == b'-' || c == b'.'

abbrev word : Bytes → List Bytes → List Bytes
word [] ws = ws
word (c ∷ w) ws = (c ∷ w) ∷ ws

-- strings.FieldsFunc at the separators, behind the letters `w` of a word that has begun
abbrev fields_from : Bytes → Bytes → List Bytes
fields_from w [] = word w []
fields_from w (c ∷ s) =
    if is_separator c then word w (fields_from [] s) else fields_from (w ++ c ∷ []) s

-- `strings.ToUpper(p[:1]) + p[1:]`: one byte, so a letter outside ASCII becomes U+FFFD.
abbrev pub upper_first : Bytes → Bytes
upper_first [] = []
upper_first (c ∷ s) =
    if leb 128 c
    then 239 ∷ 191 ∷ 189 ∷ s
    else if leb b'a' c && leb c b'z'
    then (c - 32) ∷ s
    else c ∷ s

-- strings.Join(parts, " ")
abbrev join_words : List Bytes → Bytes
join_words [] = []
join_words (w ∷ []) = w
join_words (w ∷ v ∷ ws) = w ++ b' ' ∷ join_words (v ∷ ws)

-- titleCase
unfoldable pub title_case : Bytes → Bytes
title_case s = join_words (map upper_first (fields_from [] s))

-- resolveLabel
unfoldable pub resolve_label : Bytes → Bytes → Bytes
resolve_label label name = if is_blank_label label then title_case name else label

-- `.String` of a sql.NullString and `.Int64` of a sql.NullInt64
abbrev pub string_of : Option Bytes → Bytes
string_of none = []
string_of (some s) = s

abbrev pub int_of : Option ℤ → ℤ
int_of none = pos 0
int_of (some n) = n

-- resolveValueType
unfoldable pub resolve_value_type : Bytes → Bytes
resolve_value_type v =
    if equal v (codes "string") || equal v (codes "number") || equal v (codes "bool")
    then v
    else codes "string"

-- `n > 0`
abbrev pub is_above : ℤ → Bool
is_above n = ltb_ℤ (pos 0) n

-- defaultCapOr
abbrev pub default_cap_or : ℤ → ℤ → ℤ
default_cap_or stored requested =
    if is_above stored then stored else if is_above requested then requested else pos 50
