-- ===== src/Query/Match.antt =====
-- internal/query/match.go: a filter tree evaluated against an event in memory.
pub mod Groups
pub mod Leaves
use logpond.Base.{
  ℕ, Bool, true, false, not, ◌&&◌, ◌||◌, List, [], ◌∷◌, Option, none, some, leb, ◌==◌,
  if◌then◌else◌,
}
use mathlib.Core.List.{reverse}
use logpond.Base.Int.{ℤ, ltb_ℤ}
use logpond.Base.Text.{Bytes, codes, equal, has_prefix, contains as has_substring, less, is_ascii}
use logpond.Query.Value.{
  Value, arr, Values, Runtime, Scalar, nothing, text, Normal, to_lower, scalar_value, scalar_string,
  to_float,
}
use logpond.Query.Event.{Event, is_core_column, is_attribute, is_some, field_string, field_exists}
use logpond.Query.Filter.{
  Op, eq, neq, is_in, not_in, contains, starts_with, gt, lt, gte, lte, exists, unknown, GroupOp,
  all_of, any_of, unknown_group, Leaf, Node, group, leaf, Nodes, nil, cons,
}

abbrev folds_case : Op → Bool
folds_case eq = true
folds_case neq = true
folds_case contains = true
folds_case starts_with = true
folds_case is_in = true
folds_case not_in = true
folds_case _ = false

-- shouldLower
unfoldable pub should_lower : Leaf → Bool
should_lower l = not l.case_sensitive && folds_case l.op

-- compareNumbers, on floats
unfoldable pub compare_numbers : Runtime → Op → ℕ → ℕ → Bool
compare_numbers env gt a b = env.float_lt b a
compare_numbers env lt a b = env.float_lt a b
compare_numbers env gte a b = env.float_le b a
compare_numbers env lte a b = env.float_le a b
compare_numbers env _ a b = false

-- compareStrings
unfoldable pub compare_strings : Op → Bytes → Bytes → Bool
compare_strings gt a b = less b a
compare_strings lt a b = less a b
compare_strings gte a b = not (less a b)
compare_strings lte a b = not (less b a)
compare_strings _ a b = false

-- compareTimes
unfoldable pub compare_times : Op → ℤ → ℤ → Bool
compare_times gt a b = ltb_ℤ b a
compare_times lt a b = ltb_ℤ a b
compare_times gte a b = not (ltb_ℤ a b)
compare_times lte a b = not (ltb_ℤ b a)
compare_times _ a b = false

-- `s`, lowered if the leaf asks for it.
abbrev folded : Runtime → Leaf → Bytes → Bytes
folded env l s = if should_lower l then to_lower env s else s

-- matchEq, on the text of the field. An unsupported value compares as the empty text.
eq_text : Runtime → Leaf → Normal → Bool → Option Bytes → Bool
unfolding should_lower
eq_text env l want negate none = if want.is_null then not negate else negate
eq_text env l want negate (some got) =
    if want.is_null
    then negate
    else if equal (folded env l got) (folded env l (scalar_string env want.value))
    then not negate
    else negate

unfoldable pub match_eq : Runtime → Leaf → Bool → Event → Bool → Bool
unfolding eq_text
match_eq env l is_attr ev negate =
    eq_text env l (scalar_value env l.value) negate (field_string env l.field is_attr ev)

-- Whether one element of the list is the text of the field.
same_text : Runtime → Leaf → Option Bytes → Normal → Bool
unfolding should_lower
same_text env l none want = false
same_text env l (some got) want =
    not want.is_null && equal (folded env l got) (folded env l (scalar_string env want.value))

-- The loop of matchIn: (matched, hasNull). It stops at the first match.
scan_values : Runtime → Leaf → Option Bytes → Bool → Values → Bool × Bool
unfolding same_text
scan_values env l got has_null Values.nil = (false, has_null)
scan_values env l got has_null (Values.cons v vs) =
    let want = scalar_value env v in
    let rest = scan_values env l got (has_null || want.is_null) vs in
    if same_text env l got want then (true, has_null) else rest

-- What follows the loop.
in_result : Bool → Bool → Bool → Bool → Bool
in_result present matched has_null negate =
    let matched' = matched || (has_null && not present) in
    if negate then (if has_null && not present then false else not matched') else matched'

match_in_values : Runtime → Leaf → Option Bytes → Bool → Value → Bool
unfolding scan_values in_result
match_in_values env l got negate (arr vs) =
    let (matched, has_null) = scan_values env l got false vs in
    in_result (is_some got) matched has_null negate
match_in_values env l got negate _ = false

unfoldable pub match_in : Runtime → Leaf → Bool → Event → Bool → Bool
unfolding match_in_values
match_in env l is_attr ev negate =
    match_in_values env l (field_string env l.field is_attr ev) negate l.value

-- matchSubstring, on the text of the field
substring_text : Runtime → Leaf → Normal → Bool → Option Bytes → Bool
unfolding should_lower
substring_text env l want anywhere none = false
substring_text env l want anywhere (some got) =
    let needle = folded env l (scalar_string env want.value) in
    if want.is_null
    then false
    else if anywhere
    then has_substring (folded env l got) needle
    else has_prefix (folded env l got) needle

unfoldable pub match_substring : Runtime → Leaf → Bool → Event → Bool → Bool
unfolding substring_text
match_substring env l is_attr ev anywhere =
    substring_text env l (scalar_value env l.value) anywhere (field_string env l.field is_attr ev)

-- parseTimeValue: only a text can be a time here.
time_value : Runtime → Scalar → Option ℤ
time_value env (text s) = env.parse_time s
time_value env _ = none

range_time : Op → ℤ → Option ℤ → Bool
range_time op at none = false
range_time op at (some t) = compare_times op at t

-- Numbers if both sides are, texts otherwise.
range_numbers : Runtime → Op → Option ℕ → Option ℕ → Bytes → Bytes → Bool
range_numbers env op (some a) (some b) got want = compare_numbers env op a b
range_numbers env op _ _ got want = compare_strings op got want

range_text : Runtime → Op → Bool → Scalar → Option Bytes → Bool
unfolding range_numbers
range_text env op is_attr want none = false
range_text env op is_attr want (some got) =
    if is_attr
    then range_numbers env op (env.parse_float got) (to_float env want) got (scalar_string env want)
    else compare_strings op got (scalar_string env want)

unfoldable pub match_range : Runtime → Leaf → Bool → Event → Bool
unfolding time_value range_time range_text
match_range env l is_attr ev =
    let want = scalar_value env l.value in
    if want.is_null
    then false
    else if not is_attr && equal l.field (codes "timestamp")
    then range_time l.op ev.timestamp (time_value env want.value)
    else range_text env l.op is_attr want.value (field_string env l.field is_attr ev)

-- The switch of matchLeaf.
match_op : Runtime → Op → Leaf → Bool → Event → Bool
match_op env exists l is_attr ev = field_exists env l.field is_attr ev
match_op env eq l is_attr ev = match_eq env l is_attr ev false
match_op env neq l is_attr ev = match_eq env l is_attr ev true
match_op env is_in l is_attr ev = match_in env l is_attr ev false
match_op env not_in l is_attr ev = match_in env l is_attr ev true
match_op env contains l is_attr ev = match_substring env l is_attr ev true
match_op env starts_with l is_attr ev = match_substring env l is_attr ev false
match_op env (unknown s) l is_attr ev = false
match_op env _ l is_attr ev = match_range env l is_attr ev

unfoldable pub match_leaf : Runtime → Leaf → Event → Bool
unfolding match_op
match_leaf env l ev =
    let is_attr = is_attribute l.field in
    if not is_attr && not (is_core_column l.field) then false else match_op env l.op l is_attr ev

abbrev pub is_or : GroupOp → Bool
is_or any_of = true
is_or _ = false

-- Match on a node and the loop of matchGroup, which stops as soon as the result is settled.
unfoldable mutual
  pub match_node : Runtime → Node → Event → Bool
  match_node env (leaf l) ev = match_leaf env l ev
  match_node env (group op negated nil) ev = true
  match_node env (group op negated (cons n ns)) ev =
      let result = match_children env (is_or op) (not (is_or op)) (cons n ns) ev in
      if negated then not result else result

  pub match_children : Runtime → Bool → Bool → Nodes → Event → Bool
  match_children env either result nil ev = result
  match_children env either result (cons n ns) ev =
      let matched = match_node env n ev in
      let result' = if either then result || matched else result && matched in
      let rest = match_children env either result' ns ev in
      if either then (if result' then result' else rest) else if result' then rest else result'

-- `Match`; no tree at all matches everything.
unfoldable pub match_filter : Runtime → Option Node → Event → Bool
unfolding match_node
match_filter env none ev = true
match_filter env (some n) ev = match_node env n ev

-- ASCII space
abbrev is_space : ℕ → Bool
is_space c = c == b' ' || (leb 9 c && leb c 13)

trim_left : Bytes → Bytes
trim_left [] = []
trim_left (c ∷ cs) = if is_space c then trim_left cs else c ∷ cs

-- strings.TrimSpace
unfoldable pub trim_space : Runtime → Bytes → Bytes
unfolding trim_left
trim_space env s =
    if is_ascii s then reverse (trim_left (reverse (trim_left s))) else env.trim_unicode s

-- MatchSearch
unfoldable pub match_search : Runtime → Bytes → Event → Bool
match_search env search ev =
    let trimmed = trim_space env search in
    let needle = to_lower env trimmed in
    if equal trimmed []
    then true
    else has_substring (to_lower env ev.message) needle
      || has_substring (to_lower env ev.raw) needle
