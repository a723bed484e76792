-- ===== src/Query/Match/Leaves.antt =====
-- How the leaf operators relate to one another.
use logpond.Base.{
  ◌≡◌, refl, sym, ap, ◌∙◌, Bool, true, false, not, ◌&&◌, ◌||◌, Option, none, some, arith,
  if◌then◌else◌,
}
use mathlib.Core.Path.{fun_ext}
use logpond.Base.Text.{Bytes, has_prefix→contains}
use logpond.Query.Value.{Value, arr, Values, Runtime, Normal, scalar_value, scalar_string, to_lower}
use logpond.Query.Event.{Event, is_core_column, is_attribute, is_some, field_string}
use logpond.Query.Filter.{Op, eq, neq, is_in, not_in, contains, starts_with, Leaf}
use logpond.Query.Match.{
  should_lower, eq_text, match_eq, scan_values, in_result, match_in, substring_text,
  match_substring, match_op, match_leaf,
}

-- A field that `matchLeaf` looks at at all.
abbrev pub is_known : Bytes → Bool
is_known f = is_attribute f || is_core_column f

abbrev pub with_op : Leaf → Op → Leaf
with_op l op = record l { op = op }

abbrev pub with_value : Leaf → Value → Leaf
with_value l v = record l { value = v }

match_leaf-known :
    (env : Runtime) (l : Leaf) (ev : Event)
    → is_known l.field ≡ true
    → match_leaf env l ev ≡ match_op env l.op l (is_attribute l.field) ev
unfolding match_leaf
match_leaf-known env l ev known = ground arith

eq_text-neq :
    (env : Runtime) (l : Leaf) (want : Normal) (got : Option Bytes)
    → eq_text env (with_op l neq) want true got ≡ not (eq_text env (with_op l eq) want false got)
unfolding eq_text should_lower
eq_text-neq env l want none = ground arith
eq_text-neq env l want (some got) = ground arith

-- For a known field `neq` is the negation of `eq`, whatever the value, missing fields included.
match_leaf-neq :
    (env : Runtime) (l : Leaf) (ev : Event)
    → is_known l.field ≡ true
    → match_leaf env (with_op l neq) ev ≡ not (match_leaf env (with_op l eq) ev)
unfolding match_op match_eq
match_leaf-neq env l ev known =
    match_leaf-known env (with_op l neq) ev known
    ∙ eq_text-neq env l (scalar_value env l.value)
        (field_string env l.field (is_attribute l.field) ev)
    ∙ ap not (sym (match_leaf-known env (with_op l eq) ev known))

in_result-negated :
    (present matched has_null : Bool)
    → in_result present matched has_null true ≡ not (in_result present matched has_null false)
unfolding in_result
in_result-negated p m h = ground arith

-- `in` and `not_in` read the list in the same way.
scan_values-not_in :
    (env : Runtime) (l : Leaf) (v : Value) (got : Option Bytes) (has_null : Bool) (vs : Values)
    → scan_values env (record l { op = not_in; value = v }) got has_null vs
      ≡ scan_values env (record l { op = is_in; value = v }) got has_null vs
unfolding scan_values should_lower
scan_values-not_in env l v got h Values.nil = refl
scan_values-not_in env l v none h (Values.cons w vs) = scan_values-not_in env l v none _ vs
scan_values-not_in env l v (some g) h (Values.cons w vs) =
    rw (scan_values-not_in env l v (some g) (h || (scalar_value env w).is_null) vs)

-- For a known field and a list as value, `not_in` is the negation of `in`, with a null in the list
-- or without.
match_leaf-not_in :
    (env : Runtime) (l : Leaf) (ev : Event) (vs : Values)
    → is_known l.field ≡ true
    → match_leaf env (record l { op = not_in; value = arr vs }) ev
      ≡ not (match_leaf env (record l { op = is_in; value = arr vs }) ev)
unfolding match_op match_in
match_leaf-not_in env l ev vs known =
    let got = field_string env l.field (is_attribute l.field) ev in
    match_leaf-known env (record l { op = not_in; value = arr vs }) ev known
    ∙ rw (scan_values-not_in env l (arr vs) got false vs) (in_result-negated _ _ _)
    ∙ ap not (sym (match_leaf-known env (record l { op = is_in; value = arr vs }) ev known))

-- Some element of a list, as a fold.
abbrev pub any_value : (Value → Bool) → Values → Bool
any_value p Values.nil = false
any_value p (Values.cons v vs) = p v || any_value p vs

-- One element of the list against the text of the field.
abbrev element : Runtime → Leaf → Option Bytes → Value → Bool
element env l got v = eq_text env (record l { op = eq; value = v }) (scalar_value env v) false got

scan_values-any :
    (env : Runtime) (l : Leaf) (w : Value) (got : Option Bytes) (has_null : Bool) (vs : Values)
    → (let r = scan_values env (record l { op = is_in; value = w }) got has_null vs in
        in_result (is_some got) r.0 r.1 false)
      ≡ (has_null && not (is_some got)) || any_value (element env l got) vs
unfolding scan_values in_result eq_text should_lower
scan_values-any env l w got h Values.nil = ground arith
scan_values-any env l w none h (Values.cons v vs) =
    ground (arith, scan_values-any env l w none (h || (scalar_value env v).is_null) vs)
scan_values-any env l w (some g) h (Values.cons v vs) =
    ground (arith, scan_values-any env l w (some g) (h || (scalar_value env v).is_null) vs)

-- For a known field, `in` with a list matches exactly when `eq` matches with one of its elements,
-- a null element standing for a missing field.
pub match_leaf-is_in :
    (env : Runtime) (l : Leaf) (ev : Event) (vs : Values)
    → is_known l.field ≡ true
    → match_leaf env (record l { op = is_in; value = arr vs }) ev
      ≡ any_value (λ v. match_leaf env (record l { op = eq; value = v }) ev) vs
unfolding match_op match_in match_eq
match_leaf-is_in env l ev vs known =
    match_leaf-known env (record l { op = is_in; value = arr vs }) ev known
    ∙ scan_values-any env l (arr vs) (field_string env l.field (is_attribute l.field) ev) false vs
    ∙ ap (λ p. any_value p vs)
        (fun_ext λ v. sym (match_leaf-known env (record l { op = eq; value = v }) ev known))

substring_text-contains :
    (env : Runtime) (l : Leaf) (want : Normal) (got : Option Bytes)
    → substring_text env (with_op l starts_with) want false got ≡ true
    → substring_text env (with_op l contains) want true got ≡ true
unfolding substring_text should_lower
substring_text-contains env l want none h = cc
substring_text-contains env l want (some got) h =
    let lowered = λ (s : Bytes). if not l.case_sensitive && true then to_lower env s else s in
    ground (arith, has_prefix→contains (lowered got) (lowered (scalar_string env want.value)))

-- An event that matches `starts_with` matches `contains` with the same field and value.
match_leaf-starts_with :
    (env : Runtime) (l : Leaf) (ev : Event)
    → match_leaf env (with_op l starts_with) ev ≡ true
    → match_leaf env (with_op l contains) ev ≡ true
unfolding match_leaf match_op match_substring
match_leaf-starts_with env l ev h = ground (
  arith,
  substring_text-contains env l (scalar_value env l.value)
      (field_string env l.field (is_attribute l.field) ev),
)
