-- ===== src/Tests/Matches.antt =====
-- internal/query/match.go on a concrete event.
use logpond.Base.{◌≡◌, refl, true, false}
use logpond.Base.Text.{codes, equal, contains as has_substring}
use logpond.Query.Value.{
  str, arr, to_lower, scalar_value, scalar_string, scalar_to_string, format_int,
}
use logpond.Query.Event.{is_core_column, is_attribute, field_string}
use logpond.Query.Filter.{eq, is_in, starts_with, all_of, any_of, Leaf, group, leaf, nil, cons}
use logpond.Query.Match.{
  match_leaf, match_node, match_eq, match_substring, match_search, should_lower, trim_space,
}
use logpond.Query.Match.Groups.{quantified, match_node-quantified}
use logpond.Query.Match.Leaves.{is_known, any_value, match_leaf-is_in}
use logpond.Tests.Sample.{runtime, event, predicate, service_is_api, host_in, tree}

match_service : match_leaf runtime service_is_api event ≡ true
unfolding match_leaf match_eq is_attribute is_core_column field_string should_lower to_lower
    scalar_value scalar_string
match_service = refl

-- An `or` group of a leaf and its negation.
match_tree : match_node runtime tree event ≡ true
unfolding match_node match_leaf match_eq is_attribute is_core_column field_string should_lower
    to_lower scalar_value scalar_string
match_tree = refl

match_status :
    match_leaf runtime (predicate eq (codes "attributes.status") (str (codes "500"))) event ≡ true
unfolding match_leaf match_eq is_attribute is_core_column field_string should_lower to_lower
    scalar_value scalar_string scalar_to_string format_int
match_status = refl

match_search_text : match_search runtime (codes "  REFUSED ") event ≡ true
unfolding match_search trim_space to_lower has_substring equal
match_search_text = refl

match_node-quantified_example :
    match_node runtime tree event
    ≡ quantified any_of runtime event
        (cons (leaf service_is_api) (cons (group all_of true (cons (leaf service_is_api) nil)) nil))
match_node-quantified_example =
    match_node-quantified runtime event any_of false (leaf service_is_api)
      (cons (group all_of true (cons (leaf service_is_api) nil)) nil)

known_service : (is_known (codes "service")) ≡ true
unfolding is_attribute is_core_column
known_service = refl

known_host : (is_known (codes "host")) ≡ true
unfolding is_attribute is_core_column
known_host = refl

match_leaf-is_in_example :
    match_leaf runtime (predicate is_in (codes "host") (arr host_in)) event
    ≡ any_value (λ v. match_leaf runtime (predicate eq (codes "host") v) event) host_in
match_leaf-is_in_example =
    match_leaf-is_in runtime (predicate is_in (codes "host") (arr host_in)) event host_in known_host

abbrev message_starts : Leaf
message_starts = predicate starts_with (codes "message") (str (codes "connection"))

match_message_starts : match_leaf runtime message_starts event ≡ true
unfolding match_leaf match_substring is_attribute is_core_column field_string should_lower to_lower
    scalar_value scalar_string
match_message_starts = refl
