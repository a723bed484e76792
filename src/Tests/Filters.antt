-- ===== src/Tests/Filters.antt =====
-- internal/query/filter.go on concrete trees.
use logpond.Base.{ℕ, zero, suc, ◌<◌, ◌≡◌, refl, none, some, false}
use logpond.Query.Filter.{
  all_of, Node, group, leaf, nil, cons, FilterError, too_deep, at_child, no_children,
  max_filter_depth, validate, validate_at, validate_group, validate_leaf,
}
use logpond.Base.Text.{equal}
use logpond.Query.Filter.Validity.{IsGood, validate_iff_IsGood}
use logpond.Query.Filter.Depth.{nesting, validate-is_filter_too_deep}
use logpond.Tests.Sample.{service_is_api, tree}

abbrev nested : ℕ → Node
nested zero = leaf service_is_api
nested (suc n) = group all_of false (cons (nested n) nil)

abbrev wrapped : ℕ → FilterError
wrapped zero = too_deep
wrapped (suc n) = at_child 0 (wrapped n)

validate_32 : validate (nested 32) ≡ none
unfolding validate validate_at validate_group validate_leaf equal
validate_32 = refl

validate_33 : validate (nested 33) ≡ some (wrapped 32)
unfolding validate validate_at validate_group
validate_33 = refl

validate_empty_group :
    validate (group all_of false (cons (leaf service_is_api) (cons (group all_of false nil) nil)))
    ≡ some (at_child 1 no_children)
unfolding validate validate_at validate_group validate_leaf equal
validate_empty_group = refl

validate-tree : validate tree ≡ none
unfolding validate validate_at validate_group validate_leaf equal
validate-tree = refl

validate_iff_IsGood_example : IsGood max_filter_depth tree
validate_iff_IsGood_example = (validate_iff_IsGood tree).0 validate-tree

validate-is_filter_too_deep_example : max_filter_depth < nesting (nested 33)
validate-is_filter_too_deep_example =
    validate-is_filter_too_deep (nested 33) (wrapped 32) validate_33 refl
