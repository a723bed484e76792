-- ===== src/Query/Filter.antt =====
-- internal/query/filter.go: the canonical filter tree, its validation, and the two ways to wrap
-- leaves. Decoding from JSON is not modelled.
pub mod Validity
pub mod Depth
use logpond.Base.{
  ℕ, zero, suc, ◌+◌, Bool, true, false, ◌||◌, List, [], ◌∷◌, Option, none, some, ltb, if◌then◌else◌,
}
use logpond.Base.Text.{Bytes, equal}
use logpond.Query.Value.{Value, null, arr, Values}

-- MaxFilterDepth
abbrev pub max_filter_depth : ℕ
max_filter_depth = 32

-- An `Op` is a string: `unknown` is any other than the eleven constants.
pub data Op : Type 0 where
  eq neq is_in not_in contains starts_with gt lt gte lte exists : Op
  unknown : Bytes → Op

pub data GroupOp : Type 0 where
  all_of any_of : GroupOp
  unknown_group : Bytes → GroupOp

pub record Leaf : Type 0 where
  pub field : Bytes
  pub op : Op
  pub value : Value
  pub case_sensitive : Bool

-- `group op not children`
mutual
  pub data Node : Type 0 where
    group : GroupOp → Bool → Nodes → Node
    leaf : Leaf → Node

  pub data Nodes : Type 0 where
    nil : Nodes
    cons : Node → Nodes → Nodes

-- The errors of `Validate`; `at_child i e` is `e` wrapped with `children[i]`.
pub data FilterError : Type 0 where
  too_deep invalid_group_op no_children missing_field invalid_op : FilterError
  requires_value requires_array : Op → FilterError
  at_child : ℕ → FilterError → FilterError

value_required : Op → Value → Option FilterError
value_required op null = some (requires_value op)
value_required op v = none

array_required : Op → Value → Option FilterError
array_required op (arr (Values.cons v vs)) = none
array_required op v = some (requires_array op)

validate_op : Op → Value → Option FilterError
unfolding value_required array_required
validate_op eq v = value_required eq v
validate_op neq v = value_required neq v
validate_op contains v = value_required contains v
validate_op starts_with v = value_required starts_with v
validate_op gt v = value_required gt v
validate_op lt v = value_required lt v
validate_op gte v = value_required gte v
validate_op lte v = value_required lte v
validate_op is_in v = array_required is_in v
validate_op not_in v = array_required not_in v
validate_op exists v = none
validate_op (unknown s) v = some invalid_op

-- validateLeaf
unfoldable pub validate_leaf : Leaf → Option FilterError
unfolding validate_op
validate_leaf l = if equal l.field [] then some missing_field else validate_op l.op l.value

abbrev pub known_group_op : GroupOp → Bool
known_group_op (unknown_group s) = false
known_group_op _ = true

abbrev no_nodes : Nodes → Bool
no_nodes nil = true
no_nodes (cons n ns) = false

-- What a group is checked for before its children.
unfoldable pub validate_group : ℕ → GroupOp → Nodes → Option FilterError
validate_group depth op children =
    if ltb max_filter_depth depth
    then some too_deep
    else if known_group_op op
    then (if no_nodes children then some no_children else none)
    else some invalid_group_op

abbrev pub or_else : Option FilterError → Option FilterError → Option FilterError
or_else none later = later
or_else (some e) later = some e

abbrev pub at_index : ℕ → Option FilterError → Option FilterError
at_index i none = none
at_index i (some e) = some (at_child i e)

-- validate(n, depth), and its loop over the children from index i.
unfoldable mutual
  pub validate_at : ℕ → Node → Option FilterError
  validate_at depth (group op negated children) =
      or_else (validate_group depth op children) (validate_children (suc depth) 0 children)
  validate_at depth (leaf l) = validate_leaf l

  pub validate_children : ℕ → ℕ → Nodes → Option FilterError
  validate_children depth i nil = none
  validate_children depth i (cons n ns) =
      or_else (at_index i (validate_at depth n)) (validate_children depth (suc i) ns)

unfoldable pub validate : Node → Option FilterError
validate n = validate_at 1 n

-- IsFilterTooDeep: the wrapped error counts.
abbrev pub is_filter_too_deep : FilterError → Bool
is_filter_too_deep too_deep = true
is_filter_too_deep (at_child i e) = is_filter_too_deep e
is_filter_too_deep _ = false

-- AsAnd; the result is always a group.
unfoldable pub as_and : Node → Node
as_and (group op negated children) = group op negated children
as_and (leaf l) = group all_of false (cons (leaf l) nil)

leaves_to_nodes : List Leaf → Nodes
leaves_to_nodes [] = nil
leaves_to_nodes (l ∷ ls) = cons (leaf l) (leaves_to_nodes ls)

-- LeavesFromFlat
unfoldable pub leaves_from_flat : List Leaf → Node
unfolding leaves_to_nodes
leaves_from_flat leaves = group all_of false (leaves_to_nodes leaves)
