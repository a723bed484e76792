-- ===== src/Query/Filter/Depth.antt =====
-- Which trees `IsFilterTooDeep` is about.
use Prim.Native.Nat.{max}
use logpond.Base.{
  ℕ, suc, ◌+◌, ◌<◌, ◌≡◌, refl, true, false, Option, none, some, ◌⊎◌, inl, inr, arith,
}
use logpond.Query.Value.{Value}
use logpond.Query.Filter.{
  Op, GroupOp, Leaf, Node, group, leaf, Nodes, nil, cons, FilterError, max_filter_depth,
  validate_op, validate_leaf, validate_group, or_else, at_index, validate_at, validate_children,
  validate, is_filter_too_deep,
}

-- How many groups nest.
abbrev mutual
  pub nesting : Node → ℕ
  nesting (group op negated children) = suc (deepest children)
  nesting (leaf l) = 0

  pub deepest : Nodes → ℕ
  deepest nil = 0
  deepest (cons n ns) = max (nesting n) (deepest ns)

or_else-eq-some :
    (a b : Option FilterError) (e : FilterError)
    → or_else a b ≡ some e
    → (a ≡ some e) ⊎ (b ≡ some e)
or_else-eq-some none b e h = inr h
or_else-eq-some (some x) b e h = inl h

-- A wrapped error is too deep exactly when the error inside is.
at_index-eq-some :
    (i : ℕ) (a : Option FilterError) (e : FilterError)
    → at_index i a ≡ some e
    → is_filter_too_deep e ≡ true
    → (x : FilterError) × (a ≡ some x) × (is_filter_too_deep x ≡ true)
at_index-eq-some i none e h d = cc
at_index-eq-some i (some x) e h d = (x, refl, ground arith)

not_deep_op :
    (op : Op) (v : Value) (e : FilterError)
    → validate_op op v ≡ some e
    → is_filter_too_deep e ≡ false
unfolding validate_op
not_deep_op op v e h = ground arith

not_deep_leaf :
    (l : Leaf) (e : FilterError) → validate_leaf l ≡ some e → is_filter_too_deep e ≡ false
unfolding validate_leaf
not_deep_leaf l e h = ground (arith, not_deep_op l.op l.value e)

deep_group :
    (depth : ℕ) (op : GroupOp) (ns : Nodes) (e : FilterError)
    → validate_group depth op ns ≡ some e
    → is_filter_too_deep e ≡ true
    → max_filter_depth < depth
unfolding validate_group
deep_group depth op ns e h d = ground arith

mutual
  unfolding validate_at

  deep_error :
      (n : Node) (depth : ℕ) (e : FilterError)
      → validate_at depth n ≡ some e
      → is_filter_too_deep e ≡ true
      → suc max_filter_depth < nesting n + depth
  deep_error (leaf l) depth e h d = cc (not_deep_leaf l e h)
  deep_error (group op negated children) depth e h d =
      elim (or_else-eq-some (validate_group depth op children) _ e h) [
        | inl own ↦ omega (arith, deep_group depth op children e own d)
        | inr below ↦ omega (arith, deep_child children (suc depth) 0 e below d)
      ]

  deep_child :
      (ns : Nodes) (depth i : ℕ) (e : FilterError)
      → validate_children depth i ns ≡ some e
      → is_filter_too_deep e ≡ true
      → suc max_filter_depth < deepest ns + depth
  deep_child nil depth i e h d = cc
  deep_child (cons n ns) depth i e h d =
      elim (or_else-eq-some (at_index i (validate_at depth n)) _ e h) [
        | inl first ↦
            let (x, inside, deep) = at_index-eq-some i (validate_at depth n) e first d in
            omega (arith, deep_error n depth x inside deep)
        | inr later ↦ omega (arith, deep_child ns depth (suc i) e later d)
      ]

-- If the error that `Validate` returns counts as filter_too_deep, then more than MaxFilterDepth
-- groups nest in the tree.
pub validate-is_filter_too_deep :
    (n : Node) (e : FilterError)
    → validate n ≡ some e
    → is_filter_too_deep e ≡ true
    → max_filter_depth < nesting n
unfolding validate
validate-is_filter_too_deep n e h d = omega (arith, deep_error n 1 e h d)
