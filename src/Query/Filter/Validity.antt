-- ===== src/Query/Filter/Validity.antt =====
-- What `Validate` accepts, described without its control flow.
use logpond.Base.{
  ℕ, zero, suc, ◌+◌, ◌≤◌, ◌≡◌, ◌≢◌, ◌↔◌, refl, Bool, true, false, [], Option, none, some, arith,
}
use logpond.Base.Text.{equal_iff}
use logpond.Query.Value.{Value, null, arr, Values}
use logpond.Query.Filter.{
  Op, is_in, not_in, exists, unknown, GroupOp, Leaf, Node, group, leaf, Nodes, nil, cons,
  FilterError, max_filter_depth, validate_op, validate_leaf, known_group_op, validate_group,
  or_else, at_index, validate_at, validate_children, validate, no_nodes,
}

-- The value that each operator wants.
abbrev pub HasOperand : Op → Value → Type 0
HasOperand is_in v = (x : Value) × (xs : Values) × (v ≡ arr (Values.cons x xs))
HasOperand not_in v = (x : Value) × (xs : Values) × (v ≡ arr (Values.cons x xs))
HasOperand exists v = Unit
HasOperand (unknown s) v = ⊥
HasOperand _ v = v ≢ null

pub record IsGoodLeaf (l : Leaf) : Type 0 where
  pub named : l.field ≢ []
  pub operand : HasOperand l.op l.value

-- Every group is non-empty with a known operator, every leaf is good, and at most `room` groups
-- nest.
mutual
  pub data IsGood : ℕ → Node → Type 0 where
    good_group :
        {room : ℕ} {op : GroupOp} {negated : Bool} {n : Node} {ns : Nodes}
        → known_group_op op ≡ true
        → IsGood room n
        → AreGood room ns
        → IsGood (suc room) (group op negated (cons n ns))
    good_leaf : {room : ℕ} {l : Leaf} → IsGoodLeaf l → IsGood room (leaf l)

  pub data AreGood : ℕ → Nodes → Type 0 where
    none_left : {room : ℕ} → AreGood room nil
    and_also :
        {room : ℕ} {n : Node} {ns : Nodes}
        → IsGood room n
        → AreGood room ns
        → AreGood room (cons n ns)

validate_op→HasOperand : (op : Op) (v : Value) → validate_op op v ≡ none → HasOperand op v
unfolding validate_op
validate_op→HasOperand is_in v h = ground arith
validate_op→HasOperand not_in v h = ground arith
validate_op→HasOperand _ v h = ground arith

HasOperand→validate_op : (op : Op) (v : Value) → HasOperand op v → validate_op op v ≡ none
unfolding validate_op
HasOperand→validate_op is_in v h = ground arith
HasOperand→validate_op not_in v h = ground arith
HasOperand→validate_op _ v h = ground arith

validate_leaf→IsGoodLeaf : (l : Leaf) → validate_leaf l ≡ none → IsGoodLeaf l
unfolding validate_leaf
validate_leaf→IsGoodLeaf l h = record {
  named = ground (arith, equal_iff l.field []);
  operand = validate_op→HasOperand l.op l.value (ground arith);
}

IsGoodLeaf→validate_leaf : (l : Leaf) → IsGoodLeaf l → validate_leaf l ≡ none
unfolding validate_leaf
IsGoodLeaf→validate_leaf l g =
    ground (arith, equal_iff l.field [], HasOperand→validate_op l.op l.value g.operand, g.named)

or_else-eq-none : (a b : Option FilterError) → or_else a b ≡ none → (a ≡ none) × (b ≡ none)
or_else-eq-none none b h = (refl, h)
or_else-eq-none (some e) b h = cc

at_index-eq-none : (i : ℕ) (a : Option FilterError) → at_index i a ≡ none → a ≡ none
at_index-eq-none i none h = refl
at_index-eq-none i (some e) h = cc

validate_group-eq-none :
    (depth : ℕ) (op : GroupOp) (ns : Nodes)
    → validate_group depth op ns ≡ none
    → (depth ≤ max_filter_depth) × (known_group_op op ≡ true) × (no_nodes ns ≡ false)
unfolding validate_group
validate_group-eq-none depth op ns h = ground arith

validate_group_accepts :
    (depth : ℕ) (op : GroupOp) (n : Node) (ns : Nodes)
    → depth ≤ max_filter_depth
    → known_group_op op ≡ true
    → validate_group depth op (cons n ns) ≡ none
unfolding validate_group
validate_group_accepts depth op n ns h k = ground arith

mutual
  unfolding validate_at

  accepted-IsGood :
      (n : Node) (room depth : ℕ)
      → room + depth ≡ suc max_filter_depth
      → validate_at depth n ≡ none
      → IsGood room n
  accepted-IsGood (leaf l) room depth e h = good_leaf (validate_leaf→IsGoodLeaf l h)
  accepted-IsGood (group op negated nil) room depth e h =
      let (own, below) = or_else-eq-none (validate_group depth op nil) _ h in
      cc ((validate_group-eq-none depth op nil own).2)
  accepted-IsGood (group op negated (cons n ns)) zero depth e h =
      let (own, below) = or_else-eq-none (validate_group depth op (cons n ns)) _ h in
      absurd (omega (arith, (validate_group-eq-none depth op (cons n ns) own).0))
  accepted-IsGood (group op negated (cons n ns)) (suc room) depth e h =
      let (own, below) = or_else-eq-none (validate_group depth op (cons n ns)) _ h in
      let (first, later) = or_else-eq-none (at_index 0 (validate_at (suc depth) n)) _ below in
      good_group (validate_group-eq-none depth op (cons n ns) own).1
        (accepted-IsGood n room (suc depth) (omega arith) (at_index-eq-none 0 _ first))
        (accepted-AreGood ns room (suc depth) 1 (omega arith) later)

  accepted-AreGood :
      (ns : Nodes) (room depth i : ℕ)
      → room + depth ≡ suc max_filter_depth
      → validate_children depth i ns ≡ none
      → AreGood room ns
  accepted-AreGood nil room depth i e h = none_left
  accepted-AreGood (cons n ns) room depth i e h =
      let (first, later) = or_else-eq-none (at_index i (validate_at depth n)) _ h in
      and_also (accepted-IsGood n room depth e (at_index-eq-none i _ first))
        (accepted-AreGood ns room depth (suc i) e later)

mutual
  unfolding validate_at

  good_accepted :
      {room : ℕ} {n : Node} (depth : ℕ)
      → room + depth ≡ suc max_filter_depth
      → IsGood room n
      → validate_at depth n ≡ none
  good_accepted depth e (good_leaf {l = l} g) = IsGoodLeaf→validate_leaf l g
  good_accepted depth e (good_group {room} {op} {negated} {n} {ns} k g gs) =
      rw (validate_group_accepts depth op n ns (omega arith) k) (
        rw (good_accepted (suc depth) (omega arith) g)
          (all_good_accepted (suc depth) 1 (omega arith) gs))

  all_good_accepted :
      {room : ℕ} {ns : Nodes} (depth i : ℕ)
      → room + depth ≡ suc max_filter_depth
      → AreGood room ns
      → validate_children depth i ns ≡ none
  all_good_accepted depth i e none_left = refl
  all_good_accepted depth i e (and_also g gs) =
      rw (good_accepted depth e g) (all_good_accepted depth (suc i) e gs)

-- `Validate` accepts a tree exactly when every leaf has a field, a known operator and the value
-- that the operator wants, every group has a known operator and a child, and no more than
-- MaxFilterDepth groups nest.
pub validate_iff_IsGood : (n : Node) → (validate n ≡ none) ↔ IsGood max_filter_depth n
unfolding validate
validate_iff_IsGood n = (accepted-IsGood n max_filter_depth 1 refl, good_accepted 1 refl)
