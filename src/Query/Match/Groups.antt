-- ===== src/Query/Match/Groups.antt =====
-- What a group matches, without the loop of `matchGroup`.
use logpond.Base.{sym, ◌∙◌, ◌≡◌, refl, Bool, true, false, not, ◌&&◌, ◌||◌, arith, if◌then◌else◌}
use logpond.Query.Value.{Runtime}
use logpond.Query.Event.{Event}
use logpond.Query.Filter.{GroupOp, all_of, any_of, Node, group, Nodes, nil, cons}
use logpond.Query.Match.{match_node, match_children, is_or}

abbrev pub any_child : Runtime → Event → Nodes → Bool
any_child env ev nil = false
any_child env ev (cons n ns) = match_node env n ev || any_child env ev ns

abbrev pub all_children : Runtime → Event → Nodes → Bool
all_children env ev nil = true
all_children env ev (cons n ns) = match_node env n ev && all_children env ev ns

abbrev pub quantified : GroupOp → Runtime → Event → Nodes → Bool
quantified op env ev ns = if is_or op then any_child env ev ns else all_children env ev ns

match_children-any :
    (env : Runtime) (ev : Event) (ns : Nodes)
    → match_children env true false ns ev ≡ any_child env ev ns
unfolding match_node
match_children-any env ev nil = refl
match_children-any env ev (cons n ns) = ground (arith, match_children-any env ev ns)

match_children-all :
    (env : Runtime) (ev : Event) (ns : Nodes)
    → match_children env false true ns ev ≡ all_children env ev ns
unfolding match_node
match_children-all env ev nil = refl
match_children-all env ev (cons n ns) = ground (arith, match_children-all env ev ns)

-- A group with a child matches when some child does, for `or`, or all do, for any other operator;
-- `not` turns that round. The early exit of the loop does not show.
pub match_node-quantified :
    (env : Runtime) (ev : Event) (op : GroupOp) (negated : Bool) (n : Node) (ns : Nodes)
    → match_node env (group op negated (cons n ns)) ev ≡ (
        if negated
        then not (quantified op env ev (cons n ns))
        else quantified op env ev (cons n ns))
unfolding match_node
match_node-quantified env ev op negated n ns =
    ground (arith, match_children-any env ev (cons n ns), match_children-all env ev (cons n ns))

-- The negation that the search bar writes: `NOT x`.
abbrev pub negation : Node → Node
negation n = group all_of true (cons n nil)

abbrev pub negations : Nodes → Nodes
negations nil = nil
negations (cons n ns) = cons (negation n) (negations ns)

match-negation :
    (env : Runtime) (ev : Event) (n : Node)
    → match_node env (negation n) ev ≡ not (match_node env n ev)
unfolding match_node
match-negation env ev n = ground arith

any_child-negations :
    (env : Runtime) (ev : Event) (ns : Nodes)
    → any_child env ev (negations ns) ≡ not (all_children env ev ns)
any_child-negations env ev nil = refl
any_child-negations env ev (cons n ns) =
    ground (arith, match-negation env ev n, any_child-negations env ev ns)

-- De Morgan: the negation of an `and` group of at least one child matches the same events as the
-- `or` group of the negated children.
match_node_de_morgan :
    (env : Runtime) (ev : Event) (n : Node) (ns : Nodes)
    → match_node env (group all_of true (cons n ns)) ev
      ≡ match_node env (group any_of false (negations (cons n ns))) ev
match_node_de_morgan env ev n ns =
    match_node-quantified env ev all_of true n ns
    ∙ sym (any_child-negations env ev (cons n ns))
    ∙ sym (match_node-quantified env ev any_of false (negation n) (negations ns))
