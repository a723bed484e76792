-- ===== src/Query/Compile/Placeholders.antt =====
-- internal/query/compile.go: quotes and placeholders in the SQL of a filter tree.
use logpond.Base.{
  ◌+◌, ◌≡◌, refl, sym, Bool, true, false, not, ◌&&◌, [], ◌++◌, length, length-append, arith,
  if◌then◌else◌,
}
use logpond.Base.Text.{Bytes, codes, equal, equal_iff}
use logpond.Query.Value.{Runtime}
use logpond.Query.Filter.{Node, group, leaf, Nodes, nil, cons}
use logpond.Query.Match.{is_or}
use logpond.Query.Sql.{Compiled, Result, ok, err, ◌>>=◌}
use logpond.Query.Compile.{join_child, negate_sql, compile_node, compile_nodes}
use logpond.Query.Compile.Scan.{
  Goes-append, IsClosed, IsClosed-lit, recount, IsClosed-around, IsClosed-if,
}
use logpond.Query.Compile.Fragments.{Fits, AllFit, Fits-if, AllFit-compile_leaf}

Fits-split :
    (b : Bool) (c d : Compiled)
    → (b ≡ true → Fits c)
    → (b ≡ false → Fits d)
    → Fits (if b then c else d)
Fits-split true c d h i = h refl
Fits-split false c d h i = i refl

-- An empty fragment has no arguments.
no_args : (c : Compiled) → c.sql ≡ [] → Fits c → length c.args ≡ 0
no_args c e h = sym (rw e at h.count)

Fits-join_child :
    (separator : Bytes) (c rest : Compiled)
    → IsClosed 0 separator
    → Fits c
    → Fits rest
    → Fits (join_child separator c rest)
unfolding join_child
Fits-join_child separator c rest sep h i =
    let n = length (c.args ++ rest.args) in
    let total = length-append c.args rest.args in
    Fits-split (equal c.sql []) _ _
      (λ e.
        recount (length rest.args) n (omega (arith, total, no_args c ((equal_iff c.sql []).0 e) h))
          i)
      λ _.
        Fits-split (equal rest.sql []) _ _
          (λ e.
            recount (length c.args) n
              (omega (arith, total, no_args rest ((equal_iff rest.sql []).0 e) i))
              (IsClosed-around (codes "(") (codes ")") (IsClosed-lit _ refl refl)
                (IsClosed-lit _ refl refl) h))
          (λ _.
            recount (0 + (length c.args + (0 + (0 + length rest.args)))) n (omega (arith, total)) (
              Goes-append (IsClosed-lit (codes "(") refl refl) (
                Goes-append h
                  (Goes-append (IsClosed-lit (codes ")") refl refl) (Goes-append sep i)))))

Fits-negate_sql : (b : Bool) (c : Compiled) → Fits c → Fits (negate_sql b c)
unfolding negate_sql
Fits-negate_sql b c h =
    Fits-if (b && not (equal c.sql [])) _ _
      (IsClosed-around (codes "NOT (") (codes ")") (IsClosed-lit _ refl refl)
        (IsClosed-lit _ refl refl) h)
      h

AllFit-negated :
    (b : Bool) (r : Result Compiled) → AllFit r → AllFit (r >>= λ c. ok (negate_sql b c))
AllFit-negated b (ok c) h = Fits-negate_sql b c h
AllFit-negated b (err e) h = tt

AllFit-joined :
    (separator : Bytes) (r q : Result Compiled)
    → IsClosed 0 separator
    → AllFit r
    → AllFit q
    → AllFit (r >>= λ c. q >>= λ rest. ok (join_child separator c rest))
AllFit-joined separator (ok c) (ok rest) sep h i = Fits-join_child separator c rest sep h i
AllFit-joined separator (ok c) (err e) sep h i = tt
AllFit-joined separator (err e) q sep h i = tt

mutual
  unfolding compile_node

  AllFit-node : (env : Runtime) (n : Node) → AllFit (compile_node env n)
  AllFit-node env (leaf l) = AllFit-compile_leaf env l
  AllFit-node env (group op negated nil) = tt
  AllFit-node env (group op negated (cons n ns)) = AllFit-negated negated _ (
      AllFit-nodes env _ (cons n ns)
        (IsClosed-if (is_or op) 0 _ _ (IsClosed-lit _ refl refl) (IsClosed-lit _ refl refl)))

  AllFit-nodes :
      (env : Runtime) (separator : Bytes) (ns : Nodes)
      → IsClosed 0 separator
      → AllFit (compile_nodes env separator ns)
  AllFit-nodes env separator nil sep = record { mode = refl; count = refl }
  AllFit-nodes env separator (cons n ns) sep =
      AllFit-joined separator _ _ sep (AllFit-node env n) (AllFit-nodes env separator ns sep)

-- Whatever the fields and values of a tree hold, the SQL that `Compile` returns for it closes every
-- quote that it opens, and has as many placeholders outside quotes as arguments are bound.
pub compile_node-AllFit : (env : Runtime) (n : Node) → AllFit (compile_node env n)
compile_node-AllFit env n = AllFit-node env n
