-- ===== src/Parser/Finalize.antt =====
-- The last pass of internal/query/parser/parser.go (`finalize`, `convertNestedTerms`, `compile`) and
-- `Parse` itself.
pub mod Valid
pub mod Exact
use logpond.Base.{
  ℕ, zero, suc, ◌+◌, ◌≡◌, refl, Bool, true, false, not, ◌&&◌, ◌||◌, List, [], ◌∷◌, ◌++◌, Option,
  none, some, ◌==◌, if◌then◌else◌, length,
}
use logpond.Base.Text.{Bytes, codes}
use logpond.Query.Value.{Value, str, Runtime}
use logpond.Query.Filter.{Op, contains, GroupOp, all_of, any_of, Leaf, Node, Nodes}
use logpond.Parser.Lexer.{Kind, eof, Token, Lexed, lexed, refused, tokenize}
use logpond.Parser.Lexer
use logpond.Parser.Tree.{
  PNode, group, leaf, term, PNodes, nil, cons, Warning, nested_term, Message, from_lexer,
  unexpected_token, ParseError,
}
use logpond.Parser.State.{State, Outcome, ok, failed, panicked, out_of_fuel, bind, is_kind}
use logpond.Parser.Predicate.{simple}
use logpond.Parser.Grammar.{parse_disjunction}

abbrev pub message_contains : Bytes → Leaf
message_contains text = simple (codes "message") contains (str text)

-- convertNestedTerms: the tree, and the warnings in the order of the terms.
unfoldable mutual
  pub convert_nested_terms : PNode → PNode
  convert_nested_terms (group op negated flat children) =
      group op negated false (convert_children children)
  convert_nested_terms (term text) = leaf (message_contains text)
  convert_nested_terms (leaf l) = leaf l

  pub convert_children : PNodes → PNodes
  convert_children nil = nil
  convert_children (cons n ns) = cons (convert_nested_terms n) (convert_children ns)

unfoldable mutual
  pub nested_warnings : PNode → List Warning
  nested_warnings (group op negated flat children) = children_warnings children
  nested_warnings (term text) = nested_term text ∷ []
  nested_warnings (leaf l) = []

  pub children_warnings : PNodes → List Warning
  children_warnings nil = []
  children_warnings (cons n ns) = nested_warnings n ++ children_warnings ns

-- compile
unfoldable mutual
  pub compile : PNode → Node
  compile (leaf l) = Node.leaf l
  compile (group op negated flat children) = Node.group op negated (compile_children children)
  compile (term text) = Node.leaf (message_contains text)

  pub compile_children : PNodes → Nodes
  compile_children nil = Nodes.nil
  compile_children (cons n ns) = Nodes.cons (compile n) (compile_children ns)

-- The children of the outer envelope.
unfoldable pub top_children : PNode → PNodes
top_children (group all_of false true children) = children
top_children root = cons root nil

-- The free-text terms of the top level, and the other children.
unfoldable pub terms : PNodes → List Bytes
terms nil = []
terms (cons (term text) ns) = text ∷ terms ns
terms (cons n ns) = terms ns

unfoldable pub kept : PNodes → PNodes
kept nil = nil
kept (cons (term text) ns) = kept ns
kept (cons n ns) = cons n (kept ns)

-- strings.Join(terms, " ")
unfoldable pub join : List Bytes → Bytes
join [] = []
join (t ∷ []) = t
join (t ∷ u ∷ ts) = t ++ (b' ' ∷ join (u ∷ ts))

-- `Result`
pub record Parsed : Type 0 where
  pub filter : Option Node
  pub search : Bytes
  pub warnings : List Warning

envelope : PNodes → Option Node
unfolding convert_nested_terms compile
envelope nil = none
envelope children = some (Node.group all_of false (compile_children (convert_children children)))

-- finalize, with the warnings of the parser so far
unfoldable pub finalize : List Warning → PNode → Parsed
unfolding envelope nested_warnings top_children terms kept join
finalize warnings root =
    let children = top_children root in
    record {
      filter = envelope (kept children);
      search = join (terms children);
      warnings = warnings ++ children_warnings (kept children);
    }

-- What is left when the grammar has read a disjunction.
finish : PNode → List Token → State → Outcome Parsed
finish root [] s = panicked
finish root (t ∷ ts) s =
    if is_kind t.kind eof
    then ok (finalize s.warnings root) s
    else failed (record { col = t.col; message = unexpected_token t })

parse_root : Runtime → List Token → Outcome Parsed
unfolding finish
parse_root env toks =
    bind (parse_disjunction env (length toks) (record { rest = toks; warnings = [] }))
      λ root s. finish root s.rest s

parse_tokens : Runtime → List Token → Outcome Parsed
unfolding parse_root
parse_tokens env [] = panicked
parse_tokens env (t ∷ ts) =
    if is_kind t.kind eof
    then ok (record { filter = none; search = []; warnings = [] })
        (record { rest = t ∷ ts; warnings = [] })
    else parse_root env (t ∷ ts)

parse_lexed : Runtime → Lexed (List Token) → Outcome Parsed
unfolding parse_tokens
parse_lexed env (lexed toks) = parse_tokens env toks
parse_lexed env (refused e) = failed (record { col = e.col; message = from_lexer e.message })
parse_lexed env Lexer.out_of_fuel = out_of_fuel

-- Parse
unfoldable pub parse : Runtime → Bytes → Outcome Parsed
unfolding parse_lexed
parse env input = parse_lexed env (tokenize input)

-- What `Parse` returns when it does not fail.
abbrev pub result_of : Outcome Parsed → Option Parsed
result_of (ok r s) = some r
result_of _ = none
