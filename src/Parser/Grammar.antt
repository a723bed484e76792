-- ===== src/Parser/Grammar.antt =====
-- The grammar of internal/query/parser/parser.go, from an atom up to `parseDisjunction`. Functions
-- below a parenthesis take `parseDisjunction` as an argument, which ties the knot on fuel.
pub mod Atoms
pub mod Total
pub mod Negation
use logpond.Base.{
  ℕ, zero, suc, ◌+◌, ◌≡◌, refl, Bool, true, false, not, ◌&&◌, ◌||◌, List, [], ◌∷◌, ◌++◌, Option,
  none, some, ◌==◌, if◌then◌else◌, length,
}
use logpond.Base.Text.{Bytes, codes, equal}
use logpond.Query.Value.{Value, null, Runtime}
use logpond.Query.Filter.{Op, exists, GroupOp, all_of, any_of, Leaf}
use logpond.Parser.Lexer.{Kind, eof, ident, string, colon, at, lparen, rparen, Token}
use logpond.Parser.Tree.{
  PNode, group, leaf, term, PNodes, nil, cons, Warning, bare_field, Message, expected_rparen,
  expected_path, unexpected,
}
use logpond.Parser.State.{
  State, Outcome, out_of_fuel, M, ◌>>=◌, ◌>>◌, pure, fail, peek, peek_next, advance, set_text, warn,
  rounds, is_kind, is_keyword, can_start_factor,
}
use logpond.Parser.Predicate.{simple, parse_predicate_rhs}

-- coreFields
unfoldable pub is_core_field : Bytes → Bool
unfolding equal
is_core_field f =
    equal f (codes "service")
    || equal f (codes "level")
    || equal f (codes "host")
    || equal f (codes "source")
    || equal f (codes "message")

warn_unless_core : Token → M (Unit {0})
warn_unless_core t = if is_core_field t.text then pure tt else warn (bare_field t.col t.text)

-- parseIdentAtom
unfoldable pub parse_ident_atom : Runtime → M PNode
unfolding warn_unless_core
parse_ident_atom env = do
  t ← peek
  u ← peek_next
  if is_kind u.kind colon
      then (do warn_unless_core t; advance; advance; parse_predicate_rhs env t.text)
      else (do advance; pure (term t.text))

-- parseAttributePredicate
unfoldable pub parse_attribute_predicate : Runtime → M PNode
parse_attribute_predicate env = do
  sign ← advance
  t ← peek
  if not (is_kind t.kind ident) then fail sign.col expected_path else do
    path ← advance
    let field = codes "attributes." ++ path.text
    u ← peek
    if not (is_kind u.kind colon)
        then pure (leaf (simple field exists null))
        else do advance; parse_predicate_rhs env field

module _ (env : Runtime) (inner : M PNode) where
  parenthesised : M PNode
  parenthesised = do
    advance
    node ← inner
    t ← peek
    if not (is_kind t.kind rparen) then fail t.col expected_rparen else do advance; pure node

  atom_of : Kind → Token → M PNode
  unfolding parenthesised
  atom_of lparen t = parenthesised
  atom_of at t = parse_attribute_predicate env
  atom_of ident t = parse_ident_atom env
  atom_of string t = do advance; pure (term t.text)
  atom_of _ t = fail t.col (unexpected t)

  -- parseAtom
  unfoldable pub parse_atom : M PNode
  unfolding atom_of
  parse_atom = do t ← peek; atom_of t.kind t

  -- A `-` at the head of an identifier is taken off, or taken away if nothing is behind it.
  strip_minus : Bytes → M Bool
  strip_minus (c ∷ []) = if c == b'-' then (do advance; pure true) else pure false
  strip_minus (c ∷ d ∷ ds) = if c == b'-' then (do set_text (d ∷ ds); pure true) else pure false
  strip_minus [] = pure false

  -- Whether a factor is negated, its sign or keyword consumed.
  pub negation_mark : Token → M Bool
  unfolding strip_minus
  negation_mark t =
      if is_keyword (codes "NOT") t
      then (do advance; pure true)
      else if is_kind t.kind ident
      then strip_minus t.text
      else pure false

  -- parseFactor
  unfoldable pub parse_factor : M PNode
  unfolding negation_mark
  parse_factor = do
    t ← peek
    negated ← negation_mark t
    atom ← parse_atom
    pure (if negated then group all_of true false (cons atom nil) else atom)

  -- The loop of parseConjunction: the factors behind the first.
  unfoldable pub more_factors : ℕ → M PNodes
  more_factors zero = λ s. out_of_fuel
  more_factors (suc fuel) = do
    t ← peek
    if is_keyword (codes "AND") t
        then (do advance; right ← parse_factor; later ← more_factors fuel; pure (cons right later))
        else if is_keyword (codes "OR") t
        then pure nil
        else if can_start_factor t
        then (do right ← parse_factor; later ← more_factors fuel; pure (cons right later))
        else pure nil

  -- What one branch, or several, become.
  pub joined : GroupOp → Bool → PNode → PNodes → PNode
  joined op flat left nil = left
  joined op flat left (cons n ns) = group op false flat (cons left (cons n ns))

  -- parseConjunction
  unfoldable pub parse_conjunction : M PNode
  unfolding joined
  parse_conjunction = do
    left ← parse_factor
    n ← rounds
    later ← more_factors n
    pure (joined all_of true left later)

  -- The loop of parseDisjunction: the conjunctions behind the first.
  unfoldable pub more_conjunctions : ℕ → M PNodes
  more_conjunctions zero = λ s. out_of_fuel
  more_conjunctions (suc fuel) = do
    t ← peek
    if not (is_keyword (codes "OR") t) then pure nil else do
      advance
      right ← parse_conjunction
      later ← more_conjunctions fuel
      pure (cons right later)

  unfoldable pub disjunction : M PNode
  unfolding joined
  disjunction = do
    left ← parse_conjunction
    n ← rounds
    later ← more_conjunctions n
    pure (joined any_of false left later)

-- parseDisjunction, to a depth of `fuel` parentheses
unfoldable pub parse_disjunction : Runtime → ℕ → M PNode
parse_disjunction env zero = λ s. out_of_fuel
parse_disjunction env (suc fuel) = disjunction env (parse_disjunction env fuel)
