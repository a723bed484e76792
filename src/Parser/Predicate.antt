-- ===== src/Parser/Predicate.antt =====
-- The part of internal/query/parser/parser.go behind `field:`: scalars, wildcards, ranges and value
-- lists.
pub mod Leaves
pub mod Total
use logpond.Base.{
  ℕ, zero, suc, ◌+◌, ◌≡◌, refl, Bool, true, false, not, ◌&&◌, ◌||◌, List, [], ◌∷◌, ◌++◌, Option,
  none, some, any, length, ◌==◌, if◌then◌else◌,
}
use logpond.Base.Int.{ℤ}
use logpond.Base.Text.{Bytes, codes, equal}
use logpond.Query.Value.{Value, null, str, float, int, arr, Values, Runtime, parse_int}
use logpond.Query.Filter.{Op, eq, is_in, contains, starts_with, gte, lte, exists, all_of, Leaf}
use logpond.Parser.Lexer.{
  Kind, eof, ident, string, colon, lparen, rparen, lbracket, rbracket, lbrace, rbrace, comma, Token,
}
use logpond.Parser.Tree.{
  PNode, leaf, PNodes, nil, cons, Warning, slow_wildcard, Message, expected_rparen,
  expected_value_after_colon, expected_value, expected_to, expected_closing, expected_list_value,
}
use logpond.Parser.State.{
  State, Outcome, out_of_fuel, M, ◌>>=◌, ◌>>◌, pure, fail, peek, advance, warn, rounds, is_kind,
  is_keyword,
}

-- `scalar`
pub record Lexeme : Type 0 where
  pub text : Bytes
  pub quoted : Bool
  pub col : ℕ

abbrev pub simple : Bytes → Op → Value → Leaf
simple field op value = record { field = field; op = op; value = value; case_sensitive = false }

abbrev float_or_text : Bytes → Option ℕ → Value
float_or_text s none = str s
float_or_text s (some f) = float f

abbrev int_or_else : Runtime → Bytes → Option ℤ → Value
int_or_else env s none = float_or_text s (env.parse_float s)
int_or_else env s (some n) = int n

-- coerceValue
unfoldable pub coerce_value : Runtime → Lexeme → Value
coerce_value env v = if v.quoted then str v.text else int_or_else env v.text (parse_int v.text)

-- parseScalar
scalar_of : Kind → Token → M Lexeme
scalar_of string t = do advance; pure (record { text = t.text; quoted = true; col = t.col })
scalar_of ident t = do advance; pure (record { text = t.text; quoted = false; col = t.col })
scalar_of _ t = fail t.col expected_value

unfoldable pub parse_scalar : M Lexeme
unfolding scalar_of
parse_scalar = do t ← peek; scalar_of t.kind t

abbrev is_wildcard : ℕ → Bool
is_wildcard c = c == b'*' || c == b'?'

-- The text before a `*` at its end.
before_star : Bytes → Option Bytes
before_star [] = none
before_star (c ∷ []) = if c == b'*' then some [] else none
before_star (c ∷ d ∷ ds) = elim (before_star (d ∷ ds)) [ none ↦ none | some s ↦ some (c ∷ s) ]

without_wildcards : Bytes → Bytes
without_wildcards [] = []
without_wildcards (c ∷ cs) =
    let rest = without_wildcards cs in if is_wildcard c then rest else c ∷ rest

-- The prefix of a pattern whose only wildcard is a `*` at its end.
only_star : Option Bytes → Option Bytes
only_star none = none
only_star (some prefix) = if any is_wildcard prefix then none else some prefix

wildcard_leaf : Bytes → Lexeme → Option Bytes → M PNode
unfolding without_wildcards
wildcard_leaf field v (some prefix) = pure (leaf (simple field starts_with (str prefix)))
wildcard_leaf field v none = do
  warn (slow_wildcard v.col field)
  pure (leaf (simple field contains (str (without_wildcards v.text))))

-- makeValueLeaf
unfoldable pub make_value_leaf : Runtime → Bytes → Lexeme → M PNode
unfolding wildcard_leaf only_star before_star equal
make_value_leaf env field v =
    if v.quoted
    then pure (leaf (simple field eq (str v.text)))
    else if equal v.text (codes "*")
    then pure (leaf (simple field exists null))
    else if any is_wildcard v.text
    then wildcard_leaf field v (only_star (before_star v.text))
    else pure (leaf (simple field eq (coerce_value env v)))

abbrev is_value : Token → Bool
is_value t = is_kind t.kind ident || is_kind t.kind string

-- A bound of a range, if one is written.
unfoldable pub parse_bound : M (Option Lexeme)
unfolding parse_scalar
parse_bound = do t ← peek; if is_value t then (do v ← parse_scalar; pure (some v)) else pure none

-- The leaf of a bound; `*` and a missing bound give none.
pub bound_leaf : Runtime → Bytes → Op → Option Lexeme → PNodes → PNodes
unfolding equal
bound_leaf env field op none more = more
bound_leaf env field op (some v) more =
    if equal v.text (codes "*")
    then more
    else cons (leaf (simple field op (coerce_value env v))) more

pub range_node : Bytes → PNodes → PNode
range_node field nil = leaf (simple field exists null)
range_node field (cons n nil) = n
range_node field children = PNode.group all_of false false children

-- parseRange
unfoldable pub parse_range : Runtime → Bytes → Bool → M PNode
unfolding bound_leaf range_node
parse_range env field inclusive = do
  advance
  lo ← parse_bound
  to ← peek
  if not (is_keyword (codes "TO") to) then fail to.col expected_to else do
    advance
    hi ← parse_bound
    close ← peek
    let closing = if inclusive then rbracket else rbrace
    if not (is_kind close.kind closing) then fail close.col (expected_closing closing) else do
      advance
      let low = if inclusive then gte else Op.gt
      let high = if inclusive then lte else Op.lt
      pure (range_node field (bound_leaf env field low lo (bound_leaf env field high hi nil)))

-- The loop of parseValueList, from a value on.
unfoldable pub parse_values : Runtime → ℕ → M Values
parse_values env zero = λ s. out_of_fuel
parse_values env (suc fuel) = do
  t ← peek
  if not (is_value t) then fail t.col expected_list_value else do
    v ← parse_scalar
    u ← peek
    if is_kind u.kind comma || is_keyword (codes "OR") u
        then (do advance; vs ← parse_values env fuel; pure (Values.cons (coerce_value env v) vs))
        else pure (Values.cons (coerce_value env v) Values.nil)

pub list_leaf : Bytes → Values → PNode
list_leaf field (Values.cons v Values.nil) = leaf (simple field eq v)
list_leaf field vs = leaf (simple field is_in (arr vs))

-- parseValueList
unfoldable pub parse_value_list : Runtime → Bytes → M PNode
unfolding list_leaf
parse_value_list env field = do
  advance
  n ← rounds
  vs ← parse_values env n
  t ← peek
  if not (is_kind t.kind rparen)
      then fail t.col expected_rparen
      else do advance; pure (list_leaf field vs)

pub comparison : Runtime → Bytes → Op → M PNode
comparison env field op = do
  advance
  v ← parse_scalar
  pure (leaf (simple field op (coerce_value env v)))

predicate_of : Runtime → Bytes → Kind → Token → M PNode
unfolding comparison
predicate_of env field Kind.gt t = comparison env field Op.gt
predicate_of env field Kind.gte t = comparison env field Op.gte
predicate_of env field Kind.lt t = comparison env field Op.lt
predicate_of env field Kind.lte t = comparison env field Op.lte
predicate_of env field lbracket t = parse_range env field true
predicate_of env field lbrace t = parse_range env field false
predicate_of env field lparen t = parse_value_list env field
predicate_of env field ident t = do v ← parse_scalar; make_value_leaf env field v
predicate_of env field string t = do v ← parse_scalar; make_value_leaf env field v
predicate_of env field _ t = fail t.col expected_value_after_colon

-- parsePredicateRHS
unfoldable pub parse_predicate_rhs : Runtime → Bytes → M PNode
unfolding predicate_of
parse_predicate_rhs env field = do t ← peek; predicate_of env field t.kind t
