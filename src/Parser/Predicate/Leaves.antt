-- ===== src/Parser/Predicate/Leaves.antt =====
-- internal/query/parser/parser.go: the scalars, and the leaves that are made of them.
use logpond.Base.{
  ℕ, suc, ◌<◌, ◌≡◌, ◌≢◌, refl, List, [], ◌∷◌, Option, none, some, arith, any, length, Bool-cases,
  inl, inr,
}
use logpond.Base.Text.{Bytes, codes, equal}
use logpond.Query.Value.{Value, null, str, Values, Runtime}
use logpond.Query.Filter.{Op, eq, is_in, contains, starts_with, exists}
use logpond.Query.Filter.Validity.{IsGoodLeaf, HasOperand}
use logpond.Parser.Lexer.{Kind, eof, ident, string, Token}
use logpond.Parser.Tree.{PNodes, nil, cons, Warning}
use logpond.Parser.State.{State}
use logpond.Parser.Total.{
  Any, at_tokens, Tokens, Good, IsShaped, AreShaped, Good-bind, Good-if, Tokens-col, Tokens-tail,
}
use logpond.Parser.Predicate.{
  Lexeme, simple, is_wildcard, coerce_value, scalar_of, parse_scalar, make_value_leaf,
  wildcard_leaf, only_star, before_star, bound_leaf, range_node, list_leaf, comparison,
}

-- A coerced value is never null.
pub coerce_value-ne-null : (env : Runtime) (v : Lexeme) → coerce_value env v ≢ null
unfolding coerce_value
coerce_value-ne-null env v = ground arith

scalar_of-Good :
    (size : ℕ) (t : Token) (ts : List Token) (w : List Warning) (k : Kind)
    → t.kind ≡ k
    → Tokens size (t ∷ ts)
    → Good size (suc (length ts)) Any (scalar_of k t (at_tokens (t ∷ ts) w))
unfolding scalar_of
scalar_of-Good size t ts w ident e h = (Tokens-tail size t ts h (λ q. cc), omega arith, tt)
scalar_of-Good size t ts w string e h = (Tokens-tail size t ts h (λ q. cc), omega arith, tt)
scalar_of-Good size t ts w _ e h = Tokens-col size t ts h

pub parse_scalar-Good :
    (size : ℕ) (ts : List Token) (w : List Warning)
    → Tokens size ts
    → Good size (length ts) Any (parse_scalar (at_tokens ts w))
unfolding parse_scalar
parse_scalar-Good size [] w h = absurd h
parse_scalar-Good size (t ∷ ts) w h = scalar_of-Good size t ts w t.kind refl h

module _ (env : Runtime) (field : Bytes) (named : field ≢ []) where
  good_leaf : (op : Op) (v : Value) → HasOperand op v → IsGoodLeaf (simple field op v)
  good_leaf op v h = record { named = named; operand = h }

  wildcard_leaf-Good :
      (size m : ℕ) (v : Lexeme) (prefix : Option Bytes) (s : State)
      → Tokens size s.rest
      → length s.rest < m
      → Good size m IsShaped (wildcard_leaf field v prefix s)
  unfolding wildcard_leaf
  wildcard_leaf-Good size m v (some prefix) s h p =
      (h, p, good_leaf starts_with (str prefix) (λ e. cc))
  wildcard_leaf-Good size m v none s h p = (h, p, good_leaf contains _ (λ e. cc))

  pub make_value_leaf-Good :
      (size m : ℕ) (v : Lexeme) (s : State)
      → Tokens size s.rest
      → length s.rest < m
      → Good size m IsShaped (make_value_leaf env field v s)
  unfolding make_value_leaf
  make_value_leaf-Good size m v s h p =
      Good-if size m IsShaped v.quoted _ _ s (λ _. (h, p, good_leaf eq (str v.text) (λ e. cc)))
        λ _.
          Good-if size m IsShaped (equal v.text (codes "*")) _ _ s
            (λ _. (h, p, good_leaf exists null tt))
            λ _.
              Good-if size m IsShaped (any is_wildcard v.text) _ _ s
                (λ _. wildcard_leaf-Good size m v (only_star (before_star v.text)) s h p)
                (λ _. (h, p, good_leaf eq (coerce_value env v) (coerce_value-ne-null env v)))

  pub comparison-Good :
      (size : ℕ) (op : Op) (t : Token) (ts : List Token) (w : List Warning)
      → ((v : Value) → v ≢ null → HasOperand op v)
      → t.kind ≢ eof
      → Tokens size (t ∷ ts)
      → Good size (suc (length ts)) IsShaped (comparison env field op (at_tokens (t ∷ ts) w))
  unfolding comparison
  comparison-Good size op t ts w wants ne h =
      Good-bind size (length ts) (suc (length ts)) Any IsShaped (parse_scalar (at_tokens ts w)) _
        (parse_scalar-Good size ts w (Tokens-tail size t ts h ne))
        (λ v s x y z. (x, omega arith, good_leaf op _ (wants _ (coerce_value-ne-null env v))))

  pub bound_leaf-AreShaped :
      (op : Op) (b : Option Lexeme) (more : PNodes)
      → ((v : Value) → v ≢ null → HasOperand op v)
      → AreShaped more
      → AreShaped (bound_leaf env field op b more)
  unfolding bound_leaf
  bound_leaf-AreShaped op none more wants h = h
  bound_leaf-AreShaped op (some v) more wants h = elim (Bool-cases (equal v.text (codes "*"))) [
    | inl star ↦ rw star h
    | inr other ↦ rw other (good_leaf op _ (wants _ (coerce_value-ne-null env v)), h)
  ]

  pub range_node-IsShaped : (ns : PNodes) → AreShaped ns → IsShaped (range_node field ns)
  unfolding range_node
  range_node-IsShaped nil h = good_leaf exists null tt
  range_node-IsShaped (cons n nil) h = h.0
  range_node-IsShaped (cons n (cons k ks)) h = (refl, h.0, h.1)

  pub list_leaf-IsShaped :
      (v : Value) (vs : Values) → v ≢ null → IsShaped (list_leaf field (Values.cons v vs))
  unfolding list_leaf
  list_leaf-IsShaped v Values.nil h = good_leaf eq v h
  list_leaf-IsShaped v (Values.cons u us) h = good_leaf is_in _ (v, Values.cons u us, refl)
