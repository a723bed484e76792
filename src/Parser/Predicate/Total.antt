-- ===== src/Parser/Predicate/Total.antt =====
-- internal/query/parser/parser.go: what the functions behind `field:` return.
use logpond.Base.{
  ℕ, zero, suc, ◌≤◌, ◌≡◌, ◌≢◌, refl, Bool, true, false, not, ◌||◌, List, [], ◌∷◌, none, some, arith,
  not-false, length, Bool-cases, inl, inr, if◌then◌else◌,
}
use logpond.Base.Text.{Bytes, codes}
use logpond.Query.Value.{Value, null, Values, Runtime}
use logpond.Query.Filter.{Op, gte, lte}
use logpond.Query.Filter.Validity.{HasOperand}
use logpond.Parser.Lexer.{
  Kind, eof, ident, string, lparen, rparen, lbracket, rbracket, lbrace, rbrace, comma, Token,
}
use logpond.Parser.Tree.{nil, Warning}
use logpond.Parser.State.{◌>>=◌, pure, is_kind, is_keyword}
use logpond.Parser.Total.{
  Any, at_tokens, Good-peek, Tokens, Good, IsShaped, Good-bind, Good-if, Good-mono, is_kind-ne-eof,
  Tokens-col, Tokens-tail, is_keyword-ne-eof,
}
use logpond.Parser.Predicate.{
  is_value, parse_scalar, make_value_leaf, parse_bound, parse_range, parse_values, list_leaf,
  parse_value_list, predicate_of, parse_predicate_rhs,
}
use logpond.Parser.Predicate.Leaves.{
  coerce_value-ne-null, parse_scalar-Good, make_value_leaf-Good, comparison-Good,
  bound_leaf-AreShaped, range_node-IsShaped, list_leaf-IsShaped,
}

parse_bound-Good :
    (size : ℕ) (ts : List Token) (w : List Warning)
    → Tokens size ts
    → Good size (suc (length ts)) Any (parse_bound (at_tokens ts w))
unfolding parse_bound
parse_bound-Good size [] w h = absurd h
parse_bound-Good size (t ∷ ts) w h =
    Good-if size (suc (suc (length ts))) Any (is_value t) (parse_scalar >>= λ v. pure (some v))
      (pure none) (at_tokens (t ∷ ts) w)
      (λ _.
        Good-bind size (suc (length ts)) (suc (suc (length ts))) Any Any
          (parse_scalar (at_tokens (t ∷ ts) w)) (λ v. pure (some v))
          (parse_scalar-Good size (t ∷ ts) w h) (λ v s x y z. (x, omega arith, tt)))
      (λ _. (h, omega arith, tt))

low_wants : (b : Bool) (v : Value) → v ≢ null → HasOperand (if b then gte else Op.gt) v
low_wants true v h = h
low_wants false v h = h

high_wants : (b : Bool) (v : Value) → v ≢ null → HasOperand (if b then lte else Op.lt) v
high_wants true v h = h
high_wants false v h = h

closing-ne-eof : (b : Bool) → (if b then rbracket else rbrace) ≢ eof
closing-ne-eof true e = cc
closing-ne-eof false e = cc

module _ (env : Runtime) (field : Bytes) (named : field ≢ []) where
  parse_range-Good :
      (size : ℕ) (inclusive : Bool) (t : Token) (ts : List Token) (w : List Warning)
      → t.kind ≢ eof
      → Tokens size (t ∷ ts)
      → Good size
          (suc (length ts))
          IsShaped
          (parse_range env field inclusive (at_tokens (t ∷ ts) w))
  unfolding parse_range
  parse_range-Good size inclusive t ts w ne h =
      let m = suc (length ts) in
      Good-bind size m m Any IsShaped (parse_bound (at_tokens ts w)) _
        (parse_bound-Good size ts w (Tokens-tail size t ts h ne))
        λ lo s x y _. Good-peek size m m IsShaped _ s.rest s.warnings x y λ to us x' y'.
          Good-if size m IsShaped (not (is_keyword (codes "TO") to)) _ _
            (at_tokens (to ∷ us) s.warnings) (λ _. Tokens-col size to us x')
            λ is_to.
              Good-bind size m m Any IsShaped (parse_bound (at_tokens us s.warnings)) _
                (Good-mono size (suc (length us)) m Any _ (omega arith) (
                  parse_bound-Good size us s.warnings
                    (Tokens-tail size to us x' (is_keyword-ne-eof _ to (not-false _ is_to)))))
                λ hi s' x'' y'' _.
                  Good-peek size m m IsShaped _ s'.rest s'.warnings x'' y'' λ close vs z p.
                    Good-if size m IsShaped
                      (not (is_kind close.kind (if inclusive then rbracket else rbrace))) _ _
                      (at_tokens (close ∷ vs) s'.warnings) (λ _. Tokens-col size close vs z)
                      λ closes. (
                        Tokens-tail size close vs z (
                            is_kind-ne-eof close.kind _ (closing-ne-eof inclusive)
                              (not-false _ closes)),
                        omega arith,
                        range_node-IsShaped env field named _ (
                            bound_leaf-AreShaped env field named _ lo _ (low_wants inclusive) (
                              bound_leaf-AreShaped env field named _ hi nil (high_wants inclusive)
                                tt)),
                      )

-- A list of values has a first one.
abbrev Coerced : Values → Type 0
Coerced Values.nil = ⊥
Coerced (Values.cons v vs) = v ≢ null

separator-ne-eof :
    (t : Token) → is_kind t.kind comma || is_keyword (codes "OR") t ≡ true → t.kind ≢ eof
separator-ne-eof t h = elim (Bool-cases (is_kind t.kind comma)) [
  | inl yes' ↦ is_kind-ne-eof t.kind comma (λ e. cc) yes'
  | inr no' ↦ is_keyword-ne-eof (codes "OR") t (rw no' at h)
]

parse_values-Good :
    (env : Runtime) (size fuel : ℕ) (ts : List Token) (w : List Warning)
    → Tokens size ts
    → length ts ≤ fuel
    → Good size (length ts) Coerced (parse_values env fuel (at_tokens ts w))
unfolding parse_values
parse_values-Good env size fuel [] w h p = absurd h
parse_values-Good env size zero (t ∷ ts) w h p = absurd (omega arith)
parse_values-Good env size (suc fuel) (t ∷ ts) w h p =
    let m = suc (length ts) in
    Good-if size m Coerced (not (is_value t)) _ _ (at_tokens (t ∷ ts) w)
      (λ _. Tokens-col size t ts h)
      λ _.
        Good-bind size m m Any Coerced (parse_scalar (at_tokens (t ∷ ts) w)) _
          (parse_scalar-Good size (t ∷ ts) w h)
          λ v s x y _. Good-peek size m m Coerced _ s.rest s.warnings x y λ u us x' y'.
            Good-if size m Coerced (is_kind u.kind comma || is_keyword (codes "OR") u) _ _
              (at_tokens (u ∷ us) s.warnings)
              (λ more.
                Good-bind size (length us) m Coerced Coerced
                  (parse_values env fuel (at_tokens us s.warnings)) _
                  (parse_values-Good env size fuel us s.warnings
                    (Tokens-tail size u us x' (separator-ne-eof u more)) (omega arith))
                  λ vs s' x'' y'' _. (x'', omega arith, coerce_value-ne-null env v))
              (λ _. (x', y', coerce_value-ne-null env v))

module _ (env : Runtime) (field : Bytes) (named : field ≢ []) where
  list_leaf-Coerced : (vs : Values) → Coerced vs → IsShaped (list_leaf field vs)
  list_leaf-Coerced Values.nil h = absurd h
  list_leaf-Coerced (Values.cons v vs) h = list_leaf-IsShaped env field named v vs h

  parse_value_list-Good :
      (size : ℕ) (t : Token) (ts : List Token) (w : List Warning)
      → t.kind ≢ eof
      → Tokens size (t ∷ ts)
      → Good size (suc (length ts)) IsShaped (parse_value_list env field (at_tokens (t ∷ ts) w))
  unfolding parse_value_list
  parse_value_list-Good size t ts w ne h =
      let m = suc (length ts) in
      let more = Tokens-tail size t ts h ne in
      Good-bind size (length ts) m Coerced IsShaped (parse_values env (length ts) (at_tokens ts w))
        _ (parse_values-Good env size (length ts) ts w more (omega arith))
        λ vs s x y c. Good-peek size m m IsShaped _ s.rest s.warnings x (omega arith) λ u us x' y'.
          Good-if size m IsShaped (not (is_kind u.kind rparen)) _ _ (at_tokens (u ∷ us) s.warnings)
            (λ _. Tokens-col size u us x')
            λ closes. (
              Tokens-tail size u us x'
                  (is_kind-ne-eof u.kind rparen (λ e. cc) (not-false _ closes)),
              omega arith,
              list_leaf-Coerced vs c,
            )

  value_leaf-Good :
      (size : ℕ) (t : Token) (ts : List Token) (w : List Warning)
      → Tokens size (t ∷ ts)
      → Good size
          (suc (length ts))
          IsShaped
          ((parse_scalar >>= make_value_leaf env field) (at_tokens (t ∷ ts) w))
  value_leaf-Good size t ts w h =
      Good-bind size (suc (length ts)) (suc (length ts)) Any IsShaped
        (parse_scalar (at_tokens (t ∷ ts) w)) _ (parse_scalar-Good size (t ∷ ts) w h)
        λ v s x y _. make_value_leaf-Good env field named size (suc (length ts)) v s x y

  predicate_of-Good :
      (size : ℕ) (k : Kind) (t : Token) (ts : List Token) (w : List Warning)
      → t.kind ≡ k
      → Tokens size (t ∷ ts)
      → Good size (suc (length ts)) IsShaped (predicate_of env field k t (at_tokens (t ∷ ts) w))
  unfolding predicate_of
  predicate_of-Good size Kind.gt t ts w e h =
      comparison-Good env field named size Op.gt t ts w (λ v n. n) (λ q. cc) h
  predicate_of-Good size Kind.gte t ts w e h =
      comparison-Good env field named size gte t ts w (λ v n. n) (λ q. cc) h
  predicate_of-Good size Kind.lt t ts w e h =
      comparison-Good env field named size Op.lt t ts w (λ v n. n) (λ q. cc) h
  predicate_of-Good size Kind.lte t ts w e h =
      comparison-Good env field named size lte t ts w (λ v n. n) (λ q. cc) h
  predicate_of-Good size lbracket t ts w e h =
      parse_range-Good env field named size true t ts w (λ q. cc) h
  predicate_of-Good size lbrace t ts w e h =
      parse_range-Good env field named size false t ts w (λ q. cc) h
  predicate_of-Good size lparen t ts w e h = parse_value_list-Good size t ts w (λ q. cc) h
  predicate_of-Good size ident t ts w e h = value_leaf-Good size t ts w h
  predicate_of-Good size string t ts w e h = value_leaf-Good size t ts w h
  predicate_of-Good size _ t ts w e h = Tokens-col size t ts h

  pub parse_predicate_rhs-Good :
      (size : ℕ) (ts : List Token) (w : List Warning)
      → Tokens size ts
      → Good size (length ts) IsShaped (parse_predicate_rhs env field (at_tokens ts w))
  unfolding parse_predicate_rhs
  parse_predicate_rhs-Good size [] w h = absurd h
  parse_predicate_rhs-Good size (t ∷ ts) w h = predicate_of-Good size t.kind t ts w refl h
