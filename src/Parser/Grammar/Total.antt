-- ===== src/Parser/Grammar/Total.antt =====
-- internal/query/parser/parser.go: what the functions of the grammar return.
use logpond.Base.{
  ℕ, zero, suc, ◌≤◌, ◌≡◌, ◌≢◌, refl, true, false, not, List, [], ◌∷◌, arith, not-false, length,
}
use logpond.Base.Text.{codes}
use logpond.Query.Value.{Runtime}
use logpond.Query.Filter.{all_of, any_of}
use logpond.Parser.Lexer.{Kind, eof, ident, string, at, lparen, rparen, Token}
use logpond.Parser.Tree.{PNode, Warning}
use logpond.Parser.State.{M, is_kind, is_keyword, can_start_factor}
use logpond.Parser.Total.{
  Any, at_tokens, Good-peek, Tokens, Good, IsShaped, AreShaped, Good-bind, Good-if, Good-mono,
  is_kind-ne-eof, is_keyword-ne-eof, Tokens-col, Tokens-tail,
}
use logpond.Parser.Grammar.{
  parenthesised, atom_of, parse_atom, negation_mark, parse_factor, more_factors, parse_conjunction,
  more_conjunctions, disjunction, parse_disjunction,
}
use logpond.Parser.Grammar.Atoms.{
  parse_ident_atom-Good, parse_attribute_predicate-Good, collect-Good, Holds, negation_mark-Good,
  negated-IsShaped, joined-IsShaped,
}

module _ (env : Runtime) (inner : M PNode) (size limit : ℕ) (holds : Holds size limit inner) where
  parenthesised-Good :
      (t : Token) (ts : List Token) (w : List Warning)
      → t.kind ≢ eof
      → Tokens size (t ∷ ts)
      → length ts ≤ limit
      → Good size (suc (length ts)) IsShaped (parenthesised env inner (at_tokens (t ∷ ts) w))
  unfolding parenthesised
  parenthesised-Good t ts w ne h p =
      let m = suc (length ts) in
      Good-bind size (length ts) m IsShaped IsShaped (inner (at_tokens ts w)) _
        (holds ts w (Tokens-tail size t ts h ne) p)
        λ n s x y shaped.
          Good-peek size m m IsShaped _ s.rest s.warnings x (omega arith) λ u us x' y'.
            Good-if size m IsShaped (not (is_kind u.kind rparen)) _ _
              (at_tokens (u ∷ us) s.warnings) (λ _. Tokens-col size u us x')
              λ closes. (
                Tokens-tail size u us x'
                    (is_kind-ne-eof u.kind rparen (λ e. cc) (not-false _ closes)),
                omega arith,
                shaped,
              )

  atom_of-Good :
      (k : Kind) (t : Token) (ts : List Token) (w : List Warning)
      → t.kind ≡ k
      → Tokens size (t ∷ ts)
      → length ts ≤ limit
      → Good size (suc (length ts)) IsShaped (atom_of env inner k t (at_tokens (t ∷ ts) w))
  unfolding atom_of
  atom_of-Good lparen t ts w e h p = parenthesised-Good t ts w (λ q. cc) h p
  atom_of-Good at t ts w e h p = parse_attribute_predicate-Good env size t ts w (λ q. cc) h
  atom_of-Good ident t ts w e h p = parse_ident_atom-Good env size t ts w e h
  atom_of-Good string t ts w e h p = (Tokens-tail size t ts h (λ q. cc), omega arith, tt)
  atom_of-Good _ t ts w e h p = Tokens-col size t ts h

  parse_atom-Holds : Holds size (suc limit) (parse_atom env inner)
  unfolding parse_atom
  parse_atom-Holds [] w h p = absurd h
  parse_atom-Holds (t ∷ ts) w h p = atom_of-Good t.kind t ts w refl h (omega arith)

  parse_factor-Holds : Holds size (suc limit) (parse_factor env inner)
  unfolding parse_factor
  parse_factor-Holds [] w h p = absurd h
  parse_factor-Holds (t ∷ ts) w h p =
      let m = suc (length ts) in
      Good-bind size (suc m) m Any IsShaped (negation_mark env inner t (at_tokens (t ∷ ts) w)) _
        (negation_mark-Good env inner size t ts w h)
        λ b s x y _.
          Good-bind size (length s.rest) m IsShaped IsShaped (parse_atom env inner s) _
            (parse_atom-Holds s.rest s.warnings x (omega arith))
            λ n s' x' y' shaped. (x', omega arith, negated-IsShaped b n shaped)

  more_factors-Good :
      (fuel : ℕ) (ts : List Token) (w : List Warning)
      → Tokens size ts
      → length ts ≤ fuel
      → length ts ≤ suc limit
      → Good size (suc (length ts)) AreShaped (more_factors env inner fuel (at_tokens ts w))
  unfolding more_factors
  more_factors-Good fuel [] w h f p = absurd h
  more_factors-Good zero (t ∷ ts) w h f p = absurd (omega arith)
  more_factors-Good (suc fuel) (t ∷ ts) w h f p =
      let m = suc (suc (length ts)) in
      let further =
        λ (us : List Token) (w' : List Warning) (x : Tokens size us) (q : length us ≤ length ts).
          Good-mono size (suc (length us)) m AreShaped
            (more_factors env inner fuel (at_tokens us w')) (omega arith)
            (more_factors-Good fuel us w' x (omega arith) (omega arith)) in
      Good-if size m AreShaped (is_keyword (codes "AND") t) _ _ (at_tokens (t ∷ ts) w)
        (λ and.
          let rest = Tokens-tail size t ts h (is_keyword-ne-eof _ t and) in
          collect-Good size m (parse_factor env inner) (more_factors env inner fuel) ts w
            (parse_factor-Holds ts w rest (omega arith)) λ us w' x q. further us w' x (omega arith))
        λ _.
          Good-if size m AreShaped (is_keyword (codes "OR") t) _ _ (at_tokens (t ∷ ts) w)
            (λ _. (h, omega arith, tt))
            λ _.
              Good-if size m AreShaped (can_start_factor t) _ _ (at_tokens (t ∷ ts) w)
                (λ _.
                  collect-Good size m (parse_factor env inner) (more_factors env inner fuel)
                    (t ∷ ts) w (parse_factor-Holds (t ∷ ts) w h p)
                    λ us w' x q. further us w' x (omega arith))
                (λ _. (h, omega arith, tt))

  parse_conjunction-Holds : Holds size (suc limit) (parse_conjunction env inner)
  unfolding parse_conjunction
  parse_conjunction-Holds ts w h p =
      Good-bind size (length ts) (length ts) IsShaped IsShaped
        (parse_factor env inner (at_tokens ts w)) _ (parse_factor-Holds ts w h p)
        λ n s x y shaped.
          Good-bind size (suc (length s.rest)) (length ts) AreShaped IsShaped
            (more_factors env inner (length s.rest) s) _
            (more_factors-Good (length s.rest) s.rest s.warnings x (omega arith) (omega arith))
            λ ns s' x' y' shapes.
              (x', omega arith, joined-IsShaped env inner all_of true n ns refl shaped shapes)

  more_conjunctions-Good :
      (fuel : ℕ) (ts : List Token) (w : List Warning)
      → Tokens size ts
      → length ts ≤ fuel
      → length ts ≤ suc limit
      → Good size (suc (length ts)) AreShaped (more_conjunctions env inner fuel (at_tokens ts w))
  unfolding more_conjunctions
  more_conjunctions-Good fuel [] w h f p = absurd h
  more_conjunctions-Good zero (t ∷ ts) w h f p = absurd (omega arith)
  more_conjunctions-Good (suc fuel) (t ∷ ts) w h f p =
      let m = suc (suc (length ts)) in
      Good-if size m AreShaped (not (is_keyword (codes "OR") t)) _ _ (at_tokens (t ∷ ts) w)
        (λ _. (h, omega arith, tt))
        λ or.
          let rest = Tokens-tail size t ts h (is_keyword-ne-eof _ t (not-false _ or)) in
          collect-Good size m (parse_conjunction env inner) (more_conjunctions env inner fuel) ts w
            (parse_conjunction-Holds ts w rest (omega arith))
            λ us w' x q.
              Good-mono size (suc (length us)) m AreShaped
                (more_conjunctions env inner fuel (at_tokens us w')) (omega arith)
                (more_conjunctions-Good fuel us w' x (omega arith) (omega arith))

  disjunction-Holds : Holds size (suc limit) (disjunction env inner)
  unfolding disjunction
  disjunction-Holds ts w h p =
      Good-bind size (length ts) (length ts) IsShaped IsShaped
        (parse_conjunction env inner (at_tokens ts w)) _ (parse_conjunction-Holds ts w h p)
        λ n s x y shaped.
          Good-bind size (suc (length s.rest)) (length ts) AreShaped IsShaped
            (more_conjunctions env inner (length s.rest) s) _
            (more_conjunctions-Good (length s.rest) s.rest s.warnings x (omega arith) (omega arith))
            λ ns s' x' y' shapes.
              (x', omega arith, joined-IsShaped env inner any_of false n ns refl shaped shapes)

no-Tokens : (size : ℕ) (ts : List Token) → Tokens size ts → length ts ≤ 0 → ⊥
no-Tokens size [] h p = h
no-Tokens size (t ∷ ts) h p = omega arith

-- A unit of fuel for each token is enough.
pub parse_disjunction-Good :
    (env : Runtime) (size fuel : ℕ) (ts : List Token) (w : List Warning)
    → Tokens size ts
    → length ts ≤ fuel
    → Good size (length ts) IsShaped (parse_disjunction env fuel (at_tokens ts w))
unfolding parse_disjunction
parse_disjunction-Good env size zero ts w h p = absurd (no-Tokens size ts h p)
parse_disjunction-Good env size (suc fuel) ts w h p =
    disjunction-Holds env (parse_disjunction env fuel) size fuel
      (parse_disjunction-Good env size fuel) ts w h p
