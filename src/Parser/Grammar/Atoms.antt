-- ===== src/Parser/Grammar/Atoms.antt =====
-- internal/query/parser/parser.go: what the parts of an atom and of a factor return.
use logpond.Base.{
  ℕ, suc, ◌≤◌, ◌<◌, ◌≡◌, ◌≢◌, refl, Bool, true, false, not, List, [], ◌∷◌, ◌++◌, arith, not-false,
  length, Bool-cases, inl, inr, &&-eq-true, if◌then◌else◌, ◌==◌,
}
use logpond.Base.Text.{Bytes, codes}
use logpond.Query.Value.{Runtime}
use logpond.Query.Filter.{GroupOp, all_of, known_group_op}
use logpond.Parser.Lexer.{Kind, eof, ident, colon, Token}
use logpond.Parser.Lexer.Stream.{IsText}
use logpond.Parser.Tree.{PNode, group, PNodes, nil, cons, Warning}
use logpond.Parser.State.{M, bind, ◌>>=◌, pure, is_kind, is_keyword}
use logpond.Parser.Total.{
  Any, at_tokens, Good-peek, Tokens, Good, IsShaped, AreShaped, Good-bind, Good-if, Good-mono,
  is_kind-eq, is_kind-ne-eof, is_keyword-ne-eof, Tokens-col, Tokens-tail,
}
use logpond.Parser.Predicate.Total.{parse_predicate_rhs-Good}
use logpond.Parser.Grammar.{
  is_core_field, warn_unless_core, parse_ident_atom, parse_attribute_predicate, strip_minus,
  negation_mark, joined,
}

-- A warning leaves the tokens as they are.
warn_unless_core-Good :
    {B : Type 0} (size k : ℕ) (Q : B → Type 0) (t : Token) (ts : List Token) (w : List Warning)
    (f : Unit {0} → M B)
    → ((w' : List Warning) → Good size k Q (f tt (at_tokens ts w')))
    → Good size k Q (bind (warn_unless_core t (at_tokens ts w)) f)
unfolding warn_unless_core
warn_unless_core-Good size k Q t ts w f g = elim (Bool-cases (is_core_field t.text)) [
  | inl core ↦ rw core (g w)
  | inr other ↦ rw other (g _)
]

pub parse_ident_atom-Good :
    (env : Runtime) (size : ℕ) (t : Token) (ts : List Token) (w : List Warning)
    → t.kind ≡ ident
    → Tokens size (t ∷ ts)
    → Good size (suc (length ts)) IsShaped (parse_ident_atom env (at_tokens (t ∷ ts) w))
unfolding parse_ident_atom
parse_ident_atom-Good env size t [] w e h = cc (h.0)
parse_ident_atom-Good env size t (u ∷ us) w e h =
    let m = suc (suc (length us)) in
    Good-if size m IsShaped (is_kind u.kind colon) _ _ (at_tokens (t ∷ u ∷ us) w)
      (λ is_colon. warn_unless_core-Good size m IsShaped t (t ∷ u ∷ us) w _ λ w'.
        Good-mono size (length us) m IsShaped _ (omega arith) (
          parse_predicate_rhs-Good env t.text (named t e h.0) size us w'
            (Tokens-tail size u us h.3 (is_kind-ne-eof u.kind colon (λ q. cc) is_colon))))
      (λ _. (h.3, omega arith, tt))
  where
    named : (v : Token) → v.kind ≡ ident → IsText v.kind v.text → v.text ≢ []
    named v q x = (rw q at x).0

pub parse_attribute_predicate-Good :
    (env : Runtime) (size : ℕ) (t : Token) (ts : List Token) (w : List Warning)
    → t.kind ≢ eof
    → Tokens size (t ∷ ts)
    → Good size (suc (length ts)) IsShaped (parse_attribute_predicate env (at_tokens (t ∷ ts) w))
unfolding parse_attribute_predicate
parse_attribute_predicate-Good env size t ts w ne h =
    let m = suc (length ts) in
    Good-peek size m m IsShaped _ ts w (Tokens-tail size t ts h ne) (omega arith) λ p us x y.
      Good-if size m IsShaped (not (is_kind p.kind ident)) _ _ (at_tokens (p ∷ us) w)
        (λ _. Tokens-col size t ts h)
        λ named.
          Good-peek size m m IsShaped _ us w
            (Tokens-tail size p us x (is_kind-ne-eof p.kind ident (λ e. cc) (not-false _ named)))
            (omega arith)
            λ u vs x' y'.
              Good-if size m IsShaped (not (is_kind u.kind colon)) _ _ (at_tokens (u ∷ vs) w)
                (λ _. (x', y', record { named = λ e. cc; operand = tt }))
                λ is_colon. Good-mono size (length vs) m IsShaped _ (omega arith) (
                  parse_predicate_rhs-Good env (codes "attributes." ++ p.text) (λ e. cc) size vs w
                    (Tokens-tail size u vs x'
                      (is_kind-ne-eof u.kind colon (λ e. cc) (not-false _ is_colon))))

-- One more branch in front of the later ones.
pub collect-Good :
    (size m : ℕ) (p : M PNode) (later : M PNodes) (ts : List Token) (w : List Warning)
    → Good size (length ts) IsShaped (p (at_tokens ts w))
    → ((us : List Token) (w' : List Warning)
        → Tokens size us
        → length us < length ts
        → Good size m AreShaped (later (at_tokens us w')))
    → Good size m AreShaped
        ((p >>= λ right. later >>= λ rest. pure (cons right rest)) (at_tokens ts w))
collect-Good size m p later ts w one more =
    Good-bind size (length ts) m IsShaped AreShaped (p (at_tokens ts w)) _ one λ n s x y shaped.
      Good-bind size m m AreShaped AreShaped (later s) (λ rest. pure (cons n rest))
        (more s.rest s.warnings x y) λ ns s' x' y' shapes. (x', y', (shaped, shapes))

abbrev pub Holds : ℕ → ℕ → M PNode → Type 0
Holds size limit m =
    (ts : List Token) (w : List Warning)
    → Tokens size ts
    → length ts ≤ limit
    → Good size (length ts) IsShaped (m (at_tokens ts w))

-- Identifier bytes behind a minus sign.
strip-IsText :
    (k : Kind) (c d : ℕ) (ds : Bytes) → k ≡ ident → IsText k (c ∷ d ∷ ds) → IsText k (d ∷ ds)
strip-IsText k c d ds e h = rw e ((λ q. cc), (&&-eq-true _ _ (rw e at h).1).1)

-- Taking the minus sign off the token at hand keeps the tokens in order.
strip-Tokens :
    (size c d : ℕ) (ds : Bytes) (t : Token) (ts : List Token)
    → t.kind ≡ ident
    → t.text ≡ c ∷ d ∷ ds
    → Tokens size (t ∷ ts)
    → Tokens size (record t { text = d ∷ ds } ∷ ts)
strip-Tokens size c d ds t [] k e h = cc (h.0)
strip-Tokens size c d ds t (u ∷ us) k e (x, p, q, h) =
    (strip-IsText t.kind c d ds k (rw e at x), p, q, h)

strip_minus-Good :
    (env : Runtime) (inner : M PNode) (size : ℕ) (s : Bytes) (t : Token) (ts : List Token)
    (w : List Warning)
    → t.kind ≡ ident
    → t.text ≡ s
    → Tokens size (t ∷ ts)
    → Good size (suc (suc (length ts))) Any (strip_minus env inner s (at_tokens (t ∷ ts) w))
unfolding strip_minus
strip_minus-Good env inner size [] t ts w k e h = (h, omega arith, tt)
strip_minus-Good env inner size (c ∷ []) t ts w k e h =
    Good-if size (suc (suc (length ts))) Any (c == b'-') _ _ (at_tokens (t ∷ ts) w)
      (λ _. (Tokens-tail size t ts h (λ q. cc), omega arith, tt)) (λ _. (h, omega arith, tt))
strip_minus-Good env inner size (c ∷ d ∷ ds) t ts w k e h =
    Good-if size (suc (suc (length ts))) Any (c == b'-') _ _ (at_tokens (t ∷ ts) w)
      (λ _. (strip-Tokens size c d ds t ts k e h, omega arith, tt)) (λ _. (h, omega arith, tt))

pub negation_mark-Good :
    (env : Runtime) (inner : M PNode) (size : ℕ) (t : Token) (ts : List Token) (w : List Warning)
    → Tokens size (t ∷ ts)
    → Good size (suc (suc (length ts))) Any (negation_mark env inner t (at_tokens (t ∷ ts) w))
unfolding negation_mark
negation_mark-Good env inner size t ts w h =
    let m = suc (suc (length ts)) in
    Good-if size m Any (is_keyword (codes "NOT") t) _ _ (at_tokens (t ∷ ts) w)
      (λ negated. (Tokens-tail size t ts h (is_keyword-ne-eof _ t negated), omega arith, tt))
      λ _.
        Good-if size m Any (is_kind t.kind ident) _ _ (at_tokens (t ∷ ts) w)
          (λ k. strip_minus-Good env inner size t.text t ts w (is_kind-eq t.kind ident k) refl h)
          (λ _. (h, omega arith, tt))

pub negated-IsShaped :
    (b : Bool) (n : PNode)
    → IsShaped n
    → IsShaped (if b then group all_of true false (cons n nil) else n)
negated-IsShaped true n h = (refl, h, tt)
negated-IsShaped false n h = h

pub joined-IsShaped :
    (env : Runtime) (inner : M PNode) (op : GroupOp) (flat : Bool) (n : PNode) (ns : PNodes)
    → known_group_op op ≡ true
    → IsShaped n
    → AreShaped ns
    → IsShaped (joined env inner op flat n ns)
unfolding joined
joined-IsShaped env inner op flat n nil k h hs = h
joined-IsShaped env inner op flat n (cons m ms) k h hs = (k, h, hs)
