-- ===== src/Parser/Finalize/Exact.antt =====
-- internal/query/parser: a search for one attribute, from its bytes to its filter.
use logpond.Base.{
  ℕ, suc, ◌+◌, ◌≡◌, ◌≢◌, refl, ap, ◌∙◌, true, false, [], ◌∷◌, ◌++◌, some, arith, length,
  length-append, all, &&-eq-true,
}
use native.Mathlib.Nat.{add-zero}
use logpond.Base.Text.{Bytes, codes}
use logpond.Query.Value.{str, Runtime}
use logpond.Query.Filter.{eq, all_of, group, leaf, nil, cons}
use logpond.Parser.Lexer.{
  eof, ident, string, colon, at, lexed, is_ident_byte, round, ident_body, ident_token, lex,
  tokenize, mark, before, continue,
}
use logpond.Parser.Lexer.Quoted.{escaped, quoted, lex-string}
use logpond.Parser.State.{is_keyword, can_start_factor}
use logpond.Parser.Predicate.{simple, parse_scalar, make_value_leaf, parse_predicate_rhs}
use logpond.Parser.Grammar.{
  parse_attribute_predicate, parse_atom, parse_factor, more_factors, parse_conjunction,
  more_conjunctions, disjunction, parse_disjunction,
}
use logpond.Parser.Finalize.{finalize, parse_tokens, parse_lexed, parse, result_of}

round-ident :
    (i c : ℕ) (cs : Bytes)
    → is_ident_byte c ≡ true
    → round i c cs ≡ ident_token i (ident_body i (c ∷ cs))
unfolding round is_ident_byte
round-ident i c cs h = ground arith

colon_ends : is_ident_byte b':' ≡ false
unfolding is_ident_byte
colon_ends = refl

one_further : (i n : ℕ) → i + 1 + n ≡ i + suc n
one_further i n = omega arith

ident_body-all :
    (i : ℕ) (p rest : Bytes)
    → all is_ident_byte p ≡ true
    → ident_body i (p ++ (b':' ∷ rest)) ≡ (p, i + length p, b':' ∷ rest)
unfolding ident_body
ident_body-all i [] rest h = rw (colon_ends, add-zero)
ident_body-all i (c ∷ cs) rest h =
    let (first, others) = &&-eq-true (is_ident_byte c) (all is_ident_byte cs) h in
    rw (first, ident_body-all (i + 1) cs rest others, one_further i (length cs))

attribute_tokens :
    (env : Runtime) (p s : Bytes) (a b c d e : ℕ)
    → result_of (
        parse_tokens env (
          record { kind = at; text = []; col = a }
          ∷ record { kind = ident; text = p; col = b }
          ∷ record { kind = colon; text = []; col = c }
          ∷ record { kind = string; text = s; col = d }
          ∷ record { kind = eof; text = []; col = e }
          ∷ []))
      ≡ some (record {
        filter =
            some
              (group all_of false (cons (leaf (simple (codes "attributes." ++ p) eq (str s))) nil));
        search = [];
        warnings = [];
      })
unfolding parse_tokens parse_disjunction disjunction parse_conjunction parse_factor is_keyword
    parse_atom parse_attribute_predicate parse_predicate_rhs parse_scalar make_value_leaf
    more_factors can_start_factor more_conjunctions finalize
attribute_tokens env p s a b c d e = refl

-- `@path:"text"`, as it is typed.
abbrev pub attribute_query : Bytes → Bytes → Bytes
attribute_query path text = b'@' ∷ (path ++ (b':' ∷ quoted text))

lex-at : (n i : ℕ) (r : Bytes) → lex (suc n) i (b'@' ∷ r) ≡ before (mark at i) (lex n (i + 1) r)
unfolding lex round
lex-at n i r = refl

lex-colon :
    (n i : ℕ) (r : Bytes) → lex (suc n) i (b':' ∷ r) ≡ before (mark colon i) (lex n (i + 1) r)
unfolding lex round
lex-colon n i r = refl

lex-ident :
    (n i c : ℕ) (cs r : Bytes)
    → all is_ident_byte (c ∷ cs) ≡ true
    → lex (suc n) i (c ∷ (cs ++ (b':' ∷ r)))
      ≡ before
          (record { kind = ident; text = c ∷ cs; col = i + 1 })
          (lex n (i + length (c ∷ cs)) (b':' ∷ r))
unfolding lex ident_token
lex-ident n i c cs r h =
    ap (continue (lex n)) (round-ident i c (cs ++ (b':' ∷ r)) (&&-eq-true _ _ h).0)
    ∙ ap (λ x. continue (lex n) (ident_token i x)) (ident_body-all i (c ∷ cs) r h)

lex-end : (n i : ℕ) → lex n i [] ≡ lexed (mark eof i ∷ [])
unfolding lex
lex-end n i = refl

-- The four tokens, and the end of the input.
lex-attribute :
    (n c : ℕ) (cs s : Bytes)
    → all is_ident_byte (c ∷ cs) ≡ true
    → (a b d : ℕ) × (lex (suc (suc (suc (suc n)))) 0 (attribute_query (c ∷ cs) s)
        ≡ lexed (
            mark at 0
            ∷ record { kind = ident; text = c ∷ cs; col = a }
            ∷ record { kind = colon; text = []; col = b }
            ∷ record { kind = string; text = s; col = d }
            ∷ mark eof (1 + suc (length cs) + 1 + 1 + length (escaped s []))
            ∷ []))
lex-attribute n c cs s h = (
  1 + 1,
  1 + suc (length cs) + 1,
  1 + suc (length cs) + 1 + 1,
  lex-at (suc (suc (suc n))) 0 _
      ∙ ap (before (mark at 0)) (
          lex-ident (suc (suc n)) 1 c cs (quoted s) h
          ∙ ap (before (record { kind = ident; text = c ∷ cs; col = 1 + 1 })) (
              lex-colon (suc n) _ (quoted s)
              ∙ ap (before (mark colon (1 + suc (length cs)))) (
                  lex-string n _ s []
                  ∙ ap
                      (before
                        (record { kind = string; text = s; col = 1 + suc (length cs) + 1 + 1 }))
                      (lex-end n _)))),
)

length-attribute_query :
    (c : ℕ) (cs s : Bytes)
    → length (attribute_query (c ∷ cs) s)
      ≡ suc (suc (suc (suc (length cs + length (escaped s [])))))
length-attribute_query c cs s = omega (arith, length-append cs (b':' ∷ quoted s))

-- For every non-empty path of identifier bytes and every text, the search `@path:"text"`, with the
-- quotes and backslashes of the text escaped, parses to the one filter that asks whether the
-- attribute at that path equals that text, with no search text and no warning.
pub parse-attribute_query :
    (env : Runtime) (path text : Bytes)
    → path ≢ []
    → all is_ident_byte path ≡ true
    → result_of (parse env (attribute_query path text))
      ≡ some (record {
        filter = some (
            group all_of false
              (cons (leaf (simple (codes "attributes." ++ path) eq (str text))) nil));
        search = [];
        warnings = [];
      })
unfolding parse parse_lexed tokenize
parse-attribute_query env [] text ne h = absurd (ne refl)
parse-attribute_query env (c ∷ cs) text ne h =
    let (a, b, d, e) = lex-attribute (length cs + length (escaped text [])) c cs text h in
    rw (length-attribute_query c cs text) (rw e (attribute_tokens env (c ∷ cs) text _ a b d _))
