-- ===== src/Parser/Grammar/Negation.antt =====
-- The two ways to write a negation.
use logpond.Base.{ℕ, ◌≡◌, refl, List, ◌∷◌}
use logpond.Base.Text.{Bytes, codes}
use logpond.Query.Value.{Runtime}
use logpond.Parser.Lexer.{ident, Token}
use logpond.Parser.Tree.{PNode, Warning}
use logpond.Parser.State.{M, is_keyword}
use logpond.Parser.Total.{at_tokens}
use logpond.Parser.Grammar.{parse_factor}

abbrev pub word : Bytes → ℕ → Token
word text col = record { kind = ident; text = text; col = col }

-- A factor `-word...` is read as `NOT word...` is, for every word with a byte behind the minus sign:
-- the same tree, the same rest and the same warnings, or the same error.
pub parse_factor-minus :
    (env : Runtime) (inner : M PNode) (c col col' : ℕ) (cs : Bytes) (ts : List Token)
    (w : List Warning)
    → parse_factor env inner (at_tokens (word (b'-' ∷ c ∷ cs) col ∷ ts) w)
      ≡ parse_factor env inner (at_tokens (word (codes "NOT") col' ∷ word (c ∷ cs) col ∷ ts) w)
unfolding parse_factor is_keyword
parse_factor-minus env inner c col col' cs ts w = refl
