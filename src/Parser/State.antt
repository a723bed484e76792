-- ===== src/Parser/State.antt =====
-- The `parser` of internal/query/parser/parser.go and its primitives. Its state is the tokens from
-- `pos` on: the parser never moves back, and writes only to the token that it stands at.
use logpond.Base.{ℕ, Bool, true, false, ◌&&◌, List, [], ◌∷◌, ◌++◌, length, ◌==◌, if◌then◌else◌}
use logpond.Base.Text.{Bytes, codes, equal_fold}
use logpond.Parser.Lexer.{
  Kind, eof, ident, string, colon, at, lparen, rparen, lbracket, rbracket, lbrace, rbrace, comma,
  gt, gte, lt, lte, Token,
}
use logpond.Parser.Tree.{Warning, Message, ParseError}

pub record State : Type 0 where
  pub rest : List Token
  pub warnings : List Warning

-- `panicked`: a read of `toks` out of range.
pub data Outcome (A : Type 0) : Type 0 where
  ok : A → State → Outcome A
  failed : ParseError → Outcome A
  panicked : Outcome A
  out_of_fuel : Outcome A

abbrev pub M : Type 0 → Type 0
M A = State → Outcome A

abbrev pub bind : {A B : Type 0} → Outcome A → (A → M B) → Outcome B
bind (ok a s) f = f a s
bind (failed e) f = failed e
bind panicked f = panicked
bind out_of_fuel f = out_of_fuel

infixl 5 ◌>>=◌ ◌>>◌
abbrev pub ◌>>=◌ : {A B : Type 0} → M A → (A → M B) → M B
◌>>=◌ m f s = bind (m s) f

abbrev pub ◌>>◌ : {A B : Type 0} → M A → M B → M B
m >> n = m >>= λ _. n

abbrev pub pure : {A : Type 0} → A → M A
pure a s = ok a s

abbrev pub fail : {A : Type 0} → ℕ → Message → M A
fail col message s = failed (record { col = col; message = message })

abbrev peek_in : List Token → State → Outcome Token
peek_in [] s = panicked
peek_in (t ∷ ts) s = ok t s

abbrev pub peek : M Token
peek s = peek_in s.rest s

-- peekAt(1), behind a peek: past the end it gives the last token.
abbrev peek_second : List Token → State → Outcome Token
peek_second [] s = panicked
peek_second (t ∷ []) s = ok t s
peek_second (t ∷ u ∷ ts) s = ok u s

abbrev pub peek_next : M Token
peek_next s = peek_second s.rest s

abbrev advance_in : List Token → State → Outcome Token
advance_in [] s = panicked
advance_in (t ∷ ts) s = ok t (record s { rest = ts })

abbrev pub advance : M Token
advance s = advance_in s.rest s

-- `p.toks[p.pos].text = text`
abbrev set_text_in : Bytes → List Token → State → Outcome (Unit {0})
set_text_in text [] s = panicked
set_text_in text (t ∷ ts) s = ok tt (record s { rest = record t { text = text } ∷ ts })

abbrev pub set_text : Bytes → M (Unit {0})
set_text text s = set_text_in text s.rest s

abbrev pub warn : Warning → M (Unit {0})
warn w s = ok tt (record s { warnings = s.warnings ++ w ∷ [] })

-- A round of fuel for each token that is left, and one to see the end.
abbrev pub rounds : M ℕ
rounds s = ok (length s.rest) s

abbrev pub number : Kind → ℕ
number eof = 0
number ident = 1
number string = 2
number colon = 3
number at = 4
number lparen = 5
number rparen = 6
number lbracket = 7
number rbracket = 8
number lbrace = 9
number rbrace = 10
number comma = 11
number gt = 12
number gte = 13
number lt = 14
number lte = 15

-- Token kinds are integers in the source.
abbrev pub is_kind : Kind → Kind → Bool
is_kind a b = number a == number b

-- peekKeyword, on the token that is peeked at
unfoldable pub is_keyword : Bytes → Token → Bool
unfolding equal_fold
is_keyword word t = is_kind t.kind ident && equal_fold t.text word

can_start : Kind → Bytes → Bool
unfolding equal_fold
can_start ident text =
    if equal_fold text (codes "OR")
    then false
    else if equal_fold text (codes "AND")
    then false
    else if equal_fold text (codes "TO")
    then false
    else true
can_start lparen text = true
can_start string text = true
can_start at text = true
can_start _ text = false

-- canStartFactor, on the token that is peeked at
unfoldable pub can_start_factor : Token → Bool
unfolding can_start
can_start_factor t = can_start t.kind t.text
