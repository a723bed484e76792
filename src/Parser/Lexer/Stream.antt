-- ===== src/Parser/Lexer/Stream.antt =====
-- internal/query/parser/lexer.go: where the tokens of a line stand.
use logpond.Base.{
  ℕ, zero, suc, ◌+◌, ◌≤◌, ◌<◌, ◌≡◌, ◌≢◌, refl, true, List, [], ◌∷◌, ◌++◌, arith, length, all,
}
use logpond.Base.Text.{Bytes}
use logpond.Parser.Lexer.{
  Kind, eof, ident, Token, Lexed, lexed, refused, out_of_fuel, is_ident_byte, Round, skip, emit,
  fail, compare_sign, string_body, string_token, ident_body, ident_token, round, lex, tokenize,
  unescaped, before, continue,
}

-- The text of an identifier has a byte and no other bytes than isIdentByte lets through.
abbrev pub IsText : Kind → Bytes → Type 0
IsText eof s = ⊥
IsText ident s = (s ≢ []) × (all is_ident_byte s ≡ true)
IsText _ s = Unit

-- Tokens that stand behind column `lo` of an input of `size` bytes, in the order of their columns;
-- the end-of-input token stands behind the last byte, and nowhere else.
pub data IsStream (size : ℕ) : ℕ → List Token → Type 0 where
  finish :
      {lo : ℕ} {t : Token} → t.kind ≡ eof → t.col ≡ suc size → lo ≤ size → IsStream size lo (t ∷ [])
  further :
      {lo : ℕ} {t : Token} {ts : List Token}
      → IsText t.kind t.text
      → lo < t.col
      → t.col ≤ size
      → IsStream size t.col ts
      → IsStream size lo (t ∷ ts)

-- A result of the lexer for an input of `size` bytes: tokens behind column `lo`, or an error at a
-- column of the input. Fuel never runs out.
abbrev pub Behind : ℕ → ℕ → Lexed (List Token) → Type 0
Behind size lo (lexed ts) = IsStream size lo ts
Behind size lo (refused e) = (0 < e.col) × (e.col ≤ size)
Behind size lo out_of_fuel = ⊥

-- Where a round leaves off: further on, with the index in step with what is left.
abbrev Advances : ℕ → ℕ → Round → Type 0
Advances size i (skip next rest) = (i < next) × (next + length rest ≡ size)
Advances size i (emit t next rest) =
    (i < next) × (next + length rest ≡ size) × IsText t.kind t.text × (t.col ≡ i + 1)
Advances size i (fail e) = e.col ≡ i + 1

string_body-Advances :
    (size start i : ℕ) (sb cs : Bytes)
    → start < i
    → i + length cs ≡ size
    → Advances size start (string_token start (string_body i sb cs))
unfolding string_body string_token
string_body-Advances size start i sb [] p e = refl
string_body-Advances size start i sb (c ∷ []) p e = ground arith
string_body-Advances size start i sb (c ∷ d ∷ ds) p e = ground (
  arith,
  string_body-Advances size start (i + 2) (sb ++ unescaped d) ds,
  string_body-Advances size start (i + 1) (sb ++ c ∷ []) (d ∷ ds),
)

-- What the identifier loop has read.
abbrev IsSpan : ℕ → ℕ → Bytes × ℕ × Bytes → Type 0
IsSpan size i (text, next, rest) =
    (next ≡ i + length text) × (next + length rest ≡ size) × (all is_ident_byte text ≡ true)

ident_body-IsSpan :
    (size i : ℕ) (cs : Bytes) → i + length cs ≡ size → IsSpan size i (ident_body i cs)
unfolding ident_body
ident_body-IsSpan size i [] e = ground arith
ident_body-IsSpan size i (c ∷ cs) e = ground (arith, ident_body-IsSpan size (i + 1) cs)

ident_token-Advances :
    (size i : ℕ) (r : Bytes × ℕ × Bytes) → IsSpan size i r → Advances size i (ident_token i r)
unfolding ident_token
ident_token-Advances size i ([], next, rest) s = refl
ident_token-Advances size i (c ∷ cs, next, rest) s = ground arith

compare_sign-Advances :
    (size i : ℕ) (plain with_equals : Kind) (cs : Bytes)
    → IsText plain []
    → IsText with_equals []
    → i + 1 + length cs ≡ size
    → Advances size i (compare_sign plain with_equals i cs)
unfolding compare_sign
compare_sign-Advances size i plain with_equals [] p q e = ground arith
compare_sign-Advances size i plain with_equals (c ∷ cs) p q e = ground arith

round-Advances :
    (size i c : ℕ) (cs : Bytes) → i + length (c ∷ cs) ≡ size → Advances size i (round i c cs)
unfolding round
round-Advances size i c cs e = ground (
  arith,
  compare_sign-Advances size i Kind.gt Kind.gte cs tt tt,
  compare_sign-Advances size i Kind.lt Kind.lte cs tt tt,
  string_body-Advances size i (i + 1) [] cs,
  ident_token-Advances size i (ident_body i (c ∷ cs)),
  ident_body-IsSpan size i (c ∷ cs),
)

before-IsStream :
    (size lo : ℕ) (t : Token) (r : Lexed (List Token))
    → IsText t.kind t.text
    → lo < t.col
    → t.col ≤ size
    → Behind size t.col r
    → Behind size lo (before t r)
before-IsStream size lo t (lexed ts) k p q h = further k p q h
before-IsStream size lo t (refused e) k p q h = h
before-IsStream size lo t out_of_fuel k p q h = h

-- The rest of the loop keeps its promise from index j on.
abbrev Keeps : ℕ → ℕ → (ℕ → Bytes → Lexed (List Token)) → Type 0
Keeps size fuel later =
    (lo j : ℕ) (rest : Bytes)
    → length rest ≤ fuel
    → lo ≤ j
    → j + length rest ≡ size
    → Behind size lo (later j rest)

continue-Behind :
    (size fuel lo i : ℕ) (later : ℕ → Bytes → Lexed (List Token)) (r : Round)
    → Keeps size fuel later
    → size ≤ i + suc fuel
    → lo ≤ i
    → i < size
    → Advances size i r
    → Behind size lo (continue later r)
continue-Behind size fuel lo i later (skip j rest) k f p q a =
    k lo j rest (omega arith) (omega arith) a.1
continue-Behind size fuel lo i later (emit t j rest) k f p q (a, b, c, d) =
    before-IsStream size lo t (later j rest) c (omega arith) (omega arith)
      (k t.col j rest (omega arith) (omega arith) b)
continue-Behind size fuel lo i later (fail x) k f p q a = (omega arith, omega arith)

-- The loop, from an index at or behind column `lo`, with a round of fuel for each byte.
lex-Behind :
    (fuel size lo i : ℕ) (cs : Bytes)
    → length cs ≤ fuel
    → lo ≤ i
    → i + length cs ≡ size
    → Behind size lo (lex fuel i cs)
unfolding lex
lex-Behind fuel size lo i [] f p e = finish refl (omega arith) (omega arith)
lex-Behind zero size lo i (c ∷ cs) f p e = absurd (omega arith)
lex-Behind (suc fuel) size lo i (c ∷ cs) f p e =
    continue-Behind size fuel lo i (lex fuel) (round i c cs)
      (λ lo' j rest. lex-Behind fuel size lo' j rest) (omega arith) p (omega arith)
      (round-Advances size i c cs e)

-- `tokenize` always returns. Either it gives tokens whose columns rise, lie in the input and end
-- with one end-of-input token just behind it, no identifier being empty or holding a byte that
-- isIdentByte refuses; or it gives an error at a column of the input.
pub tokenize-Behind : (input : Bytes) → Behind (length input) 0 (tokenize input)
unfolding tokenize
tokenize-Behind input =
    lex-Behind (length input) (length input) 0 0 input (omega arith) (omega arith) (omega arith)
