-- ===== src/Parser/Lexer.antt =====
-- internal/query/parser/lexer.go: `tokenize`. The index into the input is kept as in the source; the
-- bytes from it on are a list of their own, so that no read is out of range.
pub mod Stream
pub mod Quoted
use logpond.Base.{
  ℕ, zero, suc, ◌+◌, Bool, true, false, ◌&&◌, ◌||◌, List, [], ◌∷◌, ◌++◌, Option, none, some, length,
  leb, ◌==◌, if◌then◌else◌,
}
use logpond.Base.Text.{Bytes}

-- tokenKind
pub data Kind : Type 0 where
  eof ident string colon at lparen rparen lbracket rbracket lbrace rbrace comma : Kind
  gt gte lt lte : Kind

pub record Token : Type 0 where
  pub kind : Kind
  pub text : Bytes
  pub col : ℕ

-- The messages; an unexpected character quotes the first rune of what is left.
pub data LexMessage : Type 0 where
  unclosed_string : LexMessage
  unexpected_character : Bytes → LexMessage

pub record LexError : Type 0 where
  pub col : ℕ
  pub message : LexMessage

pub data Lexed (A : Type 0) : Type 0 where
  lexed : A → Lexed A
  refused : LexError → Lexed A
  out_of_fuel : Lexed A

abbrev is_blank : ℕ → Bool
is_blank c = c == b' ' || c == b'\t' || c == b'\n' || c == b'\r'

-- isIdentByte
unfoldable pub is_ident_byte : ℕ → Bool
is_ident_byte c =
    (leb b'a' c && leb c b'z')
    || (leb b'A' c && leb c b'Z')
    || (leb b'0' c && leb c b'9')
    || c == b'_'
    || c == b'.'
    || c == b'-'
    || c == b'*'
    || c == b'?'
    || c == b'/'
    || c == b'+'

-- What one round of the loop does: it moves on, it adds a token, or it fails. `rest` is the input
-- from index `next` on.
pub data Round : Type 0 where
  skip : (next : ℕ) (rest : Bytes) → Round
  emit : Token → (next : ℕ) (rest : Bytes) → Round
  fail : LexError → Round

abbrev pub mark : Kind → ℕ → Token
mark k i = record { kind = k; text = []; col = i + 1 }

-- `>` and `<`, alone or before `=`.
unfoldable pub compare_sign : Kind → Kind → ℕ → Bytes → Round
compare_sign plain with_equals i [] = emit (mark plain i) (i + 1) []
compare_sign plain with_equals i (c ∷ cs) =
    if c == b'=' then emit (mark with_equals i) (i + 2) cs else emit (mark plain i) (i + 1) (c ∷ cs)

abbrev pub unescaped : ℕ → Bytes
unescaped c = if c == b'"' then b'"' ∷ [] else if c == b'\\' then b'\\' ∷ [] else b'\\' ∷ c ∷ []

-- The loop over a quoted string: its text, and where it stops. `none` if no quote closes it.
unfoldable pub string_body : ℕ → Bytes → Bytes → Option (Bytes × ℕ × Bytes)
string_body i sb [] = none
string_body i sb (c ∷ []) = if c == b'"' then some (sb, i + 1, []) else none
string_body i sb (c ∷ d ∷ ds) =
    let escaped = string_body (i + 2) (sb ++ unescaped d) ds in
    let plain = string_body (i + 1) (sb ++ c ∷ []) (d ∷ ds) in
    if c == b'\\' then escaped else if c == b'"' then some (sb, i + 1, d ∷ ds) else plain

unfoldable pub string_token : ℕ → Option (Bytes × ℕ × Bytes) → Round
string_token start none = fail (record { col = start + 1; message = unclosed_string })
string_token start (some (text, next, rest)) =
    emit (record { kind = string; text = text; col = start + 1 }) next rest

abbrev with_byte : ℕ → Bytes × ℕ × Bytes → Bytes × ℕ × Bytes
with_byte c (text, next, rest) = (c ∷ text, next, rest)

-- The loop over identifier bytes.
unfoldable pub ident_body : ℕ → Bytes → Bytes × ℕ × Bytes
ident_body i [] = ([], i, [])
ident_body i (c ∷ cs) =
    let more = with_byte c (ident_body (i + 1) cs) in
    if is_ident_byte c then more else ([], i, c ∷ cs)

unfoldable pub ident_token : ℕ → Bytes × ℕ × Bytes → Round
ident_token start ([], next, rest) =
    fail (record { col = start + 1; message = unexpected_character rest })
ident_token start (c ∷ cs, next, rest) =
    emit (record { kind = ident; text = c ∷ cs; col = start + 1 }) next rest

-- One round at index i, on byte c and the bytes behind it.
unfoldable pub round : ℕ → ℕ → Bytes → Round
round i c cs =
    if is_blank c
    then skip (i + 1) cs
    else if c == b':'
    then emit (mark colon i) (i + 1) cs
    else if c == b'@'
    then emit (mark at i) (i + 1) cs
    else if c == b'('
    then emit (mark lparen i) (i + 1) cs
    else if c == b')'
    then emit (mark rparen i) (i + 1) cs
    else if c == b'['
    then emit (mark lbracket i) (i + 1) cs
    else if c == b']'
    then emit (mark rbracket i) (i + 1) cs
    else if c == b'{'
    then emit (mark lbrace i) (i + 1) cs
    else if c == b'}'
    then emit (mark rbrace i) (i + 1) cs
    else if c == b','
    then emit (mark comma i) (i + 1) cs
    else if c == b'>'
    then compare_sign gt gte i cs
    else if c == b'<'
    then compare_sign lt lte i cs
    else if c == b'"'
    then string_token i (string_body (i + 1) [] cs)
    else ident_token i (ident_body i (c ∷ cs))

abbrev pub before : Token → Lexed (List Token) → Lexed (List Token)
before t (lexed ts) = lexed (t ∷ ts)
before t (refused e) = refused e
before t out_of_fuel = out_of_fuel

-- What follows a round.
abbrev pub continue : (ℕ → Bytes → Lexed (List Token)) → Round → Lexed (List Token)
continue later (skip next rest) = later next rest
continue later (emit t next rest) = before t (later next rest)
continue later (fail e) = refused e

-- The loop of `tokenize`: each round takes at least one byte.
unfoldable pub lex : ℕ → ℕ → Bytes → Lexed (List Token)
lex fuel i [] = lexed (mark eof i ∷ [])
lex zero i (c ∷ cs) = out_of_fuel
lex (suc fuel) i (c ∷ cs) = continue (lex fuel) (round i c cs)

unfoldable pub tokenize : Bytes → Lexed (List Token)
tokenize input = lex (length input) 0 input
