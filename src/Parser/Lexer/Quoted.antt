-- ===== src/Parser/Lexer/Quoted.antt =====
-- internal/query/parser/lexer.go: quoted strings, written and read.
use mathlib.Core.List.{append-nil, append_assoc}
use logpond.Base.{
  ℕ, suc, ◌+◌, ◌≡◌, refl, ◌∙◌, false, [], ◌∷◌, ◌++◌, some, arith, length, Bool-cases, inl, inr,
  if◌then◌else◌, ◌==◌,
}
use logpond.Base.Text.{Bytes}
use logpond.Parser.Lexer.{
  eof, string, lexed, string_body, string_token, round, lex, tokenize, mark, before,
}

-- What writes byte c inside quotes.
abbrev pub escape_byte : ℕ → Bytes → Bytes
escape_byte c rest =
    if c == b'"' then b'\\' ∷ b'"' ∷ rest else if c == b'\\' then b'\\' ∷ b'\\' ∷ rest else c ∷ rest

-- The text in quotes, in front of what follows.
abbrev pub escaped : Bytes → Bytes → Bytes
escaped [] rest = b'"' ∷ rest
escaped (c ∷ cs) rest = escape_byte c (escaped cs rest)

abbrev pub quoted : Bytes → Bytes
quoted s = b'"' ∷ escaped s []

string_body-plain :
    (i c : ℕ) (sb t : Bytes)
    → (c == b'"') ≡ false
    → (c == b'\\') ≡ false
    → string_body i sb (c ∷ t) ≡ string_body (i + 1) (sb ++ c ∷ []) t
unfolding string_body
string_body-plain i c sb [] p q = ground arith
string_body-plain i c sb (d ∷ ds) p q = ground arith

string_body-close :
    (i : ℕ) (sb rest : Bytes) → string_body i sb (b'"' ∷ rest) ≡ some (sb, i + 1, rest)
unfolding string_body
string_body-close i sb [] = refl
string_body-close i sb (d ∷ ds) = refl

string_body-escape_byte :
    (i c : ℕ) (sb t : Bytes)
    → string_body i sb (escape_byte c t)
      ≡ string_body (i + length (escape_byte c [])) (sb ++ c ∷ []) t
string_body-escape_byte i c sb t = elim (Bool-cases (c == b'"')) [
  | inl quote ↦ rw quote (unfold string_body in ground arith)
  | inr other ↦ elim (Bool-cases (c == b'\\')) [
    | inl slash ↦ rw (other, slash) (unfold string_body in ground arith)
    | inr plain ↦ rw (other, plain) (string_body-plain i c sb t other plain)
  ]
]

length-escape_byte :
    (c : ℕ) (t : Bytes) → length (escape_byte c t) ≡ length (escape_byte c []) + length t
length-escape_byte c t = ground arith

-- The loop over a quoted string reads back what was escaped, and stops behind the closing quote.
string_body-escaped :
    (s : Bytes) (i : ℕ) (sb rest : Bytes)
    → string_body i sb (escaped s rest) ≡ some (sb ++ s, i + length (escaped s []), rest)
string_body-escaped [] i sb rest = rw append-nil (string_body-close i sb rest)
string_body-escaped (c ∷ cs) i sb rest =
    string_body-escape_byte i c sb (escaped cs rest)
    ∙ string_body-escaped cs (i + length (escape_byte c [])) (sb ++ c ∷ []) rest
    ∙ ground (arith, append_assoc sb (c ∷ []) cs, length-escape_byte c (escaped cs []))

one_more : (n : ℕ) → 1 + n ≡ suc n
one_more n = omega arith

pub lex-string :
    (fuel i : ℕ) (s rest : Bytes)
    → lex (suc fuel) i (b'"' ∷ escaped s rest)
      ≡ before
          (record { kind = string; text = s; col = i + 1 })
          (lex fuel (i + 1 + length (escaped s [])) rest)
unfolding lex round string_token
lex-string fuel i s rest = rw (string_body-escaped s (i + 1) [] rest)

-- A text between quotes, with a backslash put before each quote and backslash in it, is one string
-- token with that text, whatever its bytes are, and the end of the input.
pub tokenize-quoted :
    (s : Bytes)
    → tokenize (quoted s)
      ≡ lexed (record { kind = string; text = s; col = 1 } ∷ mark eof (length (quoted s)) ∷ [])
unfolding tokenize lex
tokenize-quoted s = lex-string (length (escaped s [])) 0 s [] ∙ at_end (length (escaped s []))
  where
    at_end :
        (n : ℕ)
        → before (record { kind = string; text = s; col = 1 }) (lex n (1 + n) [])
          ≡ lexed (record { kind = string; text = s; col = 1 } ∷ mark eof (suc n) ∷ [])
    at_end n = rw (one_more n)
