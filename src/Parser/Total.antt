-- ===== src/Parser/Total.antt =====
-- internal/query/parser/parser.go: the promise that each parsing function is measured by. It ends, reads
-- no token out of range, fails only at a column of the line, and what it returns is well shaped.
use logpond.Base.{
  ℕ, suc, ◌≤◌, ◌<◌, ◌≡◌, ◌≢◌, refl, Bool, true, false, List, [], ◌∷◌, arith, length, sym, ap, ◌∙◌,
  ==→eq, ==_refl, &&-eq-true, ◌==◌, if◌then◌else◌,
}
use logpond.Base.Text.{Bytes}
use logpond.Query.Filter.{known_group_op}
use logpond.Query.Filter.Validity.{IsGoodLeaf}
use logpond.Parser.Lexer.{Kind, eof, ident, string, colon, Token}
use logpond.Parser.Lexer.Stream.{IsText, IsStream, finish, further}
use logpond.Parser.Tree.{PNode, group, leaf, term, PNodes, nil, cons, Warning}
use logpond.Parser.State.{
  State, Outcome, ok, failed, panicked, out_of_fuel, M, bind, is_kind, is_keyword, number, peek,
}

-- The tokens that are left of an input of `size` bytes.
abbrev pub Tokens : ℕ → List Token → Type 0
Tokens size [] = ⊥
Tokens size (t ∷ []) = (t.kind ≡ eof) × (0 < t.col) × (t.col ≤ suc size)
Tokens size (t ∷ u ∷ ts) =
    IsText t.kind t.text × (0 < t.col) × (t.col ≤ suc size) × Tokens size (u ∷ ts)

-- An outcome with fewer than `m` tokens left, and P of what it returns.
abbrev pub Good : {A : Type 0} → ℕ → ℕ → (A → Type 0) → Outcome A → Type 0
Good size m P (ok a s) = Tokens size s.rest × (length s.rest < m) × P a
Good size m P (failed e) = (0 < e.col) × (e.col ≤ suc size)
Good size m P panicked = ⊥
Good size m P out_of_fuel = ⊥

-- Groups are non-empty with a known operator, and leaves are good.
abbrev mutual
  pub IsShaped : PNode → Type 0
  IsShaped (group op negated flat nil) = ⊥
  IsShaped (group op negated flat (cons n ns)) =
      (known_group_op op ≡ true) × IsShaped n × AreShaped ns
  IsShaped (leaf l) = IsGoodLeaf l
  IsShaped (term s) = Unit

  pub AreShaped : PNodes → Type 0
  AreShaped nil = Unit
  AreShaped (cons n ns) = IsShaped n × AreShaped ns

-- Nothing is promised of what is returned.
abbrev pub Any : {A : Type 0} → A → Type 0
Any a = Unit

abbrev pub at_tokens : List Token → List Warning → State
at_tokens ts w = record { rest = ts; warnings = w }

pub Good-bind :
    {A B : Type 0} (size m k : ℕ) (P : A → Type 0) (Q : B → Type 0) (r : Outcome A) (f : A → M B)
    → Good size m P r
    → ((a : A) (s : State) → Tokens size s.rest → length s.rest < m → P a → Good size k Q (f a s))
    → Good size k Q (bind r f)
Good-bind size m k P Q (ok a s) f (x, y, z) g = g a s x y z
Good-bind size m k P Q (failed e) f h g = h
Good-bind size m k P Q panicked f h g = absurd h
Good-bind size m k P Q out_of_fuel f h g = absurd h

pub Good-mono :
    {A : Type 0} (size m k : ℕ) (P : A → Type 0) (r : Outcome A)
    → m ≤ k
    → Good size m P r
    → Good size k P r
Good-mono size m k P (ok a s) p (x, y, z) = (x, omega arith, z)
Good-mono size m k P (failed e) p h = h
Good-mono size m k P panicked p h = h
Good-mono size m k P out_of_fuel p h = h

pub Tokens-col :
    (size : ℕ) (t : Token) (ts : List Token)
    → Tokens size (t ∷ ts)
    → (0 < t.col) × (t.col ≤ suc size)
Tokens-col size t [] (e, p, q) = (p, q)
Tokens-col size t (u ∷ us) (x, p, q, h) = (p, q)

-- Behind a token that does not end the input there are more.
pub Tokens-tail :
    (size : ℕ) (t : Token) (ts : List Token) → Tokens size (t ∷ ts) → t.kind ≢ eof → Tokens size ts
Tokens-tail size t [] (e, p, q) ne = absurd (ne e)
Tokens-tail size t (u ∷ us) (x, p, q, h) ne = h

pub Tokens-text :
    (size : ℕ) (t : Token) (ts : List Token)
    → Tokens size (t ∷ ts)
    → t.kind ≢ eof
    → IsText t.kind t.text
Tokens-text size t [] (e, p, q) ne = absurd (ne e)
Tokens-text size t (u ∷ us) (x, p, q, h) ne = x

pub IsStream-Tokens : {size lo : ℕ} {ts : List Token} → IsStream size lo ts → Tokens size ts
IsStream-Tokens (finish e c p) = (e, omega arith, omega arith)
IsStream-Tokens (further k p q (finish e c r)) =
    (k, omega arith, omega arith, (e, omega arith, omega arith))
IsStream-Tokens (further k p q (further l r s t)) =
    (k, omega arith, omega arith, IsStream-Tokens (further l r s t))

pub Good-if :
    {A : Type 0} (size k : ℕ) (P : A → Type 0) (b : Bool) (m n : M A) (s : State)
    → (b ≡ true → Good size k P (m s))
    → (b ≡ false → Good size k P (n s))
    → Good size k P ((if b then m else n) s)
Good-if size k P true m n s hm hn = hm refl
Good-if size k P false m n s hm hn = hn refl

of_number : ℕ → Kind
of_number n =
    if n == 0
    then eof
    else if n == 1
    then ident
    else if n == 2
    then string
    else if n == 3
    then colon
    else if n == 4
    then Kind.at
    else if n == 5
    then Kind.lparen
    else if n == 6
    then Kind.rparen
    else if n == 7
    then Kind.lbracket
    else if n == 8
    then Kind.rbracket
    else if n == 9
    then Kind.lbrace
    else if n == 10
    then Kind.rbrace
    else if n == 11
    then Kind.comma
    else if n == 12
    then Kind.gt
    else if n == 13
    then Kind.gte
    else if n == 14
    then Kind.lt
    else Kind.lte

of_number-number : (k : Kind) → of_number (number k) ≡ k
unfolding of_number
of_number-number eof = refl
of_number-number _ = refl

pub is_kind-eq : (k j : Kind) → is_kind k j ≡ true → k ≡ j
is_kind-eq k j h =
    sym (of_number-number k) ∙ ap of_number (==→eq (number k) (number j) h) ∙ of_number-number j

pub is_kind-ne : (k j : Kind) → is_kind k j ≡ false → k ≢ j
is_kind-ne k j h e = cc (ap (λ x. is_kind x j) e ∙ ==_refl (number j))

pub Good-peek :
    {B : Type 0} (size m k : ℕ) (Q : B → Type 0) (f : Token → M B) (ts : List Token)
    (w : List Warning)
    → Tokens size ts
    → length ts < m
    → ((t : Token) (us : List Token)
        → Tokens size (t ∷ us)
        → length (t ∷ us) < m
        → Good size k Q (f t (at_tokens (t ∷ us) w)))
    → Good size k Q (bind (peek (at_tokens ts w)) f)
Good-peek size m k Q f [] w h p g = absurd h
Good-peek size m k Q f (t ∷ ts) w h p g = g t ts h p

-- A keyword is an identifier.
pub is_keyword-ident : (word : Bytes) (t : Token) → is_keyword word t ≡ true → t.kind ≡ ident
unfolding is_keyword
is_keyword-ident word t h = is_kind-eq t.kind ident (&&-eq-true _ _ h).0

pub is_keyword-ne-eof : (word : Bytes) (t : Token) → is_keyword word t ≡ true → t.kind ≢ eof
is_keyword-ne-eof word t h e = cc (is_keyword-ident word t h)

pub is_kind-ne-eof : (k j : Kind) → j ≢ eof → is_kind k j ≡ true → k ≢ eof
is_kind-ne-eof k j ne h e = ne (sym (is_kind-eq k j h) ∙ e)
