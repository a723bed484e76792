-- ===== src/Parser/Finalize/Valid.antt =====
-- internal/query/parser/parser.go: what `Parse` returns, and what `Validate` says about it.
use logpond.Base.{
  ℕ, zero, suc, ◌≤◌, ◌<◌, ◌≡◌, refl, Bool, true, false, List, [], ◌∷◌, Option, none, some, arith,
  length, if◌then◌else◌,
}
use logpond.Base.Text.{Bytes}
use logpond.Query.Value.{Runtime}
use logpond.Query.Filter.{all_of, Node, max_filter_depth, validate}
use logpond.Query.Filter.Validity.{
  IsGoodLeaf, IsGood, AreGood, good_group, good_leaf, none_left, and_also, validate_iff_IsGood,
}
use logpond.Query.Filter.Depth.{nesting, deepest}
use logpond.Parser.Lexer.{Kind, eof, Token, Lexed, lexed, refused, tokenize}
use logpond.Parser.Lexer
use logpond.Parser.Lexer.Stream.{Behind, tokenize-Behind}
use logpond.Parser.Tree.{PNode, group, leaf, term, PNodes, nil, cons, Warning}
use logpond.Parser.State.{State, Outcome, ok, failed, panicked, out_of_fuel, bind, is_kind}
use logpond.Parser.Total.{Tokens, IsShaped, AreShaped, Good, Tokens-col, IsStream-Tokens}
use logpond.Parser.Grammar.Total.{parse_disjunction-Good}
use logpond.Parser.Finalize.{
  message_contains, convert_nested_terms, convert_children, compile, compile_children, top_children,
  kept, Parsed, envelope, finalize, finish, parse_tokens, parse_lexed, parse,
}

message_contains-IsGoodLeaf : (s : Bytes) → IsGoodLeaf (message_contains s)
message_contains-IsGoodLeaf s = record { named = λ e. cc; operand = λ e. cc }

mutual
  unfolding convert_nested_terms

  convert-IsShaped : (n : PNode) → IsShaped n → IsShaped (convert_nested_terms n)
  convert-IsShaped (group op negated flat nil) h = h
  convert-IsShaped (group op negated flat (cons n ns)) h =
      (h.0, convert-IsShaped n h.1, convert-AreShaped ns h.2)
  convert-IsShaped (leaf l) h = h
  convert-IsShaped (term s) h = message_contains-IsGoodLeaf s

  convert-AreShaped : (ns : PNodes) → AreShaped ns → AreShaped (convert_children ns)
  convert-AreShaped nil h = tt
  convert-AreShaped (cons n ns) h = (convert-IsShaped n h.0, convert-AreShaped ns h.1)

mutual
  unfolding compile

  compile-IsGood :
      (n : PNode) (room : ℕ) → IsShaped n → nesting (compile n) ≤ room → IsGood room (compile n)
  compile-IsGood (group op negated flat nil) room h p = absurd h
  compile-IsGood (group op negated flat (cons n ns)) zero h p = absurd (omega arith)
  compile-IsGood (group op negated flat (cons n ns)) (suc room) h p =
      good_group h.0 (compile-IsGood n room h.1 (omega arith))
        (compile-AreGood ns room h.2 (omega arith))
  compile-IsGood (leaf l) room h p = good_leaf h
  compile-IsGood (term s) room h p = good_leaf (message_contains-IsGoodLeaf s)

  compile-AreGood :
      (ns : PNodes) (room : ℕ)
      → AreShaped ns
      → deepest (compile_children ns) ≤ room
      → AreGood room (compile_children ns)
  compile-AreGood nil room h p = none_left
  compile-AreGood (cons n ns) room h p =
      and_also (compile-IsGood n room h.0 (omega arith)) (compile-AreGood ns room h.1 (omega arith))

kept-AreShaped : (ns : PNodes) → AreShaped ns → AreShaped (kept ns)
unfolding kept
kept-AreShaped nil h = tt
kept-AreShaped (cons (term s) ns) h = kept-AreShaped ns h.1
kept-AreShaped (cons (leaf l) ns) h = (h.0, kept-AreShaped ns h.1)
kept-AreShaped (cons (group op negated flat ms) ns) h = (h.0, kept-AreShaped ns h.1)

flat-AreShaped : (ns : PNodes) → IsShaped (group all_of false true ns) → AreShaped ns
flat-AreShaped nil h = tt
flat-AreShaped (cons n ns) h = (h.1, h.2)

top_children-AreShaped : (n : PNode) → IsShaped n → AreShaped (top_children n)
unfolding top_children
top_children-AreShaped (group all_of false true ns) h = flat-AreShaped ns h
top_children-AreShaped n h = (h, tt)

-- A filter that `Validate` accepts if it is not too deep.
abbrev pub IsAcceptable : Option Node → Type 0
IsAcceptable none = Unit
IsAcceptable (some n) = nesting n ≤ max_filter_depth → validate n ≡ none

envelope-IsAcceptable : (ns : PNodes) → AreShaped ns → IsAcceptable (envelope ns)
unfolding envelope
envelope-IsAcceptable nil h = tt
envelope-IsAcceptable (cons n ns) h = λ p. (validate_iff_IsGood _).1 (
    compile-IsGood (group all_of false false (convert_children (cons n ns))) max_filter_depth
      (refl, convert-IsShaped n h.0, convert-AreShaped ns h.1) p)

-- What `Parse` promises for an input of `size` bytes.
abbrev pub Promises : ℕ → Outcome Parsed → Type 0
Promises size (ok r s) = IsAcceptable r.filter
Promises size (failed e) = (0 < e.col) × (e.col ≤ suc size)
Promises size panicked = ⊥
Promises size out_of_fuel = ⊥

Promises-if :
    (size : ℕ) (b : Bool) (x y : Outcome Parsed)
    → Promises size x
    → Promises size y
    → Promises size (if b then x else y)
Promises-if size true x y h k = h
Promises-if size false x y h k = k

finalize-IsAcceptable :
    (w : List Warning) (root : PNode) → IsShaped root → IsAcceptable (finalize w root).filter
unfolding finalize
finalize-IsAcceptable w root h =
    envelope-IsAcceptable (kept (top_children root))
      (kept-AreShaped (top_children root) (top_children-AreShaped root h))

finish-Promises :
    (size : ℕ) (root : PNode) (ts : List Token) (s : State)
    → Tokens size ts
    → IsShaped root
    → Promises size (finish root ts s)
unfolding finish
finish-Promises size root [] s h shaped = absurd h
finish-Promises size root (t ∷ ts) s h shaped =
    Promises-if size (is_kind t.kind eof) _ _ (finalize-IsAcceptable s.warnings root shaped)
      (Tokens-col size t ts h)

root-Promises :
    (size m : ℕ) (r : Outcome PNode)
    → Good size m IsShaped r
    → Promises size (bind r (λ root s. finish root s.rest s))
root-Promises size m (ok root s) (x, y, shaped) = finish-Promises size root s.rest s x shaped
root-Promises size m (failed e) h = h
root-Promises size m panicked h = absurd h
root-Promises size m out_of_fuel h = absurd h

parse_tokens-Promises :
    (env : Runtime) (size : ℕ) (ts : List Token)
    → Tokens size ts
    → Promises size (parse_tokens env ts)
unfolding parse_tokens
parse_tokens-Promises env size [] h = absurd h
parse_tokens-Promises env size (t ∷ ts) h = Promises-if size (is_kind t.kind eof) _ _ tt (
    root-Promises size (length (t ∷ ts)) _
      (parse_disjunction-Good env size (length (t ∷ ts)) (t ∷ ts) [] h (omega arith)))

parse_lexed-Promises :
    (env : Runtime) (size : ℕ) (r : Lexed (List Token))
    → Behind size 0 r
    → Promises size (parse_lexed env r)
unfolding parse_lexed
parse_lexed-Promises env size (lexed ts) h = parse_tokens-Promises env size ts (IsStream-Tokens h)
parse_lexed-Promises env size (refused e) h = (omega arith, omega arith)
parse_lexed-Promises env size Lexer.out_of_fuel h = absurd h

-- `Parse` returns on every input, and reads no token out of range. An error stands at a column of the
-- input or just behind it. A filter passes `Validate` if at most MaxFilterDepth groups nest in it.
pub parse-Promises : (env : Runtime) (input : Bytes) → Promises (length input) (parse env input)
unfolding parse
parse-Promises env input =
    parse_lexed-Promises env (length input) (tokenize input) (tokenize-Behind input)
