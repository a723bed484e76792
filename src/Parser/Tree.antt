-- ===== src/Parser/Tree.antt =====
-- The parser's own tree (`pNode` of internal/query/parser/parser.go), its warnings and its errors.
use logpond.Base.{ℕ, Bool}
use logpond.Base.Text.{Bytes}
use logpond.Query.Filter.{GroupOp, Leaf}
use logpond.Parser.Lexer.{Kind, Token, LexMessage}

-- `group op not flat children`; a `term` is free text.
mutual
  pub data PNode : Type 0 where
    group : GroupOp → Bool → Bool → PNodes → PNode
    leaf : Leaf → PNode
    term : Bytes → PNode

  pub data PNodes : Type 0 where
    nil : PNodes
    cons : PNode → PNodes → PNodes

-- The texts given to `warn`, by what they are made of.
pub data Warning : Type 0 where
  bare_field : (col : ℕ) (field : Bytes) → Warning
  slow_wildcard : (col : ℕ) (field : Bytes) → Warning
  nested_term : Bytes → Warning

-- The texts of a ParseError, by what they are made of.
pub data Message : Type 0 where
  from_lexer : LexMessage → Message
  unexpected_token unexpected : Token → Message
  expected_rparen expected_path expected_value_after_colon expected_value : Message
  expected_to expected_list_value : Message
  expected_closing : Kind → Message

pub record ParseError : Type 0 where
  pub col : ℕ
  pub message : Message
