-- ===== src/Parser.antt =====
-- internal/query/parser: the search bar. The lexer (lexer.go) turns a line of text into tokens, the
-- grammar (parser.go) turns tokens into a tree of predicates and free-text terms, and the last pass
-- splits that into a filter and a search text.
pub mod Lexer
pub mod Tree
pub mod State
pub mod Predicate
pub mod Grammar
pub mod Finalize
pub mod Total
