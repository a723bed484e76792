-- ===== src/Tests/Searches.antt =====
-- internal/query/parser on concrete search texts.
use logpond.Base.{◌≡◌, refl, true, false, [], ◌∷◌, ◌++◌, some, length, all}
use logpond.Base.Text.{Bytes, codes}
use logpond.Query.Value.{str}
use logpond.Query.Filter.{eq, all_of, group, leaf, nil, cons}
use logpond.Parser.Lexer.{eof, string, lexed, tokenize, mark, is_ident_byte}
use logpond.Parser.Lexer.Quoted.{quoted, tokenize-quoted}
use logpond.Parser.Predicate.{simple}
use logpond.Parser.Total.{at_tokens}
use logpond.Parser.Grammar.{parse_factor, parse_atom, parse_disjunction}
use logpond.Parser.Grammar.Negation.{word, parse_factor-minus}
use logpond.Parser.Finalize.{parse, result_of}
use logpond.Parser.Finalize.Valid.{Promises, parse-Promises}
use logpond.Parser.Finalize.Exact.{attribute_query, parse-attribute_query}
use logpond.Tests.Sample.{runtime}

abbrev mixed : Bytes
mixed = codes "service:api -level:debug timeout"

abbrev path : Bytes
path = codes "http.status"

path_is_text : all is_ident_byte path ≡ true
unfolding is_ident_byte
path_is_text = refl

tokenize-quoted_example :
    tokenize (quoted (codes "a\"b"))
    ≡ lexed (record { kind = string; text = codes "a\"b"; col = 1 } ∷ mark eof 6 ∷ [])
tokenize-quoted_example = tokenize-quoted (codes "a\"b")

parse-Promises_example : Promises (length mixed) (parse runtime mixed)
parse-Promises_example = parse-Promises runtime mixed

parse-attribute_query_example :
    result_of (parse runtime (attribute_query path (codes "say \"hi\"")))
    ≡ some (record {
      filter = some (
          group all_of false
            (cons (leaf (simple (codes "attributes." ++ path) eq (str (codes "say \"hi\"")))) nil));
      search = [];
      warnings = [];
    })
parse-attribute_query_example =
    parse-attribute_query runtime path (codes "say \"hi\"") (λ e. cc) path_is_text

parse_factor-minus_example :
    parse_factor runtime
      (parse_atom runtime (parse_disjunction runtime 4))
      (at_tokens (word (codes "-debug") 1 ∷ mark eof 6 ∷ []) [])
    ≡ parse_factor runtime
        (parse_atom runtime (parse_disjunction runtime 4))
        (at_tokens (word (codes "NOT") 1 ∷ word (codes "debug") 1 ∷ mark eof 6 ∷ []) [])
parse_factor-minus_example =
    parse_factor-minus runtime (parse_atom runtime (parse_disjunction runtime 4)) b'd' 1 1
      (codes "ebug") (mark eof 6 ∷ []) []
