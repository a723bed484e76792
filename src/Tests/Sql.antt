-- ===== src/Tests/Sql.antt =====
-- internal/query/compile.go on a concrete tree.
use logpond.Base.{◌≡◌, refl, false, [], ◌∷◌}
use logpond.Base.Text.{codes, equal}
use logpond.Query.Value.{str, arr, text, to_lower, scalar_value}
use logpond.Query.Event.{is_attribute, is_core_column}
use logpond.Query.Filter.{eq, is_in, any_of, Node, group, leaf, nil, cons}
use logpond.Query.Sql.{ok, column_expr, replace_all}
use logpond.Query.Compile.{compile_eq, compile_in, compile_leaf, compile_node}
use logpond.Query.Compile.Fragments.{AllFit}
use logpond.Query.Compile.Placeholders.{compile_node-AllFit}
use logpond.Tests.Sample.{runtime, predicate, host_in}

-- An attribute path with a quote in it.
abbrev quoted_path : Node
quoted_path = group any_of false (
    cons (leaf (predicate eq (codes "attributes.a'b") (str (codes "X"))))
      (cons (leaf (predicate is_in (codes "host") (arr host_in))) nil))

compile_quoted_path :
    compile_node runtime quoted_path
    ≡ ok (record {
      sql =
          codes
            "(LOWER(json_extract_string(attributes, '$.a''b')) = LOWER(?)) OR ((LOWER(\"host\") IN (LOWER(?)) OR \"host\" IS NULL))";
      args = text (codes "x") ∷ text (codes "a") ∷ [];
    })
unfolding compile_node compile_leaf equal is_attribute compile_eq scalar_value is_core_column
    compile_in column_expr to_lower replace_all
compile_quoted_path = refl

compile_node-AllFit_example : AllFit (compile_node runtime quoted_path)
compile_node-AllFit_example = compile_node-AllFit runtime quoted_path
