-- ===== src/Query/Sql.antt =====
-- internal/query/compile.go: SQL fragments, the columns of a field, and errors.
use logpond.Base.{ℕ, Bool, true, false, List, [], ◌∷◌, ◌++◌, ◌==◌, if◌then◌else◌}
use logpond.Base.Text.{Bytes, codes}
use logpond.Query.Value.{Runtime, Scalar, text, Normal, to_lower}
use logpond.Query.Event.{attribute_path}
use logpond.Query.Filter.{Op, neq, not_in}

-- A SQL fragment and its arguments (`Compiled`). A bound argument is a scalar.
pub record Compiled : Type 0 where
  pub sql : Bytes
  pub args : List Scalar

pub data CompileError : Type 0 where
  no_children missing_field unknown_field invalid_op : CompileError
  unsupported_value array_required empty_array null_refused : CompileError

pub data Result (A : Type 0) : Type 0 where
  ok : A → Result A
  err : CompileError → Result A

infixl 5 ◌>>=◌
abbrev pub ◌>>=◌ : {A B : Type 0} → Result A → (A → Result B) → Result B
ok a >>= f = f a
err e >>= f = err e

abbrev pub sql_with : Bytes → List Scalar → Compiled
sql_with s args = record { sql = s; args = args }

-- strings.ReplaceAll(s, b, by), for a single byte b
unfoldable pub replace_all : ℕ → Bytes → Bytes → Bytes
replace_all b by [] = []
replace_all b by (c ∷ cs) = (if c == b then by else c ∷ []) ++ replace_all b by cs

-- escapeSingleQuotes, quoteIdent
abbrev pub escape_single_quotes : Bytes → Bytes
escape_single_quotes = replace_all b'\'' (codes "''")

abbrev pub quote_ident : Bytes → Bytes
quote_ident s = b'"' ∷ (replace_all b'"' (codes "\"\"") s ++ codes "\"")

-- columnExpr
unfoldable pub column_expr : Bytes → Bool → Bytes
column_expr field is_attr =
    if is_attr
    then codes "json_extract_string(attributes, '$."
      ++ (escape_single_quotes (attribute_path field) ++ codes "')")
    else quote_ident field

-- columnRawJSON
unfoldable pub column_raw_json : Bytes → Bytes
column_raw_json field =
    codes "json_extract(attributes, '$."
    ++ (escape_single_quotes (attribute_path field) ++ codes "')")

-- compileExists
unfoldable pub compile_exists : Bytes → Bool → Bytes
compile_exists field is_attr =
    (if is_attr then column_raw_json field else quote_ident field) ++ codes " IS NOT NULL"

-- `scalarValue` with its error
abbrev pub checked : Normal → Result Normal
checked v = if v.supported then ok v else err unsupported_value

-- lowerString
abbrev pub lower_scalar : Runtime → Scalar → Scalar
lower_scalar env (text s) = text (to_lower env s)
lower_scalar env v = v

abbrev pub lowered : Bool → Bytes → Bytes
lowered fold s = if fold then codes "LOWER(" ++ (s ++ codes ")") else s

abbrev pub is_neq : Op → Bool
is_neq neq = true
is_neq _ = false

abbrev pub is_not_in : Op → Bool
is_not_in not_in = true
is_not_in _ = false
