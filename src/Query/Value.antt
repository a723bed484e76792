-- ===== src/Query/Value.antt =====
-- The dynamic values (`any`) of a filter or of an event's attributes, and `scalarValue`,
-- `toFloat` of internal/query/compile.go and `scalarToString`, `scalarString` of match.go.
use logpond.Base.{
  ℕ, zero, suc, ◌+◌, ◌-◌, ◌*◌, ◌/◌, ◌%◌, Bool, true, false, ◌&&◌, Option, none, some, [], ◌∷◌, map,
  leb, ltb, ◌==◌, if◌then◌else◌,
}
use logpond.Base.Int.{ℤ, pos, negsuc}
use logpond.Base.Text.{Bytes, codes, lower_byte, is_ascii}

-- What `encoding/json` decodes into `any`, and the integers that the program itself stores there.
-- A float64 is given by its bit pattern; `number` is a `json.Number`.
mutual
  pub data Value : Type 0 where
    null : Value
    str : Bytes → Value
    bool : Bool → Value
    float : ℕ → Value
    int : ℤ → Value
    number : Bytes → Value
    arr : Values → Value
    obj : Fields → Value

  pub data Values : Type 0 where
    nil : Values
    cons : Value → Values → Values

  pub data Fields : Type 0 where
    end : Fields
    field : Bytes → Value → Fields → Fields

-- What the model leaves to Go's standard library: floats, the Unicode tables behind
-- `strings.ToLower` and `strings.TrimSpace`, timestamps, and `json.Marshal` of a nested value.
pub record Runtime : Type 0 where
  pub lower_unicode : Bytes → Bytes
  pub trim_unicode : Bytes → Bytes
  pub parse_float : Bytes → Option ℕ
  pub format_float : ℕ → Bytes
  -- with 'g'
  pub format_float_g : ℕ → Bytes
  -- `%v`
  pub sprint_float : ℕ → Bytes
  pub float_of_int : ℤ → ℕ
  -- `int64(x)`, and whether `x == float64(int64(x))`
  pub int_of_float : ℕ → ℤ
  pub is_integral : ℕ → Bool
  pub float_lt : ℕ → ℕ → Bool
  pub float_le : ℕ → ℕ → Bool
  pub parse_time : Bytes → Option ℤ
  pub format_time : ℤ → Bytes
  pub marshal : Value → Option Bytes

-- strings.ToLower
unfoldable pub to_lower : Runtime → Bytes → Bytes
to_lower env s = if is_ascii s then map lower_byte s else env.lower_unicode s

is_digit : ℕ → Bool
is_digit c = leb b'0' c && leb c b'9'

-- The digits of a decimal numeral; `none` at any other byte.
parse_digits : ℕ → Bytes → Option ℕ
parse_digits n [] = some n
parse_digits n (c ∷ cs) =
    let rest = parse_digits (n * 10 + (c - b'0')) cs in if is_digit c then rest else none

parse_magnitude : Bytes → Option ℕ
unfolding parse_digits is_digit
parse_magnitude [] = none
parse_magnitude s = parse_digits 0 s

-- strconv.ParseInt(s, 10, 64): an optional sign, digits, and the range of an int64.
signed : Bool → Option ℕ → Option ℤ
signed negative none = none
signed true (some zero) = some (pos 0)
signed true (some (suc n)) = if ltb n 9223372036854775808 then some (negsuc n) else none
signed false (some n) = if ltb n 9223372036854775808 then some (pos n) else none

unfoldable pub parse_int : Bytes → Option ℤ
unfolding parse_magnitude signed
parse_int [] = none
parse_int (c ∷ cs) =
    if c == b'-'
    then signed true (parse_magnitude cs)
    else if c == b'+'
    then signed false (parse_magnitude cs)
    else signed false (parse_magnitude (c ∷ cs))

-- Decimal digits, most significant first; a number below 10 ^ fuel has at most that many.
unfoldable pub digits : ℕ → ℕ → Bytes → Bytes
digits zero n acc = acc
digits (suc fuel) n acc =
    let rest = digits fuel (n / 10) ((b'0' + n % 10) ∷ acc) in
    if ltb n 10 then (b'0' + n) ∷ acc else rest

-- strconv.FormatInt(n, 10): an int64 has at most 19 digits.
unfoldable pub format_int : ℤ → Bytes
unfolding digits
format_int (pos n) = digits 20 n []
format_int (negsuc n) = b'-' ∷ digits 20 (suc n) []

-- The results of `scalarValue` other than an error.
pub data Scalar : Type 0 where
  nothing : Scalar
  text : Bytes → Scalar
  flag : Bool → Scalar
  whole : ℤ → Scalar
  real : ℕ → Scalar

-- (value, isNull, err == nil). On an error the value is nil and isNull is false.
pub record Normal : Type 0 where
  pub value : Scalar
  pub is_null : Bool
  pub supported : Bool

abbrev given : Scalar → Normal
given s = record { value = s; is_null = false; supported = true }

abbrev unsupported : Normal
unsupported = record { value = nothing; is_null = false; supported = false }

abbrev float_scalar : Runtime → ℕ → Scalar
float_scalar env x = if env.is_integral x then whole (env.int_of_float x) else real x

abbrev number_as_float : Bytes → Option ℕ → Scalar
number_as_float s none = text s
number_as_float s (some f) = real f

abbrev number_scalar : Runtime → Bytes → Option ℤ → Scalar
number_scalar env s none = number_as_float s (env.parse_float s)
number_scalar env s (some i) = whole i

unfoldable pub scalar_value : Runtime → Value → Normal
scalar_value env null = record { value = nothing; is_null = true; supported = true }
scalar_value env (str s) = given (text s)
scalar_value env (bool b) = given (flag b)
scalar_value env (float x) = given (float_scalar env x)
scalar_value env (int i) = given (whole i)
scalar_value env (number s) = given (number_scalar env s (parse_int s))
scalar_value env (arr vs) = unsupported
scalar_value env (obj fs) = unsupported

abbrev pub bool_text : Bool → Bytes
bool_text true = codes "true"
bool_text false = codes "false"

-- The comparison side of a leaf, as text.
unfoldable pub scalar_string : Runtime → Scalar → Bytes
scalar_string env nothing = []
scalar_string env (text s) = s
scalar_string env (flag b) = bool_text b
scalar_string env (whole i) = format_int i
scalar_string env (real x) = env.format_float x

-- The event's side of a comparison, as text; `none` for a missing value.
unfoldable pub scalar_to_string : Runtime → Value → Option Bytes
scalar_to_string env null = none
scalar_to_string env (str s) = some s
scalar_to_string env (bool b) = some (bool_text b)
scalar_to_string env (float x) =
    some (if env.is_integral x then format_int (env.int_of_float x) else env.format_float x)
scalar_to_string env (int i) = some (format_int i)
scalar_to_string env (number s) = some s
scalar_to_string env (arr vs) = env.marshal (arr vs)
scalar_to_string env (obj fs) = env.marshal (obj fs)

unfoldable pub to_float : Runtime → Scalar → Option ℕ
to_float env (whole i) = some (env.float_of_int i)
to_float env (real x) = some x
to_float env (text s) = env.parse_float s
to_float env _ = none
