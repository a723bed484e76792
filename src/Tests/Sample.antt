-- ===== src/Tests/Sample.antt =====
-- A runtime and an event to run the definitions on.
use logpond.Base.{ℕ, true, false, [], none, ltb, leb}
use logpond.Base.Int.{ℤ, pos, negsuc}
use logpond.Base.Text.{Bytes, codes}
use logpond.Query.Value.{Value, str, int, null, Values, end, field, Runtime}
use logpond.Query.Event.{Event}
use logpond.Query.Filter.{Op, all_of, any_of, Leaf, Node, group, leaf, nil, cons}

abbrev nat_of_int : ℤ → ℕ
nat_of_int (pos n) = n
nat_of_int (negsuc n) = 0

-- Every float is a natural number that stands for itself.
abbrev pub runtime : Runtime
runtime = record {
  lower_unicode = λ s. s;
  trim_unicode = λ s. s;
  parse_float = λ s. none;
  format_float = λ x. [];
  format_float_g = λ x. [];
  sprint_float = λ x. [];
  float_of_int = nat_of_int;
  int_of_float = pos;
  is_integral = λ x. true;
  float_lt = ltb;
  float_le = leb;
  parse_time = λ s. none;
  format_time = λ t. codes "2026-05-01T00:00:00Z";
  marshal = λ v. none;
}

abbrev pub event : Event
event = record {
  timestamp = pos 1000;
  service = codes "API";
  level = codes "error";
  message = codes "Connection refused";
  host = [];
  source = codes "vector";
  attributes = field (codes "status") (int (pos 500)) end;
  raw = [];
}

abbrev pub predicate : Op → Bytes → Value → Leaf
predicate op f v = record { field = f; op = op; value = v; case_sensitive = false }

abbrev pub service_is_api : Leaf
service_is_api = predicate Op.eq (codes "service") (str (codes "api"))

abbrev pub host_in : Values
host_in = Values.cons (str (codes "a")) (Values.cons null Values.nil)

abbrev pub tree : Node
tree =
    group any_of false
      (cons (leaf service_is_api) (cons (group all_of true (cons (leaf service_is_api) nil)) nil))
