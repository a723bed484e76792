-- ===== src/Api/Auth.antt =====
-- internal/api/auth.go: the bearer tokens of a source. The log and the counter of failures are left out.
use logpond.Base.{
  ℕ, ◌≡◌, ◌∙◌, Bool, true, false, ◌||◌, List, [], ◌∷◌, Option, none, some, any, length, take, drop,
  leb, if◌then◌else◌, ◌==◌, arith,
}
use logpond.Base.Assoc.{Assoc, lookup}
use logpond.Base.Text.{Bytes, codes, equal, equal_fold}
use logpond.Query.Value.{Runtime}
use logpond.Query.Match.{trim_space}

abbrev or_no_tokens : Option (List Bytes) → List Bytes
or_no_tokens none = []
or_no_tokens (some ts) = ts

-- tokensFor
abbrev pub tokens_for : Bytes → Assoc (List Bytes) → List Bytes
tokens_for source m = or_no_tokens (lookup source m)

-- " \t\r\n"
abbrev is_space_or_break : ℕ → Bool
is_space_or_break c = c == b' ' || (c == 9 || (c == 13 || c == 10))

abbrev scheme : Bytes
scheme = codes "bearer "

abbrev token : Bytes → Option Bytes
token tok = if equal tok [] || any is_space_or_break tok then none else some tok

-- extractBearer. No letter of the scheme has a fold outside ASCII.
unfoldable pub extract_bearer : Runtime → Bytes → Option Bytes
extract_bearer env sent =
    let header = trim_space env sent in
    if equal header []
    then none
    else if leb (length header) 7
    then none
    else if equal_fold (take 7 header) scheme
    then token (trim_space env (drop 7 header))
    else none

matches_from : Bool → Bytes → List Bytes → Bool
matches_from hit offered [] = hit
matches_from hit offered (t ∷ ts) = matches_from (if equal offered t then true else hit) offered ts

-- matchesAny
unfoldable pub matches_any : Bytes → List Bytes → Bool
unfolding matches_from
matches_any offered ts = matches_from false offered ts

abbrev offers : List Bytes → Option Bytes → Bool
offers ts none = false
offers ts (some offered) = matches_any offered ts

abbrev allows : Option Bytes → List Bytes → Bool
allows offered [] = true
allows offered (t ∷ ts) = offers (t ∷ ts) offered

-- check
unfoldable pub check : Runtime → Assoc (List Bytes) → Bytes → Bytes → Bool
check env tokens source header = allows (extract_bearer env header) (tokens_for source tokens)

matches_from-any :
    (hit : Bool) (offered : Bytes) (ts : List Bytes)
    → matches_from hit offered ts ≡ hit || any (equal offered) ts
unfolding matches_from
matches_from-any hit offered [] = ground arith
matches_from-any hit offered (t ∷ ts) =
    matches_from-any (if equal offered t then true else hit) offered ts ∙ ground arith

-- The loop that looks at every token finds what a search that stops would find.
pub matches_any-any :
    (offered : Bytes) (ts : List Bytes) → matches_any offered ts ≡ any (equal offered) ts
unfolding matches_any
matches_any-any offered ts = matches_from-any false offered ts
