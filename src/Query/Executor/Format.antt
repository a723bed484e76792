-- ===== src/Query/Executor/Format.antt =====
-- The second fmt.Sprintf of queryFacetSegment in internal/query/executor.go: a text that holds compiled
-- SQL is the format, and the source of rows its one argument.
use logpond.Base.{
  ◌≡◌, refl, ap, Bool, true, false, [], ◌∷◌, ◌++◌, Option, none, some, any, ◌==◌, ||-eq-false,
}
use logpond.Base.Text.{Bytes, codes}

-- An argument that no verb has taken.
abbrev unused : Option Bytes → Bytes
unused none = []
unused (some s) = codes "%!(EXTRA string=" ++ (s ++ codes ")")

abbrev or_missing : Option Bytes → Bytes
or_missing none = codes "%!s(MISSING)"
or_missing (some s) = s

-- Sprintf of a text, and of what follows a `%`. `%s` and `%%` are read; `other` is what the package
-- makes of a text that goes on with any other verb.
unfoldable pub sprintf : (Option Bytes → Bytes → Bytes) → Option Bytes → Bool → Bytes → Bytes
sprintf other arg false [] = unused arg
sprintf other arg true [] = codes "%!(NOVERB)" ++ unused arg
sprintf other arg false (c ∷ s) = elim (c == b'%') [
  | true ↦ sprintf other arg true s
  | false ↦ c ∷ sprintf other arg false s
]
sprintf other arg true (c ∷ s) = elim (c == b's') [
  | true ↦ or_missing arg ++ sprintf other none false s
  | false ↦ elim (c == b'%') [ true ↦ b'%' ∷ sprintf other arg false s | false ↦ other arg (c ∷ s) ]
]

abbrev pub has_percent : Bytes → Bool
has_percent s = any (λ c. c == b'%') s

pub sprintf-plain :
    (other : Option Bytes → Bytes → Bytes) (arg : Option Bytes) (s t : Bytes)
    → has_percent s ≡ false
    → sprintf other arg false (s ++ t) ≡ s ++ sprintf other arg false t
unfolding sprintf
sprintf-plain other arg [] t h = refl
sprintf-plain other arg (c ∷ s) t h =
    let (first, later) = ||-eq-false (c == b'%') (has_percent s) h in
    rw (sprintf, first) (ap (◌∷◌ c) (sprintf-plain other arg s t later))

pub sprintf-source :
    (other : Option Bytes → Bytes → Bytes) (source s : Bytes)
    → sprintf other (some source) false (codes "%s" ++ s) ≡ source ++ sprintf other none false s
unfolding sprintf
sprintf-source other source s = refl

pub sprintf-last :
    (other : Option Bytes → Bytes → Bytes) (s : Bytes)
    → has_percent s ≡ false
    → sprintf other none false s ≡ s
unfolding sprintf
sprintf-last other [] h = refl
sprintf-last other (c ∷ s) h =
    let (first, later) = ||-eq-false (c == b'%') (has_percent s) h in
    rw (sprintf, first) (ap (◌∷◌ c) (sprintf-last other s later))
