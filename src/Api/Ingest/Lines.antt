-- ===== src/Api/Ingest/Lines.antt =====
-- internal/api/server.go: splitLines.
use logpond.Base.{
  ℕ, ◌≡◌, refl, sym, ap, ◌∙◌, Bool, true, false, List, [], ◌∷◌, ◌++◌, map, any, All, if◌then◌else◌,
  ◌==◌, ||-eq-false, ||-false,
}
use logpond.Base.Text.{Bytes}
use mathlib.Core.List.{append-nil, append_assoc}

-- A line without one "\r" at its end.
abbrev pub without_cr : Bytes → Bytes
without_cr [] = []
without_cr (c ∷ []) = if c == 13 then [] else c ∷ []
without_cr (c ∷ d ∷ cs) = c ∷ without_cr (d ∷ cs)

last_line : Bytes → List Bytes
last_line [] = []
last_line (c ∷ cs) = (c ∷ cs) ∷ []

-- The loop: `line` is `body[start:i]`. What no "\n" ends keeps its "\r".
lines_from : Bytes → Bytes → List Bytes
unfolding last_line
lines_from line [] = last_line line
lines_from line (c ∷ cs) =
    let ended = lines_from [] cs in
    let longer = lines_from (line ++ c ∷ []) cs in
    if c == 10 then without_cr line ∷ ended else longer

-- splitLines
unfoldable pub split_lines : Bytes → List Bytes
unfolding lines_from
split_lines body = lines_from [] body

-- A line and whether "\r\n" ends it, or "\n".
abbrev pub ended_line : Bytes × Bool → Bytes
ended_line (line, true) = line ++ 13 ∷ 10 ∷ []
ended_line (line, false) = line ++ 10 ∷ []

abbrev pub text_of : List (Bytes × Bool) → Bytes
text_of [] = []
text_of (l ∷ ls) = ended_line l ++ text_of ls

-- No "\n" within; and no "\r" before a bare "\n".
abbrev pub IsLine : Bytes × Bool → Type 0
IsLine (line, true) = any (λ c. c == 10) line ≡ false
IsLine (line, false) = (any (λ c. c == 10) line ≡ false) × (without_cr line ≡ line)

without_cr-snoc : (line : Bytes) → without_cr (line ++ 13 ∷ []) ≡ line
without_cr-snoc [] = refl
without_cr-snoc (c ∷ []) = refl
without_cr-snoc (c ∷ d ∷ cs) = ap (◌∷◌ c) (without_cr-snoc (d ∷ cs))

any-snoc :
    (p : ℕ → Bool) (line : Bytes) (c : ℕ)
    → any p line ≡ false
    → p c ≡ false
    → any p (line ++ c ∷ []) ≡ false
any-snoc p [] c h k = ||-false k refl
any-snoc p (d ∷ ds) c h k =
    let (here, later) = ||-eq-false (p d) (any p ds) h in ||-false here (any-snoc p ds c later k)

lines_from-append :
    (line more rest : Bytes)
    → any (λ c. c == 10) more ≡ false
    → lines_from line (more ++ 10 ∷ rest) ≡ without_cr (line ++ more) ∷ lines_from [] rest
unfolding lines_from
lines_from-append line [] rest h =
    ap (λ l. without_cr l ∷ lines_from [] rest) (sym (append-nil line))
lines_from-append line (c ∷ more) rest h =
    let (here, later) = ||-eq-false (c == 10) _ h in
    rw here (
      lines_from-append (line ++ c ∷ []) more rest later
      ∙ ap (λ l. without_cr l ∷ lines_from [] rest) (append_assoc line (c ∷ []) more))

-- Lines written one after another, each ended by "\n" or by "\r\n", are read back.
pub split_lines-text_of :
    (ls : List (Bytes × Bool)) → All IsLine ls → split_lines (text_of ls) ≡ map (λ l. l.0) ls
unfolding split_lines lines_from last_line
split_lines-text_of [] h = refl
split_lines-text_of ((line, true) ∷ ls) h =
    ap (lines_from []) (
      append_assoc line (13 ∷ 10 ∷ []) (text_of ls)
      ∙ sym (append_assoc line (13 ∷ []) (10 ∷ text_of ls)))
    ∙ lines_from-append [] (line ++ 13 ∷ []) (text_of ls) (any-snoc (λ c. c == 10) line 13 h.0 refl)
    ∙ ap (◌∷◌ (without_cr (line ++ 13 ∷ []))) (split_lines-text_of ls h.1)
    ∙ ap (λ l. l ∷ map (λ (l : Bytes × Bool). l.0) ls) (without_cr-snoc line)
split_lines-text_of ((line, false) ∷ ls) h =
    ap (lines_from []) (append_assoc line (10 ∷ []) (text_of ls))
    ∙ lines_from-append [] line (text_of ls) h.0.0
    ∙ ap (◌∷◌ (without_cr line)) (split_lines-text_of ls h.1)
    ∙ ap (λ l. l ∷ map (λ (l : Bytes × Bool). l.0) ls) h.0.1
