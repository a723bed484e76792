-- ===== src/Query/Compile/Scan.antt =====
-- Reading the SQL text of internal/query/compile.go: its quotes, and the placeholders outside them.
use logpond.Base.{
  ℕ, ◌+◌, ◌≡◌, refl, ◌∙◌, Bool, true, false, [], ◌∷◌, ◌++◌, arith, ◌==◌, if◌then◌else◌,
}
use logpond.Base.Text.{Bytes, codes}
use logpond.Query.Event.{attribute_path}
use logpond.Query.Sql.{
  replace_all, quote_ident, column_expr, column_raw_json, compile_exists, lowered,
}

-- Where a reader of SQL stands: outside quotes, in a string, in a quoted identifier.
pub data Mode : Type 0 where
  plain single double : Mode

abbrev pub next_mode : Mode → ℕ → Mode
next_mode plain c = if c == b'\'' then single else if c == b'"' then double else plain
next_mode single c = if c == b'\'' then plain else single
next_mode double c = if c == b'"' then plain else double

abbrev pub is_mark : Mode → ℕ → ℕ
is_mark plain c = if c == b'?' then 1 else 0
is_mark _ c = 0

-- The mode behind a text, and the placeholders that stand outside quotes in it.
abbrev pub mode_after : Mode → Bytes → Mode
mode_after m [] = m
mode_after m (c ∷ cs) = mode_after (next_mode m c) cs

abbrev pub marks : Mode → Bytes → ℕ
marks m [] = 0
marks m (c ∷ cs) = is_mark m c + marks (next_mode m c) cs

mode_after-append : (m : Mode) (s t : Bytes) → mode_after m (s ++ t) ≡ mode_after (mode_after m s) t
mode_after-append m [] t = refl
mode_after-append m (c ∷ s) t = mode_after-append (next_mode m c) s t

marks-append : (m : Mode) (s t : Bytes) → marks m (s ++ t) ≡ marks m s + marks (mode_after m s) t
marks-append m [] t = omega arith
marks-append m (c ∷ s) t = omega (arith, marks-append (next_mode m c) s t)

-- From mode m to mode m', with k placeholders.
pub record Goes (m : Mode) (k : ℕ) (m' : Mode) (s : Bytes) : Type 0 where
  pub mode : mode_after m s ≡ m'
  pub count : marks m s ≡ k

pub Goes-append :
    {m n o : Mode} {j k : ℕ} {s t : Bytes} → Goes m j n s → Goes n k o t → Goes m (j + k) o (s ++ t)
Goes-append {m} {n} {o} {j} {k} {s} {t} g h = record {
  mode = mode_after-append m s t ∙ rw g.mode h.mode;
  count = rw (marks-append m s t) (rw (g.mode, g.count, h.count));
}

-- Doubled quotes do not leave the quotes.
Goes-single : (s : Bytes) → Goes single 0 single (replace_all b'\'' (codes "''") s)
unfolding replace_all
Goes-single [] = record { mode = refl; count = refl }
Goes-single (c ∷ cs) = record {
  mode = ground (arith, (Goes-single cs).mode);
  count = ground (arith, (Goes-single cs).count);
}

Goes-double : (s : Bytes) → Goes double 0 double (replace_all b'"' (codes "\"\"") s)
unfolding replace_all
Goes-double [] = record { mode = refl; count = refl }
Goes-double (c ∷ cs) = record {
  mode = ground (arith, (Goes-double cs).mode);
  count = ground (arith, (Goes-double cs).count);
}

-- A fragment that opens no quote that it does not close, with k placeholders.
abbrev pub IsClosed : ℕ → Bytes → Type 0
IsClosed k s = Goes plain k plain s

pub IsClosed-lit : (s : Bytes) → mode_after plain s ≡ plain → marks plain s ≡ 0 → IsClosed 0 s
IsClosed-lit s p q = record { mode = p; count = q }

pub IsClosed-quote_ident : (s : Bytes) → IsClosed 0 (quote_ident s)
IsClosed-quote_ident s =
    Goes-append {m = plain} {n = double} {j = 0} {k = 0} {s = codes "\""}
      (record { mode = refl; count = refl })
      (Goes-append {k = 0} (Goes-double s) (record { mode = refl; count = refl }))

pub IsClosed-path :
    (s : Bytes) → Goes single 0 plain (replace_all b'\'' (codes "''") s ++ codes "')")
IsClosed-path s = Goes-append (Goes-single s) (record { mode = refl; count = refl })

pub IsClosed-column_expr : (field : Bytes) (is_attr : Bool) → IsClosed 0 (column_expr field is_attr)
unfolding column_expr
IsClosed-column_expr field false = IsClosed-quote_ident field
IsClosed-column_expr field true =
    Goes-append {n = single} {j = 0} {s = codes "json_extract_string(attributes, '$."}
      (record { mode = refl; count = refl }) (IsClosed-path (attribute_path field))

pub IsClosed-compile_exists :
    (field : Bytes) (is_attr : Bool) → IsClosed 0 (compile_exists field is_attr)
unfolding compile_exists column_raw_json
IsClosed-compile_exists field false =
    Goes-append (IsClosed-quote_ident field) (IsClosed-lit (codes " IS NOT NULL") refl refl)
IsClosed-compile_exists field true =
    Goes-append
      (Goes-append {n = single} {j = 0} {s = codes "json_extract(attributes, '$."}
        (record { mode = refl; count = refl }) (IsClosed-path (attribute_path field)))
      (IsClosed-lit (codes " IS NOT NULL") refl refl)

pub recount : {m n : Mode} {s : Bytes} (j k : ℕ) → j ≡ k → Goes m j n s → Goes m k n s
recount j k e g = record { mode = g.mode; count = g.count ∙ e }

pub IsClosed-around :
    {k : ℕ} {s : Bytes} (before after : Bytes)
    → IsClosed 0 before
    → IsClosed 0 after
    → IsClosed k s
    → IsClosed k (before ++ (s ++ after))
IsClosed-around {k} before after b a h =
    recount (0 + (k + 0)) k (omega arith) (Goes-append b (Goes-append h a))

pub IsClosed-if :
    (b : Bool) (k : ℕ) (s t : Bytes) → IsClosed k s → IsClosed k t → IsClosed k (if b then s else t)
IsClosed-if true k s t h i = h
IsClosed-if false k s t h i = i

pub IsClosed-lowered :
    (fold : Bool) (k : ℕ) (s : Bytes) → IsClosed k s → IsClosed k (lowered fold s)
IsClosed-lowered false k s h = h
IsClosed-lowered true k s h =
    IsClosed-around (codes "LOWER(") (codes ")") (IsClosed-lit _ refl refl)
      (IsClosed-lit _ refl refl) h

-- A placeholder, lowered or not.
pub IsClosed-mark : (fold : Bool) → IsClosed 1 (lowered fold (codes "?"))
IsClosed-mark fold = IsClosed-lowered fold 1 (codes "?") (record { mode = refl; count = refl })
