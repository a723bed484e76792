-- ===== src/Ingest/Extractor/Levels.antt =====
-- internal/ingest/extractor.go: the names of levels.
use logpond.Base.{
  ◌≡◌, refl, subst, Bool, true, [], ◌∷◌, Option, none, some, some-injective, any, all,
  if◌then◌else◌, Bool-cases, inl, inr, &&-eq-true,
}
use logpond.Base.Assoc.{Assoc, lookup}
use logpond.Base.Text.{Bytes, codes, equal}
use logpond.Query.Value.{Runtime, to_lower}
use logpond.Query.Match.{trim_space}

abbrev pub debug_level : Bytes
debug_level = codes "debug"

abbrev pub info_level : Bytes
info_level = codes "info"

abbrev pub warn_level : Bytes
warn_level = codes "warn"

abbrev pub error_level : Bytes
error_level = codes "error"

-- levelMap
abbrev pub level_map : Assoc Bytes
level_map =
    (codes "trace", debug_level)
    ∷ (codes "debug", debug_level)
    ∷ (codes "dbg", debug_level)
    ∷ (codes "0", debug_level)
    ∷ (codes "1", debug_level)
    ∷ (codes "info", info_level)
    ∷ (codes "information", info_level)
    ∷ (codes "notice", info_level)
    ∷ (codes "2", info_level)
    ∷ (codes "3", info_level)
    ∷ (codes "warn", warn_level)
    ∷ (codes "warning", warn_level)
    ∷ (codes "4", warn_level)
    ∷ (codes "error", error_level)
    ∷ (codes "err", error_level)
    ∷ (codes "critical", error_level)
    ∷ (codes "crit", error_level)
    ∷ (codes "fatal", error_level)
    ∷ (codes "emerg", error_level)
    ∷ (codes "alert", error_level)
    ∷ (codes "panic", error_level)
    ∷ (codes "5", error_level)
    ∷ (codes "6", error_level)
    ∷ (codes "7", error_level)
    ∷ []

-- The results of normalizeLevelString; an empty text stands for none.
pub record LevelText : Type 0 where
  pub norm : Bytes
  pub original : Bytes
  pub unrecognized : Bytes

abbrev level_named : Bytes → Option Bytes → LevelText
level_named trimmed none = record { norm = info_level; original = []; unrecognized = trimmed }
level_named trimmed (some n) = record {
  norm = n;
  original = if equal n trimmed then [] else trimmed;
  unrecognized = [];
}

-- normalizeLevelString
unfoldable pub normalize_level : Runtime → Bytes → LevelText
normalize_level env raw =
    let trimmed = trim_space env raw in
    level_named trimmed (lookup (to_lower env trimmed) level_map)

-- One of the four levels.
unfoldable pub is_level : Bytes → Bool
is_level s = any (equal s) (debug_level ∷ info_level ∷ warn_level ∷ error_level ∷ [])

lookup-all {ℓ} :
    {V : Type ℓ} (p : V → Bool) (k : Bytes) (m : Assoc V) (v : V)
    → all (λ e. p e.1) m ≡ true
    → lookup k m ≡ some v
    → p v ≡ true
lookup-all {V} p k [] v h e = absurd (cc)
lookup-all {V} p k ((j, u) ∷ m) v h e = elim (Bool-cases (equal j k)) [
  | inl q ↦ subst (λ x. p x ≡ true) (some-injective u v (rw q at e)) (&&-eq-true _ _ h).0
  | inr q ↦ lookup-all p k m v (&&-eq-true _ _ h).1 (rw q at e)
]

level_map-is_level : all (λ e. is_level e.1) level_map ≡ true
unfolding is_level equal
level_map-is_level = refl

pub info-is_level : is_level info_level ≡ true
unfolding is_level equal
info-is_level = refl

-- Whatever the text, the result is a level.
pub normalize_level-is_level :
    (env : Runtime) (raw : Bytes) → is_level (normalize_level env raw).norm ≡ true
unfolding normalize_level
normalize_level-is_level env raw = by (lookup (to_lower env (trim_space env raw)) level_map) refl
  where
    by :
        (o : Option Bytes)
        → lookup (to_lower env (trim_space env raw)) level_map ≡ o
        → is_level (level_named (trim_space env raw) o).norm ≡ true
    by none e = info-is_level
    by (some v) e =
        lookup-all is_level (to_lower env (trim_space env raw)) level_map v level_map-is_level e
