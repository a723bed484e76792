-- ===== src/Ingest/Extractor/Normal.antt =====
-- internal/ingest/extractor.go: the columns of the event that do not come from a path as they are.
use logpond.Base.{
  ◌≡◌, refl, sym, subst, ap, ◌∙◌, Bool, true, false, List, [], ◌∷◌, Option, none, some,
  some-injective, any,
}
use logpond.Base.Int.{ℤ}
use logpond.Base.Text.{Bytes, codes}
use logpond.Query.Value.{Value, null, str, bool, float, int, number, arr, obj, Runtime}
use logpond.Query.Event.{Event}
use logpond.Ingest.Extractor.{
  SourceSpec, Outside, paths_of, resolve, coerce_timestamp, read_level, read_message, read_string,
  with_text, set_timestamp, set_level, set_message, set_service, set_host, timed, levelled,
  messaged, serviced, hosted, draft_of, event_of, of_value, extract, level_original,
  level_unrecognized,
}
use logpond.Ingest.Extractor.Levels.{LevelText, is_level, info-is_level}
use logpond.Ingest.Extractor.Attributes.{Draft, remove_path}
use logpond.Ingest.Extractor.Kept.{Found, resolve-Found, read_level-is_level}

-- The columns that only the level's step writes.
abbrev columns : Draft → Bytes × Bytes × Bytes
columns d = (d.event.level, d.event.source, d.event.raw)

with_text-columns : (key s : Bytes) (d : Draft) → columns (with_text key s d) ≡ columns d
with_text-columns key [] d = refl
with_text-columns key (c ∷ cs) d = refl

set_timestamp-columns :
    (now : ℤ) (r : Option (ℤ × Bytes)) (d : Draft) → columns (set_timestamp now r d) ≡ columns d
unfolding remove_path
set_timestamp-columns now none d = refl
set_timestamp-columns now (some (t, p)) d = refl

set_message-columns :
    (r : Option (Bytes × Bytes)) (d : Draft) → columns (set_message r d) ≡ columns d
unfolding remove_path
set_message-columns none d = refl
set_message-columns (some (m, p)) d = refl

set_service-columns :
    (r : Option (Bytes × Bytes)) (d : Draft) → columns (set_service r d) ≡ columns d
unfolding remove_path
set_service-columns none d = refl
set_service-columns (some (s, p)) d = refl

set_host-columns : (r : Option (Bytes × Bytes)) (d : Draft) → columns (set_host r d) ≡ columns d
unfolding remove_path
set_host-columns none d = refl
set_host-columns (some (h, p)) d = refl

any-false : (ps : List Bytes) → any (λ p. false) ps ≡ false
any-false [] = refl
any-false (p ∷ ps) = any-false ps

abbrev level_or_info : Option (LevelText × Bytes) → Bytes
level_or_info none = codes "info"
level_or_info (some (l, p)) = l.norm

set_level-columns :
    (r : Option (LevelText × Bytes)) (d : Draft)
    → columns (set_level r d) ≡ (level_or_info r, d.event.source, d.event.raw)
unfolding remove_path
set_level-columns none d = refl
set_level-columns (some (l, p)) d =
    with_text-columns level_unrecognized l.unrecognized _
    ∙ with_text-columns level_original l.original _

level_or_info-is_level :
    (r : Option (LevelText × Bytes))
    → Found (λ l p. (is_level l.norm ≡ true) × (◌≡◌ {A = Bool} false false)) r
    → is_level (level_or_info r) ≡ true
level_or_info-is_level none h = info-is_level
level_or_info-is_level (some (l, p)) h = h.0

-- Whatever the line and the configured paths, the event that Extract gives has one of the levels debug,
-- info, warn and error, the configured name as its source, and the line as its raw text.
pub extract-is_level :
    (env : Runtime) (out : Outside) (src : SourceSpec) (line : Bytes) (ev : Event)
    → extract env out src line ≡ some ev
    → (is_level ev.level ≡ true) × (ev.source ≡ src.name) × (ev.raw ≡ line)
unfolding extract event_of
extract-is_level env out src line ev e = by (out.decode line) e
  where
    by :
        (v : Option Value)
        → of_value env out src line v ≡ some ev
        → (is_level ev.level ≡ true) × (ev.source ≡ src.name) × (ev.raw ≡ line)
    by none e = absurd (cc)
    by (some (obj object)) e =
        let d0 = draft_of env out src line object in
        let d1 = timed env out src d0 in
        let d2 = levelled env out src d1 in
        let d3 = messaged env out src d2 in
        let d4 = serviced env out src d3 in
        let r = resolve (read_level env) (paths_of (codes "level") src) d1.object in
        let found =
          resolve-Found (λ l. is_level l.norm ≡ true) (λ p. false) (read_level env)
            (paths_of (codes "level") src) d1.object (read_level-is_level env)
            (any-false (paths_of (codes "level") src)) in
        let same =
          ap (λ (x : Event). (x.level, x.source, x.raw))
            (sym (some-injective (hosted env out src d4).event ev e)) in
        let all =
          same
          ∙ set_host-columns (resolve read_string (paths_of (codes "host") src) d4.object) d4
          ∙ set_service-columns (resolve read_string (paths_of (codes "service") src) d3.object) d3
          ∙ set_message-columns
              (resolve (read_message env) (paths_of (codes "message") src) d2.object) d2
          ∙ set_level-columns r d1
          ∙ ap (λ (t : Bytes × Bytes × Bytes). (level_or_info r, t.1, t.2))
              (set_timestamp-columns out.now
                (resolve (coerce_timestamp env out) (paths_of (codes "timestamp") src) object)
                d0) in
        (
          subst (λ x. is_level x ≡ true) (sym (ap (λ t. t.0) all)) (level_or_info-is_level r found),
          ap (λ t. t.1) all,
          ap (λ t. t.2) all,
        )
    by (some null) e = absurd (cc)
    by (some (str s)) e = absurd (cc)
    by (some (bool b)) e = absurd (cc)
    by (some (float x)) e = absurd (cc)
    by (some (int i)) e = absurd (cc)
    by (some (number s)) e = absurd (cc)
    by (some (arr vs)) e = absurd (cc)
