-- ===== src/Api/Ingest/Answers.antt =====
-- internal/api/server.go: what handleIngest does to the buffer, by the answer that it gives.
use logpond.Base.{
  ℕ, ◌+◌, ◌≡◌, refl, sym, ap, ◌∙◌, Bool, true, false, not, List, [], ◌∷◌, ◌++◌, Option, none, some,
  length, filter, ltb, Bool-cases, inl, inr, arith,
}
use mathlib.Core.List.{append-nil, append_assoc}
use logpond.Base.Assoc.{lookup}
use logpond.Base.Result.{Result, ok, err}
use logpond.Base.Text.{Bytes}
use logpond.Query.Event.{Event}
use logpond.Ingest.Buffer.{Buffer, append}
use logpond.Ingest.Extractor.{SourceSpec, extract}
use logpond.Api.Ingest.{
  IngestRequest, World, Server, BodyError, Answer, accepted, acceptable_content_type, read_body,
  Extraction, with_line, parse_lines, nothing_yet, parse_and_extract, with_body, is_allowed,
  from_source, handle_ingest,
}
use logpond.Api.Ingest.Lines.{split_lines}

abbrev pub is_empty : Bytes → Bool
is_empty [] = true
is_empty (c ∷ cs) = false

-- The lines of a body that count.
abbrev pub lines_of : Bytes → List Bytes
lines_of body = filter (λ l. not (is_empty l)) (split_lines body)

abbrev with_result : Option Event → List Event → List Event
with_result none evs = evs
with_result (some ev) evs = ev ∷ evs

-- The events of those lines that give one, in order.
abbrev pub events_in : (Bytes → Option Event) → List Bytes → List Event
events_in f [] = []
events_in f (l ∷ ls) = with_result (f l) (events_in f ls)

-- A batch as it is stored: the source is known and the request allowed; the events of the lines stand
-- behind those of before, and both counts are right.
pub record Stored (w : World) (r : IngestRequest) (s s' : Server) (a skipped : ℕ) : Type 0 where
  pub source : SourceSpec
  pub body : Bytes
  pub known : lookup r.source_name s.extractors ≡ some source
  pub allowed : is_allowed w r s.auth ≡ true
  pub is_body : read_body w r ≡ ok body
  pub events :
      s'.buffer.events
      ≡ s.buffer.events ++ events_in (extract w.runtime w.outside source) (lines_of body)
  pub counted : length (events_in (extract w.runtime w.outside source) (lines_of body)) ≡ a
  pub all_lines : a + skipped ≡ length (lines_of body)

abbrev pub Answers : World → IngestRequest → Server → Answer × Server → Type 0
Answers w r s (accepted a skipped, s') = Stored w r s s' a skipped
Answers w r s (_, s') = s' ≡ s

record Reads (f : Bytes → Option Event) (lines : List Bytes) (p q : Extraction) : Type 0 where
  pub events : q.events ≡ p.events ++ events_in f (filter (λ l. not (is_empty l)) lines)
  pub accepted :
      q.accepted ≡ p.accepted + length (events_in f (filter (λ l. not (is_empty l)) lines))
  pub all_lines :
      q.accepted + q.skipped
      ≡ p.accepted + p.skipped + length (filter (λ l. not (is_empty l)) lines)

parse_lines-Reads :
    (f : Bytes → Option Event) (lines : List Bytes) (p : Extraction)
    → Reads f lines p (parse_lines f lines p)
unfolding parse_lines
parse_lines-Reads f [] p = record {
  events = sym (append-nil p.events);
  accepted = omega arith;
  all_lines = omega arith;
}
parse_lines-Reads f ([] ∷ lines) p =
    let h = parse_lines-Reads f lines p in
    record { events = h.events; accepted = h.accepted; all_lines = h.all_lines }
parse_lines-Reads f ((c ∷ cs) ∷ lines) p =
    let (e, a, l) = joined (f (c ∷ cs)) (parse_lines-Reads f lines (with_line (f (c ∷ cs)) p)) in
    record { events = e; accepted = a; all_lines = l }
  where
    found : List Event
    found = events_in f (filter (λ l. not (is_empty l)) lines)

    joined :
        (o : Option Event) {q : Extraction}
        → Reads f lines (with_line o p) q
        → (q.events ≡ p.events ++ with_result o found)
          × (q.accepted ≡ p.accepted + length (with_result o found))
          × (q.accepted + q.skipped
              ≡ p.accepted + p.skipped + length ((c ∷ cs) ∷ filter (λ l. not (is_empty l)) lines))
    joined none h = (h.events, h.accepted, omega (arith, h.all_lines))
    joined (some ev) h = (
      h.events ∙ append_assoc p.events (ev ∷ []) found,
      omega (arith, h.accepted),
      omega (arith, h.all_lines),
    )

append-taken :
    {E : Type 0} (es : List E) (b : Buffer E)
    → (append es b).taken ≡ true
    → (append es b).buffer.events ≡ b.events ++ es
unfolding append
append-taken [] b h = sym (append-nil b.events)
append-taken (e ∷ es) b h = elim (Bool-cases (ltb b.cap (length b.events + length (e ∷ es)))) [
  | inl full ↦ absurd (ground (arith, h, full))
  | inr fits ↦ rw fits refl
]

module _ (w : World) (r : IngestRequest) (s : Server) (src : SourceSpec)
    (known : lookup r.source_name s.extractors ≡ some src)
    (allowed : is_allowed w r s.auth ≡ true) where
  with_body-Answers :
      (b : Result BodyError Bytes) → read_body w r ≡ b → Answers w r s (with_body w src s b)
  unfolding parse_and_extract
  with_body-Answers (err e) q = refl
  with_body-Answers (ok body) q =
      let p = parse_and_extract w src body in
      let reads =
        parse_lines-Reads (extract w.runtime w.outside src) (split_lines body) nothing_yet in
      elim (Bool-cases (append p.events s.buffer).taken) [
        | inl t ↦ rw t (record {
          source = src;
          body = body;
          known = known;
          allowed = allowed;
          is_body = q;
          events = append-taken p.events s.buffer t ∙ ap (◌++◌ s.buffer.events) reads.events;
          counted = omega (arith, reads.accepted);
          all_lines = omega (arith, reads.all_lines);
        })
        | inr t ↦ rw t refl
      ]

-- Whatever the request: if the answer is that the batch was accepted, its source is configured and its
-- token was accepted, the buffer has the events of the body's lines behind those it had, in order, and
-- the two counts are those of the events and of the lines, the empty ones left out. On every other
-- answer the server is as it was.
pub handle_ingest-Answers :
    (w : World) (r : IngestRequest) (s : Server) → Answers w r s (handle_ingest w r s)
unfolding handle_ingest
handle_ingest-Answers w r s = by (lookup r.source_name s.extractors) refl
  where
    by :
        (o : Option SourceSpec)
        → lookup r.source_name s.extractors ≡ o
        → Answers w r s (from_source w r s o)
    by none q = refl
    by (some src) q = elim (Bool-cases (is_allowed w r s.auth)) [
      | inr d ↦ rw d refl
      | inl y ↦ elim (Bool-cases (acceptable_content_type w.runtime r.content_type)) [
        | inr d ↦ rw (y, d) refl
        | inl t ↦ rw (y, t) (with_body-Answers w r s src q y (read_body w r) refl)
      ]
    ]
