-- ===== src/Api/Ingest.antt =====
-- internal/api/server.go: handleIngest. The body has arrived whole; gzip is a parameter. Append fails
-- in one way only, so the answer to another error of it is left out, and so are the metrics.
pub mod Lines
pub mod Answers
use logpond.Base.{
  ℕ, ◌+◌, Bool, true, false, List, [], ◌∷◌, ◌++◌, Option, none, some, length, take, ltb,
  if◌then◌else◌, ◌==◌, ◌||◌,
}
use logpond.Base.Assoc.{Assoc, lookup}
use logpond.Base.Result.{Result, ok, err}
use logpond.Base.Text.{Bytes, codes, equal}
use logpond.Query.Value.{Runtime, to_lower}
use logpond.Query.Match.{trim_space}
use logpond.Query.Event.{Event}
use logpond.Ingest.Buffer.{Buffer, Appended, append}
use logpond.Ingest.Extractor.{SourceSpec, Outside, extract}
use logpond.Api.Auth.{check}
use logpond.Api.Ingest.Lines.{split_lines}

-- maxDecompressedBody
abbrev pub max_body : ℕ
max_body = 33554432

pub record IngestRequest : Type 0 where
  pub source_name : Bytes
  pub authorization : Bytes
  pub content_type : Bytes
  pub content_encoding : Bytes
  pub body : Bytes

-- The JSON decoder and the clock; and gzip: at most so many bytes of what the body unpacks to, or no
-- result when the header or a block that is read is broken.
pub record World : Type 0 where
  pub runtime : Runtime
  pub outside : Outside
  pub gunzip : ℕ → Bytes → Option Bytes

-- The parts of the server that the handler uses; no tokens at all is a server without the check.
pub record Server : Type 0 where
  pub extractors : Assoc SourceSpec
  pub auth : Option (Assoc (List Bytes))
  pub buffer : Buffer Event

pub data BodyError : Type 0 where
  too_large : BodyError
  unsupported_encoding : BodyError
  broken : BodyError

-- Each answer of the handler; `accepted` has the counts of its body.
pub data Answer : Type 0 where
  unknown_source : Answer
  unauthorized : Answer
  bad_content_type : Answer
  bad_body : BodyError → Answer
  buffer_full : Answer
  accepted : ℕ → ℕ → Answer

unfoldable pub status_code : Answer → ℕ
status_code unknown_source = 404
status_code unauthorized = 401
status_code bad_content_type = 415
status_code (bad_body too_large) = 413
status_code (bad_body unsupported_encoding) = 415
status_code (bad_body broken) = 400
status_code buffer_full = 429
status_code (accepted a s) = 202

before_semicolon : Bytes → Bytes
before_semicolon [] = []
before_semicolon (c ∷ cs) = let rest = before_semicolon cs in if c == b';' then [] else c ∷ rest

-- acceptableContentType
unfoldable pub acceptable_content_type : Runtime → Bytes → Bool
unfolding before_semicolon
acceptable_content_type env [] = true
acceptable_content_type env (c ∷ cs) =
    let kind = to_lower env (trim_space env (before_semicolon (c ∷ cs))) in
    equal kind (codes "application/x-ndjson")
    || equal kind (codes "application/json")
    || equal kind (codes "application/ndjson")

abbrev capped : Bytes → Result BodyError Bytes
capped buf = if ltb max_body (length buf) then err too_large else ok buf

abbrev unpacked : Option Bytes → Result BodyError Bytes
unpacked none = err broken
unpacked (some buf) = capped buf

-- readBody
unfoldable pub read_body : World → IngestRequest → Result BodyError Bytes
read_body w r =
    let enc = trim_space w.runtime r.content_encoding in
    if equal enc [] || equal enc (codes "identity")
    then capped (take (max_body + 1) r.body)
    else if equal enc (codes "gzip")
    then unpacked (w.gunzip (max_body + 1) r.body)
    else err unsupported_encoding

-- What parseAndExtract returns.
pub record Extraction : Type 0 where
  pub accepted : ℕ
  pub skipped : ℕ
  pub events : List Event

abbrev with_line : Option Event → Extraction → Extraction
with_line none p = record p { skipped = p.skipped + 1 }
with_line (some ev) p = record p { events = p.events ++ ev ∷ []; accepted = p.accepted + 1 }

-- The loop of parseAndExtract; an empty line is not counted.
unfoldable pub parse_lines : (Bytes → Option Event) → List Bytes → Extraction → Extraction
parse_lines f [] p = p
parse_lines f ([] ∷ lines) p = parse_lines f lines p
parse_lines f ((c ∷ cs) ∷ lines) p = parse_lines f lines (with_line (f (c ∷ cs)) p)

abbrev pub nothing_yet : Extraction
nothing_yet = record { accepted = 0; skipped = 0; events = [] }

-- parseAndExtract
unfoldable pub parse_and_extract : World → SourceSpec → Bytes → Extraction
parse_and_extract w src body =
    parse_lines (extract w.runtime w.outside src) (split_lines body) nothing_yet

abbrev pub stored : Extraction → Server → Appended Event → Answer × Server
stored p s a =
    if a.taken
    then (accepted p.accepted p.skipped, record s { buffer = a.buffer })
    else (buffer_full, s)

abbrev pub with_body : World → SourceSpec → Server → Result BodyError Bytes → Answer × Server
with_body w src s (err e) = (bad_body e, s)
with_body w src s (ok body) =
    let p = parse_and_extract w src body in stored p s (append p.events s.buffer)

abbrev pub is_allowed : World → IngestRequest → Option (Assoc (List Bytes)) → Bool
is_allowed w r none = true
is_allowed w r (some tokens) = check w.runtime tokens r.source_name r.authorization

abbrev pub from_source : World → IngestRequest → Server → Option SourceSpec → Answer × Server
from_source w r s none = (unknown_source, s)
from_source w r s (some src) =
    if is_allowed w r s.auth
    then if acceptable_content_type w.runtime r.content_type
      then with_body w src s (read_body w r)
      else (bad_content_type, s)
    else (unauthorized, s)

-- handleIngest
unfoldable pub handle_ingest : World → IngestRequest → Server → Answer × Server
handle_ingest w r s = from_source w r s (lookup r.source_name s.extractors)
