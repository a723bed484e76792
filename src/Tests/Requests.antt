-- ===== src/Tests/Requests.antt =====
-- Runs of internal/ingest/extractor.go and of the ingest handler of internal/api.
use logpond.Base.{◌≡◌, refl, Bool, true, false, List, [], ◌∷◌, none, some, any, if◌then◌else◌}
use logpond.Base.Int.{pos, ◌+ℤ◌}
use logpond.Base.Text.{Bytes, codes, equal, equal_fold}
use logpond.Query.Value.{str, number, obj, Fields, end, field, parse_int, to_lower}
use logpond.Query.Event.{Event, split_dots, get_field}
use logpond.Query.Match.{trim_space}
use logpond.Ingest.Buffer.{append}
use logpond.Ingest.Extractor.{
  SourceSpec, Outside, lookup_path, resolve, unix_to_time, coerce_timestamp, read_level,
  read_message, read_string, event_of, extract, marks,
}
use logpond.Ingest.Extractor.Levels.{normalize_level, is_level}
use logpond.Ingest.Extractor.Attributes.{put_field, drop_field, delete_at, remove_path}
use logpond.Ingest.Extractor.Kept.{is_used, extract-get_field}
use logpond.Ingest.Extractor.Normal.{extract-is_level}
use logpond.Api.Auth.{extract_bearer, matches_any, check, matches_any-any}
use logpond.Api.Ingest.{
  IngestRequest, World, Server, accepted, unauthorized, acceptable_content_type, read_body,
  parse_lines, parse_and_extract, handle_ingest,
}
use logpond.Api.Ingest.Lines.{split_lines, text_of, split_lines-text_of}
use logpond.Api.Ingest.Answers.{Answers, handle_ingest-Answers}
use logpond.Tests.Sample.{runtime}

-- {"ts": 1700000000, "lvl": "WARNING", "ctx": {"msg": "hi", "id": "7"}, "n": "1"}
abbrev object : Fields
object = field (codes "ts") (number (codes "1700000000")) (
    field (codes "lvl") (str (codes "WARNING")) (
      field (codes "ctx")
        (obj (field (codes "msg") (str (codes "hi")) (field (codes "id") (str (codes "7")) end)))
        (field (codes "n") (str (codes "1")) end)))

-- A line of one "{" stands for the object.
abbrev outside : Outside
outside = record {
  decode = λ s. if equal s (codes "{") then some (obj object) else none;
  parse_rfc3339 = λ s. none;
  now = pos 5;
}

abbrev app : SourceSpec
app = record {
  name = codes "app";
  extract =
      (codes "timestamp", codes "time" ∷ codes "ts" ∷ [])
      ∷ (codes "level", codes "lvl" ∷ [])
      ∷ (codes "message", codes "ctx.msg" ∷ [])
      ∷ (codes "host", codes "ctx.msg" ∷ [])
      ∷ [];
}

abbrev extracted : Event
extracted = record {
  timestamp = pos 63835596800000000000;
  service = [];
  level = codes "warn";
  message = codes "hi";
  host = [];
  source = codes "app";
  attributes = field (codes "ctx") (obj (field (codes "id") (str (codes "7")) end)) (
      field (codes "n") (str (codes "1"))
        (field (codes "logpond_level_original") (str (codes "WARNING")) end));
  raw = codes "{";
}

-- The host's path is that of the message: the delete below "ctx" has taken the value from the object.
line_extracted : extract runtime outside app (codes "{") ≡ some extracted
unfolding extract event_of resolve coerce_timestamp read_level read_message read_string lookup_path
    split_dots get_field put_field drop_field delete_at remove_path parse_int unix_to_time
    normalize_level trim_space to_lower equal ◌+ℤ◌
line_extracted = refl

not_an_object : extract runtime outside app (codes "[") ≡ none
unfolding extract equal
not_an_object = refl

n_unused : is_used (codes "n") app ≡ false
unfolding equal split_dots
n_unused = refl

n_no_mark : any (λ j. equal j (codes "n")) marks ≡ false
unfolding equal
n_no_mark = refl

decoded : outside.decode (codes "{") ≡ some (obj object)
unfolding equal
decoded = refl

extract-get_field_example :
    get_field (codes "n") extracted.attributes ≡ get_field (codes "n") object
extract-get_field_example =
    extract-get_field runtime outside app (codes "n") n_unused n_no_mark (codes "{") object
      extracted decoded line_extracted

extract-is_level_example :
    (is_level extracted.level ≡ true) × (extracted.source ≡ app.name) × (extracted.raw ≡ codes "{")
extract-is_level_example = extract-is_level runtime outside app (codes "{") extracted line_extracted

abbrev ended : List (Bytes × Bool)
ended = (codes "{", true) ∷ ([], false) ∷ (codes "[", false) ∷ []

split_lines-text_of_example : split_lines (text_of ended) ≡ codes "{" ∷ [] ∷ codes "[" ∷ []
split_lines-text_of_example = split_lines-text_of ended (refl, ((refl, refl), ((refl, refl), tt)))

abbrev world : World
world = record { runtime = runtime; outside = outside; gunzip = λ n s. none }

abbrev request : IngestRequest
request = record {
  source_name = codes "app";
  authorization = codes "bearer  s3cret";
  content_type = codes "application/json; charset=utf-8";
  content_encoding = [];
  body = text_of ended;
}

abbrev server : Server
server = record {
  extractors = (codes "app", app) ∷ [];
  auth = some ((codes "app", codes "other" ∷ codes "s3cret" ∷ []) ∷ []);
  buffer = record { events = []; cap = 4; notify = false; fill = 0 };
}

token_read : extract_bearer runtime (codes "Bearer  s3cret ") ≡ some (codes "s3cret")
unfolding extract_bearer trim_space equal_fold equal
token_read = refl

answered : (handle_ingest world request server).0 ≡ accepted 1 1
unfolding handle_ingest check extract_bearer matches_any acceptable_content_type read_body
    parse_and_extract parse_lines split_lines extract event_of resolve coerce_timestamp read_level
    read_message read_string lookup_path split_dots get_field put_field drop_field delete_at
    remove_path parse_int unix_to_time normalize_level trim_space to_lower equal equal_fold append
    ◌+ℤ◌
answered = refl

turned_away :
    (handle_ingest world (record request { authorization = codes "bearer oth" }) server).0
    ≡ unauthorized
unfolding handle_ingest check extract_bearer matches_any trim_space equal equal_fold
turned_away = refl

handle_ingest-Answers_example : Answers world request server (handle_ingest world request server)
handle_ingest-Answers_example = handle_ingest-Answers world request server

token_found :
    matches_any (codes "s3cret") (codes "other" ∷ codes "s3cret" ∷ [])
    ≡ any (equal (codes "s3cret")) (codes "other" ∷ codes "s3cret" ∷ [])
token_found = matches_any-any (codes "s3cret") (codes "other" ∷ codes "s3cret" ∷ [])
