-- ===== src/Lib.antt =====
-- Logpond: a log store with a query language, an in-memory matcher, a SQL compiler, a catalog of
-- segment files, and a retention policy over them.
--
-- How the parts work together. A search text is parsed (internal/query/parser) to a filter tree
-- (internal/query/filter.go), which `Validate` checks. Stored events are selected by the SQL that the
-- compiler makes of the tree (internal/query/compile.go), events of the live tail by the matcher
-- (internal/query/match.go). New events wait in a buffer (internal/ingest/buffer.go) and are offered to
-- the live tails (internal/ingest/fanout.go). The segment files that hold the events are rows of the catalog
-- (internal/catalog/catalog.go). Retention (internal/retention/evaluator.go) and the eviction of
-- fetched segments (internal/api/evictor.go) read that table, remove files and write it.
--
-- Files.
--   Base: names that all modules share. A Go string is the list of its bytes; an int64 is a number
--     below 2 ^ 64 with its wrap-around written out (Base/Int64); a signed value of which no
--     overflow matters is an integer (Base/Int).
--   Query/Value, Query/Event: JSON values, `scalarValue` and its kin, the event row and its fields.
--     The record `Runtime` stands for the parts of Go's library that are not modelled (Unicode
--     lower case, floats, RFC 3339 times, JSON text); nothing is assumed of it.
--   Query/Filter: Node, Group, Leaf, `Validate`. Query/Match: `Match`, `MatchSearch`.
--   Query/Sql, Query/Compile: `Compile`, `CompileSearch`. The recursion returns its arguments where
--     the source appends to a shared slice, in the same order.
--   Parser/Lexer: `tokenize`, with one unit of fuel for each byte. Parser/State: the parser's
--     position, as the tokens from it on, and its warnings; a read behind the last token is
--     `panicked`. Parser/Predicate, Parser/Grammar: one function per `parse...` method, with one
--     unit of fuel for each token, since each loop round and each nesting takes a token.
--     Parser/Finalize: `finalize` and `Parse`.
--   Catalog/Segment: the row and the updates. Catalog/Table: one function per write. Catalog/Queries:
--     one function per SELECT; ORDER BY is a stable sort (Catalog/Order). Catalog/Keys: the writes
--     as a step relation. A statement that the database refuses for another reason than a key or a
--     missing row is not modelled, and a time is an instant, not its text in the database.
--   Retention/Plan: `plan` and `decide`. Retention/Host: the catalog, the local files, and what the
--     outside does: the clock, removals that fail, the archive backend. Retention/Run: `Run`.
--     Retention/Evictor: `Sweep`.
--   Ingest/Buffer: `Buffer` and `Flusher`; a call of the FlushFunc adds its batch to a list. A run is a
--     sequence of appends, ticks and signals in any order (Ingest/Buffer/Delivery, Shutdown); the loop of
--     drainAll has one unit of fuel more than the buffer has events, since each round but the last
--     takes one. Ingest/Fanout: `Fanout` and `Subscription`; each lock's critical section is one
--     step, and Cancel has two (Ingest/Fanout/Interleaved).
--   Catalog/CustomFacets: the statements on the table custom_facets. Facets/Definition, Registry: the
--     definition of a facet and the load (internal/facets/registry.go). Facets/Edits: CreateUI,
--     UpdateUI, DeleteUI, each under its lock one step on the table and the registry; Facets/Refines,
--     Protected, Listed: sequences of edits; Facets/Described: what the configuration makes of each name. A Go map is the list of its entries (Base/Assoc).
--   Query/Executor: Run and Count (internal/query/executor.go). Request: the checks and the compilation;
--     Statement: the texts; Format: the second Sprintf of the facet text, whose verbs other than %s and %%
--     are a parameter; Engine: the reads of a segment, with the open segments and DuckDB as functions
--     from a statement to its answer; Counting, Pages, Facets: the loops; Busy: the counts of readers.
--   Catalog/Jobs, Jobs/Manager: the table jobs and the job manager (internal/jobs/manager.go); the text of
--     JSON is a parameter. Jobs/Lifecycle: goroutines of Run in any interleaving with cancellation and the
--     collection of old rows; a cancelled context makes the writes that use it fail. Jobs/Foreground:
--     RunForeground, whose context may end at any call, and Get.
--   Catalog/Migrations: the runner of schema changes (internal/catalog/migrations.go); the SQL engine is a
--     parameter, and versions are natural numbers.
--   Ingest/Extractor: a JSON object becomes an event (internal/ingest/extractor.go); Attributes has the map
--     that the object and the event share below a nested path. Api/Auth, Api/Ingest: the handler of
--     POST /ingest (internal/api/auth.go, server.go), which reads the lines of a body (Lines), extracts
--     their events and appends them to the buffer.
--   Api/Rehydrate: the selection of segments, the work of a rehydration and the removal of one
--     (internal/api/rehydrate.go). The backend is a parameter; the work gives its calls of the job manager
--     as a list, which Jobs/Foreground takes.
--   Tests: runs at concrete inputs.
--
-- Not modelled: the other HTTP handlers and HTML, which decode requests and print what the parts above
-- give; the sockets of the live tail; DuckDB and SQLite themselves and the archive backends, which are
-- parameters; the segment manager, its recovery and the configuration, which read and write files;
-- logging and metrics, tickers and shutdown.
pub mod Base
pub mod Query
pub mod Parser
pub mod Catalog
pub mod Retention
pub mod Ingest
pub mod Facets
pub mod Jobs
pub mod Api
pub mod Tests
