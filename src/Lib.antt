-- ===== src/Lib.antt =====
-- A model of postgres-controller-backend: a store of Kubernetes objects in one PostgreSQL table, with
-- a client, lists and watches for controllers above it.
--
-- Parts, and how they meet. A client's call becomes a request to the writer; the writer calls the
-- stored procedure, or, with test hooks, runs a transaction of several statements; the table's rows
-- carry the id of the transaction that wrote them. A list reads the rows that are no tombstones and
-- reports a watermark below all running transactions, from which a watcher starts; it polls for rows
-- stamped above its mark; the relay turns its events into those of a Kubernetes watch, which an informer's
-- store follows. The compactor deletes old tombstones and raises a horizon, which makes a watcher that is
-- behind it list anew. A manager sets up the pool, the client and the cache of informers. The verifier
-- watches the events of one GVK and measures how long canaries take.
--
-- Base and Base/*          lists, texts as lists of codes, integers, results, Boolean tests
-- Json                     documents; `JSONEqual` of internal/writer/writer.go, SQL's jsonb equality
-- Model                    internal/model/types.go
-- Table                    the table of internal/schema/migrations/001_initial.sql, by its primary key
-- Writer/Params, Proc      `pgctl_write` of that file, one function for each branch
-- Writer/Client            `callStoredProc`, `mapStoredProcError`, `ReadBack`, `observeResult` of
--                          internal/writer/writer.go
-- Writer/Multi             `writeMultiStatement`, `writeStatusMultiStatement`,
--                          `writeObjectMultiStatement`, `execWriteInner` of the same file
-- Writer/Entry             `Write`, `WriteStatus`, `WriteObject`
-- Writer/Plain             a writer without hooks and doorbell
-- Writer/Upserts, Occ, Retry, Landed, Create, Split, Paths, Ambiguity, Effects   theorems on writes
-- Strconv, Strings, Base64   the parts of Go's packages that are used, over texts
-- Table/Keyed              tables in which no key stands twice
-- ResourceVersion          internal/resourceversion/rv.go
-- Reader/Shard             internal/reader/shard.go
-- Reader/Rows, Poll, Send  internal/reader/event.go, `pollAll` and `poll` of internal/reader/watcher.go
-- Reader/List              internal/reader/list.go
-- Reader/Run               `Run` of internal/reader/watcher.go
-- Reader/Listen            `listenLoop` of the same file
-- Doorbell                 internal/doorbell/doorbell.go
-- Compaction               pkg/compaction/compactor.go
-- Delivery and Delivery/*  writers, compactor and watcher over one database, step by step; in
--                          Delivery/Cache, an informer's store on top
-- Runtime/Convert          pkg/pgruntime/convert.go
-- Runtime/Relay, Resume    pkg/pgruntime/pgwatch.go
-- Runtime/Errors           pkg/pgruntime/errors.go
-- Runtime/Objects, Client   pkg/pgruntime/pgclient.go, but for its list; Runtime/Client/Life, Revisions
--                          and Answers are about what a call leaves for the next one
-- Runtime/Listing and its children   `List` of pkg/pgruntime/pgclient.go, with its continue tokens
-- Runtime/FieldSelector    pkg/pgruntime/fieldselector.go
-- Runtime/Gvk              the texts of GVKs, of pkg/pgruntime/convert.go
-- Runtime/Store            the store of client-go's informers, by its laws
-- Runtime/Informers        pkg/pgruntime/pgcache.go
-- Runtime/Watching         who closes a watch's connections, of pgwatch.go and pgcache.go there
-- Runtime/Tracer           pkg/pgruntime/tracer.go
-- Runtime/Manager and its children   pkg/pgruntime/pgmanager.go
-- Schema                   internal/schema/schema.go
-- Verifier and Verifier/*  internal/verifier/verifier.go
-- LoadTest                 loadtest/cmd/loadtest: Config, Report, Checkpoint, Main and Suite after the
--                          files config.go, reporter.go, checkpoint.go and main.go; Seeder and its
--                          children after seeder.go; Baseline, Ceiling, Steady, Avalanche and Polling
--                          after the files of the phases, with Floats and Traffic for what they share
-- Samples, Witnesses       concrete inputs for the theorems
--
-- The state is passed explicitly: the table, and with it the doorbells that a writer has rung. What the
-- server and the network decide is an argument of each call: the transaction id, the time and the uid
-- that it draws, whether the reply arrives, where a transaction fails, the snapshot's xmin, and the
-- hash of a namespace. `round` is the trip of a numeral through a float64, `owners_ok` says which owner
-- references decode, `inject` sets a field of a typed object, `new_object` and `known` stand for the
-- scheme, `print` is the server's text of a document, and `Codec` is encoding/json on continue tokens.
-- In the load test, `marshal` is encoding/json, `Floats` is float64 arithmetic, `random` gives the bytes
-- that are drawn for each document, and a phase meets the answers of its writes as a sequence.
--
-- Bounds. A uint64 has at most 20 digits, so printing takes 20 rounds. Versions are checked against
-- int64 where SQL and strconv do; the generation of an object and the offset of the next page wrap
-- around. Retention is in whole seconds. The counters of the verifier do not reach 2^63. A client that
-- follows continue tokens is given fuel for one page more than the table has rows, which is enough since
-- each page but the last has a row. A document that is padded is given one round for each byte of its
-- target, which is enough since each round adds a byte or more.
--
-- Not modelled: the texts of errors, metrics and timings; documents that are not valid JSON, and the
-- scale of a numeral, as in 1.0; hooks that
-- write to the table; other transactions between the statements of one call of `pgctl_write`, whose row
-- locks the server keeps; the order among rows of one stamp beyond that of the table; the buffer of the
-- watcher's channel; errors of a connection during a list; reflection on typed objects, as in setting the
-- items of a list; the accessors of the manager; what is printed and logged; the connections and
-- goroutines of the load test's phases, which start the writers, watchers and verifiers modelled here;
-- the sample controller and the test infrastructure.
pub mod Base
pub mod Json
pub mod Model
pub mod Schema
pub mod Table
pub mod Writer
pub mod Strconv
pub mod Strings
pub mod Base64
pub mod ResourceVersion
pub mod Doorbell
pub mod Reader
pub mod Compaction
pub mod Delivery
pub mod Runtime
pub mod Verifier
pub mod LoadTest
pub mod Samples
pub mod Witnesses
