-- ===== src/Lib.antt =====
-- Verification of bydb, a partitioned document store that is replicated by Raft.
--
-- The program. A client sends a text command by gRPC. `Crud` (api/api.go) parses it (command/command.go)
-- and, by its type, proposes it to the Raft node host, reads through it, or changes the membership. The
-- node host calls the state machine (statemachine/statemachine.go): `Update` gives each command of a
-- batch its status and puts the accepted ones into a queue, `Sync` applies the queue to the shards
-- (statemachine/shard.go), one for each first character of a partition's name, and stores the index of
-- the last log entry, and `Lookup` answers reads from the queue and the shards. A shard keeps the
-- documents in BoltDB, one bucket for each partition, and a full-text index in Bleve.
--
-- The files.
--   Base             shared names, tests on numbers and texts, lists, `Int` (int64) and `Decimal`
--                    (strconv.ParseUint, strconv.ParseInt and %d)
--   Document         document/document.go
--   Response         response/response.go
--   Codec            encoding/json as the program uses it, and the search results
--   Command          command/command.go. Types: the records; Pattern: the regular expressions;
--                    Formats: `CommandFormats` and `ParseCommand`; Grammar: the requests on their own;
--                    RoundTrip and Sound: the parser against the grammar; Safe: its
--                    slice indices
--   Bolt, Bleve      the interfaces to BoltDB, with its laws, and to Bleve; Bolt/Model meets the laws
--   Shard            statemachine/shard.go. Defs: the operations; Applied: the store after `ApplyUpdates`;
--                    Buckets and Folded: the partitions, and a queue as a fold;
--                    Indexed, Keys and Searchable: the search index against the store
--   Machine          statemachine/statemachine.go. Entry: the records of an update and
--                    `findCommandInPending`; Update: `Update`; Sync: `Sync`, `Open` and the stored index;
--                    Lookup: `Lookup` and the shard's `Search`. The proofs: Queue, Synced, Stable, Order
--                    and Queues on the queue, Index, Reads, Invariant, Solo (one command), Batches, Split,
--                    Plain, Detached, Renumbered and Pieces (where a log is cut into batches), Waits
--                    and Durable (the life of a machine), Searches (the search index), Told, Represented,
--                    Firm, Fresh, Answers, Runs and Refines (a machine as a document store), Reposts (a POST
--                    behind a deletion). Snapshot: the snapshot methods; Recovery: the index that goes
--                    with a snapshot. Close: `Close`
--   Config           config/config.go
--   Dir              dir/dir.go
--   Server           `main` of server.go up to the start of the replica
--   Files            the interface to the file system, with its laws; Files/Model meets them
--   Zipper           zipper/zipper.go. `Untar` and what it leaves; Names: the names in an archive; Tar:
--                    `Tar`; RoundTrip: both
--   Client           client.go. `validate` and the body of the loop of `main`; Forms and Validate: against
--                    the parser; Session: the loop
--   Logger           logger/logger.go
--   Preseed          preseed.go. `TestBatch.Run` and the commands of `main`; Slices: the words of the
--                    workers; Durations: the results of workers that do not interrupt each other; Race and
--                    Reports: in any order; Requests: the commands as the parser reads them;
--                    Main: `main`; Served: its runs against servers that accept every call
--   Learn            learn/bolt-bleve, the trial of a store. Partition and Store: the operations; Held,
--                    Stored and Replay: the store against a map
--   Api              api/api.go. Defs: `Crud`; Laws: its calls; Served: in front of the state machine
--   Tests            examples, and each property at concrete data
--
-- The model.
--   * A Go string is valid UTF-8, as its code points; []byte is the string that it holds.
--   * A shard's files, BoltDB and Bleve are values that a step takes and returns. A transaction that
--     fails leaves the old value. Bleve's content is the list of the batches committed to it.
--   * `range` over a Go map is by a list of keys that is a parameter, so that a statement is for every
--     order. The goroutines of `Sync` touch different shards and are run in that order.
--   * A panic is `none`, `panicked` or `index_panic`, beside the returned errors.
--   * A uint64 is a natural number; where the code adds to one or subtracts from it, `% 2 ^ 64` is
--     written out. `%d` prints with one unit of fuel for each step of n + 1, which bounds its digits.
--   * JSON, YAML, BoltDB, Bleve and the Raft node host are parameters. A JSON decoder is a function from
--     a text to a document or an error.
--   * The document store that the results speak of is the record `Store` of Machine/Represented: which
--     partitions there are, and the text of each document. Its answers are `status` of Machine/Solo.
--   * A float64 is its bit pattern, and no program part computes with one.
--   * The gzip and tar formats are parameters, from the headers and bodies to a text and back. What
--     `filepath.Walk` comes by is a list.
--   * `RecoverFromSnapshot` writes the files below open databases. Nothing documents what these show then,
--     so the model leaves them as they were, and no result speaks of them: what is said of a recovery is
--     said of a machine that opens from its files.
--   * The workers of the load generator make their calls over replies that are a parameter, and a worker's
--     calls touch nothing shared. At its end each checks and sets the results of the run with no lock:
--     the order of those reads and writes is a parameter, with each of them atomic.
--   * The patterns are those of the code. main_test.go also expects a DEL and a PUT without a timestamp,
--     which the patterns do not take.
--   * The patterns of the commands are run by a matcher of Command/Pattern, which stands for Go's regexp
--     on patterns of this form, with greedy groups.
--
-- Not modelled: the gRPC plumbing, opening and closing of files, the prompt of the client, the word list
-- and the connections of the load generator, and the other trials under learn/, which are no part of the
-- program; learn/raft/main.go is a changed copy of an example of the Raft library.
pub mod Base
pub mod Document
pub mod Response
pub mod Codec
pub mod Command
pub mod Bolt
pub mod Bleve
pub mod Shard
pub mod Machine
pub mod Client
pub mod Config
pub mod Learn
pub mod Logger
pub mod Preseed
pub mod Api
pub mod Files
pub mod Zipper
pub mod Dir
pub mod Server
pub mod Tests
