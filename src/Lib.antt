-- ===== src/Lib.antt =====
-- Verification of marmosa, an event store over a storage of files.
--
-- The program. `MarmosaStore` (src/event_store/mod.rs) keeps each event in a file of its own in
-- `Events`, named by its position, and keeps for each event type and each tag an index file with
-- positions (src/event_store/indices.rs) in `Indices`. `append_async` takes the lock of the store,
-- checks a condition by a read, numbers the events, writes and indexes them; `read_async` resolves
-- a query to positions by the index files and reads the files. Both run on a `StorageBackend`
-- (src/ports.rs), of which `InMemoryStorage` (src/in_memory.rs) is one. Decisions
-- (src/decision_model) read, fold, decide, append on the condition of what was read, and retry.
-- A projection (src/projections.rs) folds the events of each key into a state: `ProjectionRunner`
-- applies events and keeps a checkpoint, and `StorageBackendProjectionStore` keeps the states in
-- files of the same storage, in `Projections`.
--
-- The files.
--   Common        list helpers, Boolean tests, sorted lists of positions
--   Text          the functions on `str` for file names: `format!("{:010}")`, `parse::<u64>`, ...
--   Domain        src/domain.rs
--   Exec          how an asynchronous method runs: a state is passed on, and the method returns,
--                 fails, or blocks on a lock; `Runs` is total correctness
--   Ports         src/ports.rs: the storage as a record of operations; the laws of one that has no
--                 faults (`IsReliable`), over what can be seen of it (`Disk`); `Platform` adds what
--                 is not in the repository: `serde_json` as codecs, and Unicode lower case
--   InMemory      src/in_memory.rs, and its instance of the laws
--   EventStore    Indices: src/event_store/indices.rs; Read and Append: src/event_store/mod.rs;
--                 Log: the abstract log and what a storage holds to represent it; Contract: what
--                 reads and appends promise
--   Decision      src/decision_model, and src/testing.rs (Harness)
--   Maintain      src/event_store/ledger.rs, files.rs, initializer.rs, options.rs,
--                 admin.rs, maintenance.rs
--   Extensions    src/extensions.rs and src/error.rs
--   History       sequences of appends, reads and deletions of a store
--   Projections   src/projections.rs and src/projections: Store, the states in files, and Runner,
--                 each with its parts; Contract, what a runner relies on in a store of states;
--                 Flagged, a storage with the flag of batch mode beside it; Composed, a runner over
--                 the event store and the store of states on one storage; TagIndex, MetadataIndex,
--                 Options and Rebuilder
--   Tests         a store in memory, and the theorems at concrete inputs
--
-- Names. Functions and fields keep the names of the source, often without `_async`, and with a word
-- for their type where two types have the same name: `tag_path` and `type_path` are the two
-- `get_file_path`, `command_ok` and `command_ok_with` the two `ok`. `DomainEvent.data` is `content`. A
-- loop has a name of its own, and the comment above it says which loop it is.
--
-- Numbers are those of a release build on 64 bits: `position + 1` wraps around. `digits` has fuel
-- for 20 digits, which every `u64` fits in, and `trim_json` as many rounds as the name has
-- characters, each of which drops five; no other loop has fuel. The clock is read once in an
-- append, and the reading is an argument.
--
-- One run is one task: what other tasks do between two steps of it is not modelled, except that a
-- lock may be held when it begins. `sanitize_name` maps several names to one index file; `IsPrecise`
-- says of a query and a log that for the records of the log the index files find just what the
-- query matches, which the results call exact index files.
--
-- A key of a projection is plain if it has no slash, so that its state file is directly in the
-- directory of the projection. `rebuild_all` runs its tasks one behind the other. The formats of
-- states, checkpoints and metadata are parameters; that they read back what they have written is a
-- condition, and the reader of the metadata index, which borrows its keys, has a law of its own.
-- `ProjectionWrapper.data` is `content`.
--
-- Not modelled: `to_domain_event`, whose event type is the compiler's name of a type; and the
-- binding in marmosa-wasm, which converts JavaScript values and has a storage on the files of Node.
pub mod Common
pub mod Text
pub mod Domain
pub mod Exec
pub mod Ports
pub mod EventStore
pub mod Decision
pub mod Maintain
pub mod History
pub mod Extensions
pub mod Projections
pub mod InMemory
pub mod Tests
