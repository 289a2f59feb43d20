-- ===== src/Lib.antt =====
-- Pulpitum: buckets of records that move from a durable hot store to an immutable archive.
--
-- The program keeps records by partition and event time. A table definition derives, for each
-- record, the calendar bucket that holds it. A durable store keeps the records of a bucket, its
-- routing state (hot, archiving, archived) and a fencing generation with an owner and a lease. A
-- coordinator closes the bucket's write fence, uploads a snapshot to an archive store, publishes
-- the object's key and deletes the hot records. The table routes appends and reads by the state.
--
-- Base: numbers, lists, orders, stable sorting, maps, texts. A number is a native one; `u64` and
-- `usize` bounds are written out where the source checks them. A text is the list of its code
-- points, a `HashMap` an association list.
--
-- Domain (src/domain): Model has keys, records, cursors, ranges, strategies and bucket IDs.
-- Calendar is the chrono crate as a parameter with its documented laws. Buckets derives the key and
-- the bounds of a bucket (`bucket_bounds`, `for_event_time_with_strategy`), Schema validates
-- definitions and lists the buckets of a range and of the write window. An instant is the number
-- of ticks since the earliest one. `none` is a panic of the source. The loop over a range has
-- fuel: each round passes an instant of the range.
--
-- Store (src/ports/storage.rs): State has the types and tests on an entry, Memory one
-- function for each operation of `InMemoryDurableBucketStore`, Discovery `discover_archive_work`,
-- which Claims and Due compare with the claims.
-- Every operation holds the lock of the source throughout, so it is one step. Env gives an
-- operation what it reads from the clock and the generator of tokens. History runs sequences of
-- operations of any clients; Lifecycle is the abstract state machine of one bucket.
--
-- Archive (src/ports/storage.rs, src/application/durable_archive.rs): Port is the trait
-- `ArchiveStore` as a record of operations on a world, with the law that clients rely on; Memory is
-- `InMemoryArchiveStore`, whose object keys Generations is about; Coordinator is
-- `DurableArchiveCoordinator`. Before each of its calls any operations of other clients may run,
-- and a failed lease renewal may replace a call's result, as `supervise` of src/application/durable_archive_recovery.rs does.
--
-- Table (src/application/durable_table.rs): Append is `append` with the write window, Read is
-- `read_bucket`, Join `read_buckets` with at most four reads in flight, which finish in the order
-- that a schedule gives; each takes effect when it is joined, and the fuel is the number of buckets.
-- Query is `query_page` and `query`.
--
-- Recovery (src/application/durable_archive_recovery.rs): Config is `ArchiveRecoveryConfig`, Runner
-- one cycle of `DurableArchiveRecoveryRunner`, with the same interference as the coordinator.
--
-- Cache (src/adapters/immutable_archive_cache.rs): State is the bounded cache with its eviction,
-- whose fuel is the number of entries; Adapter puts it in front of any archive store.
--
-- Object (src/adapters/opendal_store.rs): Port is OpenDAL as operations on a world of objects, of
-- which nothing is assumed, and SHA-256; Config the configuration and its checks; Keys the object
-- keys; Columns the Parquet payloads over the arrow and parquet crates as parameters; Manifest the
-- manifests and the codecs (serde_json is a parameter); Adapter the reads and writes. Outcomes and
-- Evidence prove what a successful write or read means, Durable and Faithful that the store meets
-- the law of Archive.Port on objects that stay, Errors which configurations are refused.
--
-- Cockroach (src/adapters/cockroach_durable.rs, src/adapters/cockroach_schema.rs): Tables has the
-- rows of the two tables, Statements and Bodies the statements of every transaction, Transaction the
-- retry loop, whose fuel is `MAX_TRANSACTION_ATTEMPTS`, Operations the operations of a client with
-- its route cache, Reads its reads. What the database and the network do to an attempt is given by
-- the environment, and committed transactions take effect one after the other (SERIALIZABLE). What
-- the driver sends of an instant, in the precision of TIMESTAMPTZ, is a parameter of each call.
-- Atomic and Backoff are about the retry loop. Entries, Refinement, AppendSteps and CleanupSteps
-- relate the tables to the lifecycle of Store, History runs committed transactions, whose records
-- are as they were sent, Checks keeps the CHECK constraints, Routing, Sound and RouteBound are
-- about routed reads. Migrations is the planner of schema migrations, Planning and
-- Planned say which histories it accepts.
--
-- Sidecar (src/bin/sql_sidecar_security.rs): Security is the configuration, the credentials and
-- the startup of a connection, over rustls, pgwire and the file system as parameters.
--
-- Tests evaluates the model on a small calendar, a table by days, objects, a database and logins.
--
-- Not modelled: telemetry and tracing, serde and Display; the migration job, the
-- connection pool, TLS and DataFusion (the rest of src/adapters/cockroach_schema.rs,
-- src/adapters/cockroach_pool.rs, src/adapters/cockroach_tls.rs, src/integrations); the server of
-- the sidecar and the command-line tools (src/bin), which are glue to servers outside the
-- repository. A constructor of the CockroachDB store does nothing but open a pool.
pub mod Base
pub mod Domain
pub mod Store
pub mod Archive
pub mod Table
pub mod Recovery
pub mod Cache
pub mod Object
pub mod Cockroach
pub mod Sidecar
mod Tests
