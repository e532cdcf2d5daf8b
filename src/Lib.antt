-- ===== src/Lib.antt =====
-- The delta synchronisation engine: files are cut into chunks, chunks are named by their hashes, and
-- only the chunks that the other side lacks are sent.
--
-- Parts, each with the code that it is about:
--   Hash     src/lib/rsync/adler32.ts, src/lib/rsync/strong-hash.ts, shared/hash.ts: the rolling
--            checksum (adler32, roll_adler32 for rollAdler32) and hexadecimal digests.
--   Cdc      shared/fastcdc.ts: content-defined chunking (cdc_chunk_ends, cdc_ranges).
--   Rsync    src/lib/rsync: Signatures (compute_signatures), Delta (compute_delta; the generators are
--            the lists that they yield), Patch (apply_delta).
--   Wire     shared/ops-binary.ts (OpsBinary), shared/ops-flatbuf.ts (OpsFlatbuf), and
--            shared/chunk-manifest.ts (Manifest), over Node's Buffer (Bytes).
--   Server   server/rate-limiter.ts (RateLimiter), server/negotiation-store.ts (NegotiationStore),
--            shared/schema.ts with the queries that are used (Database), server/version-chunks.ts,
--            server/version-pruner.ts, server/worker.ts, server/gc.ts (Gc: the reference set,
--            Gc/Inventory: the reconciliation), server/block-store.ts (Objects),
--            server/s3-limiter.ts (S3Limiter), server/worker-pool.ts (WorkerPool),
--            server/outbox-dispatcher.ts (Outbox), and the handlers
--            of src/routes/api/public/sync: Negotiate, Resume, Download, Commit, Upload. Publish is
--            the transaction that upload.ts and commit.ts share; Requests is what upload.ts and
--            negotiate.ts share.
--   Cli      cli/src/sync.ts with the cache of cli/src/db.ts (Sync), the journal of that file
--            (Journal), cli/src/rsync.ts (Delta), and cli/src/push.ts (Push; Uploads for its
--            concurrent part).
--   Prelude  lists, texts, results, maps and bits for all of them. Tests holds concrete runs.
--
-- How they interact: the delta engine signs with Hash and Cdc. A handler takes the rate limiter's
-- maps, the negotiation store, the database and the object store as arguments and returns them
-- changed with its reply. An upload reads the previous version's chunks (VersionChunks decodes the
-- manifest), and publishes a new version with a manifest and an event; the worker verifies that
-- version against the object store when the dispatcher's poll comes to the event (Outbox/WorkerJobs);
-- the pruner and the collector remove what is no longer referenced.
-- A push of the client signs the file, negotiates or resumes, uploads what is missing and commits; its
-- deltas are read by the upload handler's loop.
--
-- Concurrency is a sequence of steps: calls and completions of the limiter, submissions and exits of
-- the pool, answers and ends of delays of the uploads' workers. The data type Reach of each has the
-- states that such sequences lead to, and what is shown of them holds for every order.
--
-- How it is modelled: bytes are lists of numbers, texts lists of character codes, a table the list of
-- its rows, a JavaScript map an association list in the order of insertion. What throws returns
-- `err`, or `none`. SHA-256, the clock, random ids, uninitialised memory, presigned URLs and the
-- object store's answers are arguments. An upload takes the database twice, as it is when the handler
-- reads the file and as it is when the transaction begins.
--
-- Loops run on fuel where they do not follow a list: the chunking loops and the delta on the length of
-- the file, which each round shortens; the loops over pages on one more than the number of elements.
-- The results on them say that this is enough. The collector's loops over the database's pages take
-- their fuel as an argument.
--
-- The transaction of a publication is one step that nothing interrupts; whether the database gives
-- that is outside. It throws a stale snapshot before it writes, so that no refusal needs a rollback.
--
-- Not modelled: parsing of JSON and forms, HTTP, the SQL engine and the failures of its requests, errors
-- of the object store during an upload, worker threads, the dispatcher's loop and timer, API keys, the
-- native addon in Rust, the command line, and the user interface.
pub mod Prelude
pub mod Hash
pub mod Cdc
pub mod Rsync
pub mod Wire
pub mod Server
pub mod Cli
pub mod Tests
