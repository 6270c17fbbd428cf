-- ===== src/Lib.antt =====
-- Models of the parts of gmeow that decide what is kept, what is run and what is sent, translated from
-- the Go sources, and theorems about them. A path below is one from the repository's root.
--
-- The scheduler (internal/scheduler) finds the analysis work that objects of the filestore lack and
-- publishes it as jobs. It remembers the fully annotated digests in an LRU set. The worker that runs the
-- jobs asks a circuit breaker (internal/analysis) before it calls an analyzer. The filestore
-- (internal/filestore) keeps the content of objects as chunks in packs and collects what nothing reaches.
-- The stores read through caches (internal/cache), the source service imports mbox archives
-- (internal/source), and the services call each other over gRPC, with retries (internal/rpc).
--
-- Which file models what:
--   Base       shared names, maps as association lists, Go's strings.TrimSpace
--   Breaker    internal/analysis/circuitbreaker.go: `allow`, `record_success`, `record_failure`, `is_open`,
--              `backoff_for`
--   Cache      internal/cache: Links are the pointers of the list of lru.go (pushFront, unlink,
--              moveToFront), Table the nodes with the map (removeTail), Lru the methods of LRU, Sized
--              those of SizedLRU; the Spec of each is a list of pairs, most recently used first
--   Scheduler  internal/scheduler: Annotated is lru.go; of scheduler.go, Types has the data of
--              internal/contracts, Jobs is jobsForObject and what it calls, Service the state and the calls
--              to the broker, Service/Setup is NewService, Service/Scan is Scan, Enqueue and Force,
--              Service/Changes is NotifyObjectsChanged and processObjectChanges, Service/Sweep is
--              updatePressure, selfHealChunk and the rounds of runSelfHeal
--   Filestore  internal/filestore: Chunks has the splitters of chunkstore.go (chunkContent, streamChunks),
--              Packs its appends and reads of packs, Blobs storeChunk, storeBlobContent, readChunk and
--              readBlobContent, Blobs/Reader storeBlobReader, Batch storeBlobContentBatched with
--              commit_batch.go; Repack is relocateLiveChunks; Objects is the metadata of objects, Gc and
--              Delete are gc.go. A store of Objects holds that of Blobs, which holds the packs and a
--              cache of Cache/Sized
--   Mbox       internal/source/archive_mbox.go: the three readers, on the lines of the scanner
--   Retry      internal/rpc/retry.go: the interceptor and retryableGRPCError
--
-- An operation takes the state and returns the new one with its results; a method that holds a mutex is
-- one step. A Go error is an optional text, or a value of a type of the model where its text is not built
-- by the code that is modelled or is a format (MboxError, with the arguments of the format). Where a function branches on a computed value, the branches are a helper
-- by clauses that stands before it.
--
-- Arguments of the model: the clock, the SHA-256 and BLAKE3 digests, the codec of the chunks
-- (compressChunkContent and decompressChunkContent of internal/filestore/dictionary.go, over zstd), what
-- other goroutines do at a retry and between the steps of a collection, the answers of the broker and the
-- projector (any function of the calls so far), the objects of the projection walk, the invoker of a gRPC
-- call and the end of its context, the parser of a message and the byte length of a line. The proofs
-- assume nothing of them but what a theorem names.
--
-- Bounds: an instant or a duration is a number of nanoseconds, natural, with the zero time as 0; in the
-- breaker a duration wraps around at 64 bits. A capacity, a limit or a mark that is negative in Go is 0
-- here. Counters are unbounded. Loops are structural recursions over lists; the eviction loop of SizedLRU
-- has as many rounds as there are entries, each of which takes one entry out, and the loop of backoffFor
-- and that of the retries have the rounds of the source.
--
-- The splitter of content in memory has a round for each byte, and each round takes one at least; the
-- one of a stream has its rounds as an argument, and more rounds than bytes are enough. Reads and writes
-- of the metadata and of pack files do not fail in the model, and a context is never cancelled there.
--
-- Not modelled: the RabbitMQ client and the calls that only pass a limit on to it, the goroutines and
-- tickers of Run, logging, the rest of the filestore (Put and its batches, dictionaries, the choice of
-- packs to repack, reports), the query index, the embeddings, the contacts, the importers other than
-- mbox, and the protocol servers.
pub mod Base
pub mod Breaker
pub mod Cache
pub mod Filestore
pub mod Mbox
pub mod Retry
pub mod Scheduler
