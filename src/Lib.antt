-- ===== src/Lib.antt =====
-- Verification of the Inherent document platform.
--
-- The platform ingests documents and serves them to search. An upload is queued; the ingestion
-- service runs one workflow per document, which fetches, extracts, chunks and tags the text and
-- stores it in a relational database and in a vector store. The public API reads both stores, edits
-- single chunks in both, and limits its callers.
--
-- Parts and files:
--
-- Prelude: library names passed on, Boolean tests, and the lemmas on lists, options and numbers
--   that the parts share. Prelude/Dict is a mapping as a function, with `insert` and `retain`;
--   Prelude/Text is what the code uses of strings (lower case, substrings, decimal numerals).
-- Ingestion/Workflow: DocumentIngestionWorkflow of
--   services/inh-ingestion-svc/src/temporal/workflows/document_ingestion.py. Messages has the
--   inputs, with the mapping of a queued upload to a workflow input (temporal/trigger.py) and back
--   to an upload for a dead letter; Activities has the activities and their inputs; Steps the four
--   best-effort side channels; Run the body in the order of the code: its try, its except clause,
--   its finally and its return. An activity is answered by an environment, a function from the
--   requests before it and the request to a reply or an exception, so that it may answer two like
--   requests differently. The run returns the list of the requests that it made, and a result.
--   Accounting, Stored, Healthy and Replay are about whole runs; Quiet, Grown and Classify carry
--   lemmas.
-- Ingestion/Chunking: src/temporal/activities/chunk.py of the ingestion service, on texts as lists
--   of code points. Text has what it uses of Python's strings, Tokens the token estimate, Size
--   `_chunk_by_size`, Paragraphs `_chunk_by_paragraphs`, Slices `_slice_oversized_line`. Cover and
--   Stuck are about the first, Order and Packing about the second, Sliced about the third; Offsets
--   carries lemmas for Order.
-- Ingestion/Queue: the consumer of the Redis queue, src/services/mq/redis_mq.py of the same service.
--   Tasks has the handling of one message, Loop the polling loop with recovery and reclaim, Run the
--   runs: what runs between two awaits is one step, and a run is a list of replies of Redis and of
--   the handler, each to the loop or to a task, in any order. Log says what the log of a run
--   justifies; Handling, Kept and Phases carry lemmas for Acks; Batch is about the messages of one
--   read, and Idle about a quiet stream.
-- Ingestion/Store: the writes of a document's runs to PostgreSQL, src/services/database.py of the
--   same service. Rows has the row and the chunks, Writes the claim, the status write and the store,
--   each of which is one transaction. Fence and Superseded are about superseded runs, Retry about a
--   repeated store, Counters about the chunk counter, Flushes about conversations; Inserted carries
--   lemmas on the insertion of chunks.
-- PublicApi/RateLimit: services/inh-public-api-svc/src/core/rate_limiter.py. InMemory is the
--   token bucket per key, with its periodic cleanup, Redis the fixed-window counter on a Redis
--   client whose calls return, Backend the protocol that both fill; a limiter that raises is met by the
--   quotas alone. Calls of the in-memory backend hold a lock, so a
--   call is one step on the state. Time is a number of milliseconds, and a token is 2592000000
--   shares, a number that a refill divides evenly for windows of a minute, a day and 30 days; the
--   code has floats in both places.
-- PublicApi/Quotas: src/services/entitlements.py and src/mcp_server/quotas.py of the same service,
--   on any rate limiter of that protocol, which may raise.
-- PublicApi/Chunks: the writes of a single chunk to both stores, src/services/chunk_writes.py, and
--   the retries of src/services/compensation.py. Stores has one document in the database and in the
--   vector store, with the row operations of src/services/database.py and the object operations of
--   src/services/search.py; Compensation has calls and retries: each call has a fate, by the number
--   of calls before it, and a call that raises may have taken effect; Writes has the create, the
--   update and the delete, with their rollbacks. Rows, Sync, Retries, Restore and Outcome carry lemmas for
--   Create, Update and Delete; Course is about the retries alone, and Timeout about one course of
--   an update.
-- Contracts: services/inh-contracts/src/inh_contracts/file_types.py, on any registry of formats.
--   FileTypes resolves a declared type or a file's name, Checks are the checks of the bytes and of
--   the name; Registered and Sniffed are about them. Intake of PublicApi/Documents is their client.
-- PublicApi/Documents: uploads and deletions of whole documents, src/services/document_intake.py and
--   src/services/deletion.py. Rows has the tables with the statements of src/services/database.py
--   that these run, Site the tables with the vector store's objects, the stored bytes and the queue,
--   calls with fates as for the chunks, and the retried mark of src/services/compensation.py.
--   Deletion and Intake are the two operations. Calls, Found, Dropped and Vectors carry lemmas,
--   Deleted is about the first, Checked, Accepted and Uploaded about the second. `created_at` is the order of
--   the rows. Ingestion, which the message starts, is not on these tables.
-- PublicApi/Context: src/services/context_window.py, the chunks around search results, with the
--   ranges that are fetched for them. Spans is about sorting and merging the ranges, Cover about
--   their indices, Apart about the gaps between them. Expand has the assignment of the fetched
--   chunks, and the query get_context_chunks of src/services/database.py on tables; Sorting carries
--   lemmas for Neighbours, which is about the whole expansion.
-- PublicApi/Access: who may act on which workspace. Roles is src/services/workspace_roles.py,
--   Directory the control-plane reads of src/services/database.py, where every read of a request
--   finds the collection as it is at that time or raises, Keys the API keys (src/models/api_key.py,
--   src/services/auth.py and `validate_api_key` of the database), and Resolve the rest of
--   src/services/auth.py up to its OAuth part. Lookup carries lemmas on the directory, Grants and
--   Outage are about resolved workspaces, Entry about whole write requests. Ids are texts: that Mongo
--   may hold them as ObjectIds too, and the queries then match both, is not modelled.
--
-- The parts meet in three places: the quotas are a client of the rate limiter through the record
-- RateLimiterBackend, the workflow's failed runs leave the dead letter that the trigger reads
-- again, and an upload calls the checks of the contracts.
--
-- Parameters. The activities' replies, the Redis server, the entitlements provider, the count of
-- documents, the hash of a text or of a key, the rows of the keys, the answers of the vector store to
-- a batch delete and the fate of each call of a store are not code of these files.
-- They are arguments; where a theorem needs what their documentation says, that is a named record
-- (IsRedis, IsDown, IsBatchDelete), and a witness has a concrete function for it. Of SQL only
-- the statements that these operations run are written out, on the tables' contents.
--
-- Bounds. Every loop is over a list or over a number of attempts, but for the two `while` loops of
-- the chunkers, which run on as many rounds as the text has characters, since a round of either
-- moves on by a character at least.
--
-- Not modelled: logging, metrics but for the exhaustion counter, and tracing; retry policies and
-- timeouts of activities, which belong to the workflow engine; the reading of file formats; the
-- other SQL; HTTP; settings and wiring. Between two calls of a chunk write, of an upload or
-- of a deletion no other writer acts.
pub mod Ingestion
pub mod Prelude
pub mod PublicApi
pub mod Contracts
