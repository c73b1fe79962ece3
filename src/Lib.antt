-- ===== src/Lib.antt =====
-- Flick Drop sends secrets, files and live streams between two people. This development models parts
-- of its Go services: the store of secrets, which hands a secret out at most once, with its reaper and
-- its reconciliation with the bucket; the live relay, in which a sender and a receiver meet by a
-- six-digit code; the worker, whose store of receipts makes the handling of a job idempotent; and the
-- client's address in the HTTP API. The API writes jobs to an outbox in the transactions of the secret
-- store, and the worker handles them.
--
-- - Secrets (internal/secrets, with the tables of internal/db/migrations.go). `Secrets.Tables` has the
--   rows and the writes of the SQL statements, `Secrets.Types` the types of store.go, management.go and
--   errors.go, and the libraries as records of functions. `Secrets.Age` has the sizes of age.go,
--   `Secrets.Validate` validateCreate and validateCreateLarge, `Secrets.Create` Create and CreateLarge,
--   `Secrets.Finalize` Finalize, `Secrets.Load` load, Get, Metadata, CountPendingUploads and Cleanup,
--   `Secrets.Access` recordFailedAccessTx, `Secrets.Open` OpenTx and the two transactions of the open
--   handler (internal/httpapi/secrets.go),
--   `Secrets.Manage` Management, Revoke and purgeManagementTx, `Secrets.Reaper` ReclaimTx and
--   claimExpired, `Secrets.Reconcile` ReconcileOnce and AcknowledgeObjectCleanup. `Secrets.Calls` are
--   histories of these calls, each with its readings of the clock and the statements that the driver
--   fails, and `Secrets.Moves` an abstract view of what a call may do to the tables. The other modules
--   below `Secrets` are proofs.
-- - Outbox (internal/events/outbox.go): the row that EnqueueTx inserts. `Outbox.Publisher` has ListDue,
--   MarkPublished and MarkFailed, and PublishDue (internal/events/publisher.go); the broker's answers
--   and the order of the texts of times are parameters. The other modules below `Outbox` are proofs,
--   over histories of enqueued events and whole runs of the publisher.
-- - Relay (internal/piperelay/coordinator.go). `Relay.Code` has NormalizeCode and generateCode;
--   `Relay.Rendezvous` one session, its channels and its pipe; `Relay` the Coordinator, whose map leads
--   from a code's hash to a pointer into a heap of sessions, and its methods Init, WaitReceiver,
--   Receive, Send, RecordFailedAttempt, ActiveSessions and Close, with cleanExpired; `Relay.Handlers`
--   the goroutines that wait in a select or hold a pipe, as steps in any order: a history is a list of
--   calls, wakings and ends of transfers. The burnSession of a cleanup, or of a Send that fails, is a
--   step of its own after the close, as it takes the lock only then. SHA-256 and the random bytes are parameters. The other
--   modules below `Relay` are proofs.
-- - Worker (internal/worker/store.go, with the tables of internal/db/migrations.go). `Worker.Tables` has
--   the rows and what each SQL statement reads and writes; `Worker.Store` the three transactions Start,
--   MarkSucceeded and MarkFailed of ReceiptStore, statement by statement; `Worker.Moves` an abstract
--   view of what they may do to the tables. `Worker.Processor` has Process and ProcessMessage
--   (internal/worker/processor.go) and resolveMessageAction (internal/events/consumer.go), where the
--   other workers' calls come between the Start of an attempt and its end; `Worker.Consumer`
--   ConsumeMessages; `Worker.Cleanup` CleanupHandler and the calls of CleanupClient
--   (internal/worker/cleanup.go). JSON, HTTP and the object storage are parameters. The other modules
--   below `Worker` are proofs.
-- - Jobs (internal/events/job.go): job events, Validate, JSON and DecodeJobEvent.
-- - Http (internal/httpapi/ratelimit.go): clientIP, isTrustedIP and rightmostUntrusted, the address that a
--   rate limit is kept for. The parsing of addresses and the trusted networks are parameters.
-- - Sql: transactions of database/sql: what is not committed is rolled back, and the driver may fail at
--   any statement. An argument says at which. `Sql.Keeps` and `Sql.Atomic` carry a property of the
--   tables, or that an error undoes a transaction, from the statements to the whole.
-- - Base: shared names, lists, maps and texts.
--
-- Time is a number of nanoseconds, and the clock's readings are arguments. The stored texts of times
-- parse back to the same time and are ordered as the times are, as the statements' rtrim and julianday
-- make them but for fractions of a millisecond. The numbers that the code counts in, such as attempts,
-- are far below a machine word's bound, and a size or a TTL below 0 is refused as 0 is. Init tries at
-- most ten codes, by recursion on that number. The loop of MaxPlaintextBytes has c steps for a size of c
-- bytes, which are enough since no plaintext that fits is longer than c. Every other loop is over a
-- list.
--
-- A call of a store is one step of a history: its transaction holds SQLite's lock. The listing of the
-- bucket runs outside it, so that a reconciliation takes a cursor that may be old. The deletion of
-- expired requests, which the reaper's transaction ends with, is an argument.
--
-- Not modelled: the bytes of a transfer, which io.Copy moves through the pipe, and those of an object;
-- logs, metrics and traces; the text of errors; the request store, the configuration,
-- the timers and the command line client, the routes of the HTTP API, and the other parts of the
-- repository.
mod Base
pub mod Http
pub mod Jobs
pub mod Outbox
pub mod Relay
pub mod Secrets
pub mod Sql
pub mod Worker
