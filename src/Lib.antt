-- ===== src/Lib.antt =====
-- Verification of the Threema bridge.
--
-- The bridge carries messages between Matrix and Threema. A transaction of the homeserver is first
-- stored in the inbox; its events are stored once each and classified, in source order, into one of
-- the durable journals of the outbox: text requests, attachments, reactions, edits and deletions
-- (mutations), or rejections. A worker hands prepared requests to the Threema backend, records the
-- message IDs that the backend allocates before the network send, and settles requests by result or
-- by echo. A policy over the connection history decides when the owner is warned.
--
-- Files:
--   Prelude: shared names, Boolean tests, list lemmas, and SELECT and UPDATE on lists of rows.
--   Text: the patterns for identifiers, and the lengths that the source measures.
--   Outbox.Tables, Outbox.Request: rows and input of src/outbox/store.ts; `validate`.
--   Outbox.Store: OutboxStore of src/outbox/store.ts. Prepare has `prepare` and `rejectEvent`,
--     Dispatch has `nextPrepared`, `claim`, `deferPreflight`, `recoverInterrupted` (the statement on
--     requests) and `unknown`, Parts has `recordIds`, `sent`, `observe` and the lookups. The others
--     hold the invariant and its proofs; History defines the histories of journal operations, with any
--     work of the other journals in between.
--     Recovery has `pendingCounts`, `recoveryPage` and `retryPrepared`.
--     Reorder has `reorderPrepared`, by way of Outbox.Slots, which it shares with the reactions.
--   Outbox.Guard: DispatchGuard.check of src/outbox/dispatch-guard.ts.
--   Outbox.Mutations: MutationJournal of src/outbox/mutation-journal.ts and the command parser of
--     src/threema/mutation-command.ts.
--   Outbox.Reactions: ReactionJournal of src/outbox/reaction-journal.ts. Journal has `prepare` and
--     `get`, Dispatch `claim` and what follows it, References the active references, Retirement the
--     retirements, Recovery the recovery pages and the counts, Reorder the repair of the order.
--     History has the calls as data and runs lists of them, Steps what each call does to the
--     tables; the others are proofs.
--   Outbox.Classification: the five journals are disjoint.
--   Outbox.Worker: OutboxWorker.perform of src/outbox/worker.ts, against any answers of the sender.
--     Passes and restarts follow one another: no other user of the journal calls it between or
--     during them. The calls of others are in Outbox.Store.History.
--   Outbox.Dispatcher: ReactionDispatcher of src/outbox/reaction-dispatcher.ts, against any answers of
--     the backend and any calls of others while it waits.
--   Outbox.Recovery: ReactionRecovery of src/outbox/reaction-recovery.ts, in the same way.
--   Matrix.Inbox: TransactionInbox of src/matrix/transaction-inbox.ts: Accept has the writes and the
--     reads, Order the source order, Retry the order of the attempts.
--   Matrix.Portal: PortalStore of src/matrix/portal-store.ts: Rooms has portals and ghosts, Messages
--     the mappings and projections, Deliveries the reactions, deletions, statuses and receipts,
--     Uploads the media uploads and the encrypted operations. History has the calls as data and runs
--     lists of them; the others are proofs.
--   Operations.Reconnect: src/operations/reconnect-policy.ts.
--   The modules named Tests hold concrete runs and the theorems applied to them.
--
-- State and operations: a table is the list of its rows in the order of the primary key, so that
-- ORDER BY is the order of the list; AUTOINCREMENT is a counter of the database. An operation takes
-- the database and returns a result, in which an exception is a value; a transaction that throws
-- leaves the database as it was. A JSON text that the source stores and parses back is the record
-- that it encodes. Times and sequences are natural numbers; the source's test for a safe integer is
-- the test against 2^53 - 1. No definition needs fuel: loops run over lists.
--
-- Parameters: SHA-256, the JSON texts of encrypted contents and prepared uploads, the rooms
-- that a stored transaction names (json_each), and what the sender, the backend, the clock and the
-- checks answer to the worker, the dispatcher and the recovery.
--
-- Not modelled: encryption and file checks of the databases, schema migrations, the body
-- of the media journal (of which only the rows that the other journals read stand here), delivery
-- to Matrix, the backend processes, setup, backup and the service wiring.
pub mod Prelude
pub mod Text
pub mod Matrix
pub mod Operations
pub mod Outbox
