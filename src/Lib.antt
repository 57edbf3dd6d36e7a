-- ===== src/Lib.antt =====
-- A verification library for newapi-usage, a Go service that reports the usage of an API gateway,
-- indexes the audit logs of its requests in a SQLite database and has a language model review them.
--
-- The program's parts: internal/audit reads the audit logs into the index and deletes old entries;
-- internal/review reviews the audited requests in jobs, whose rows are in the same database;
-- internal/store reads usage from the gateway's database; internal/channels asks the upstream
-- channels for balances; internal/server answers the web interface from these; internal/config and
-- cmd/newapi-usage start it all. The library models the jobs, the planner,
-- the worker and the decisions of internal/review, the index and the cleanup of internal/audit, and
-- who may ask internal/server for what.
--
-- Files:
--   Prelude and its children: native numbers, integers, texts as lists of code points, and tables as
--     lists with the statements SELECT, UPDATE, DELETE and COUNT as functions.
--   Review/Types, Review/Database: the values and rows of internal/review/types.go and schema.go. A
--     table is the list of its rows, a statement is one function, and a transaction is a function
--     that makes all its changes or none.
--   Review/Decision: normalizeDecision (internal/review/client.go) and combineDecision (worker.go);
--     Decision/Laws and Decision/Order prove their properties. A float64 is counted in its smallest
--     steps, 2 ^ -1074, as an integer.
--   Review/Planner: planRequest and what it calls, and the loop of planJob over the requests of one
--     token (internal/review/planner.go). Planner/Parent, Planner/Delta, Planner/Built and
--     Planner/History are the proofs.
--   Review/Plan: planJob over the tables (internal/review/planner.go), with the proofs in Plan/Scope and
--     Plan/Progress.
--   Review/Jobs: the statements on the status of a job (internal/review/jobs.go, worker.go, manager.go);
--     Jobs/Input normalizes what a request gives, Jobs/Create is CreateJob, whose statements are not a
--     transaction: create_job_between has a table for each of them, create_job the same table for all.
--     Jobs/Lists is ListJobs, Jobs/Acts makes the calls
--     and statements the acts of one step function, and the proofs are in Jobs/Transitions,
--     Jobs/Final, Jobs/Claims, Jobs/Keys and Jobs/Exclusion. API calls and the three workers of the
--     manager interleave as a list of acts.
--   Review/Worker: Worker/Calls is callReviewWithRetry, Worker/Selection nextReadyWorkEntries and the
--     groups of processWorkBatch, Worker/Content and Worker/Settle the two halves of processEntry,
--     Worker/Loop the loop of runNextJob. The proofs are in Worker/Retry, Ready, Updates, Tables, Kept,
--     Progress, Sound, Counters and Twice.
--   Audit/Types, Audit/Reconcile, Audit/Cleanup: the rows of internal/audit/index.go that the cleanup
--     reads, and internal/audit/cleanup.go: Reconcile is reconcileReviewJob, Cleanup the batches,
--     Cleanup/Lifecycle the status of a cleanup job and Cleanup/Run the loops of executeCleanupJob.
--     Cleanup/Reconciled, Cleanup/Admission, Cleanup/Asked and Cleanup/Race, where CreateJob and
--     CreateCleanupJob interleave, are proofs, as is the end of Cleanup/Run.
--   Audit/Entries, Audit/Ingest: the rows of the index, and how internal/audit/index.go makes them of the
--     lines of log files: Ingest/Insert is resolveRecordToken, insertEntry and insertSecurityAlert,
--     Ingest/Files stateForPath, ingestPath and the loop of ScanOnce. Ingest/Lines, Keys, Resume,
--     Unique, Places and Limit are proofs.
--   Audit/Lookup: which row belongs to a line of the usage log (internal/audit/index.go): Lookup/Filter
--     is lookupCenter and the three queries, Lookup/Candidate lookupClientCandidates and
--     bestClientCandidate, Lookup/Answer Lookup with its table of matches, and EntryByID,
--     Lookup/ClientInfo LookupClientInfo. Lookup/Best, Sorted, Scope, Window, Agreement, Cached and
--     Single are proofs.
--   Audit/Compression: compressLegacyBodies of internal/audit/index.go, with encodeBody and decodeBody of
--     internal/audit/body.go, which stand in Audit/Entries. Its children are the proofs.
--   Server/Session, Server/Auth: internal/server/auth.go, with writeError and Handler of server.go;
--     Session/RoundTrip and Auth/Login are proofs. Server/SelfKey: requireSelfKey and resolveSelfKey of
--     internal/server/self.go over ResolveTokenByKey of internal/store/store.go, with SelfKey/Known.
--   The modules named Tests: concrete runs.
--
-- Bounds: run_loop has fuel, one unit for each round of the loop; more units than pending entries are
-- enough, since every round settles an entry. plan_batches has fuel, one unit for each batch of a key;
-- more units than audited entries are enough, since the cursor passes a row with every batch.
-- The loops of a cleanup job have fuel, one unit for each batch; more units than rows of the catalog
-- and alerts together, and one more, are enough, since every batch deletes one.
-- The compression of bodies has fuel, one unit for each batch; more units than there are bodies to
-- compress are enough, since every batch compresses one. A scan of a file has its limit of lines.
--
-- Not modelled: the file system, HTTP, the SQL engine and its failures, goroutines that work on the
-- groups of one batch at the same time (the groups run one after another), cancellation of a context,
-- waits between attempts; of internal/review the settings but for normalizeConcurrency, the client but
-- for normalizeDecision, ModelOptions and Results; of internal/audit the parsing of a line and of a body,
-- the patterns of file names, the upgrade of the schema, and the pages and counts of security alerts; of internal/store all but the resolution of keys; internal/channels, internal/config, and
-- the handlers of internal/server that pass their parameters on. The parsing of a line, compress/gzip,
-- the digest of a key and the resolver are parameters of the ingestion (`LineFormat`, `Gzip`,
-- `Outside`), and crypto/hmac, crypto/sha256 and encoding/base64 of the sessions (`Crypto`).
-- In the review, crypto/sha256 and the lower case of the
-- package unicode are the record `Runtime`; what audited bodies decode to and what the review endpoint
-- answers are the record `Outside`, arguments of the definitions that use them.
pub mod Prelude
pub mod Audit
pub mod Server
pub mod Review
