-- ===== src/Lib.antt =====
-- A verification library of the integration gateway (src/shared_integration): scan jobs, their
-- events and their execution, findings and their correlation, gateway access, persistent identity,
-- and the HTTP handlers over them.
--
-- The program. An HTTP gateway accepts scan requests of tenants, writes a job, and hands its id
-- to a worker; the worker claims the job, runs a product and writes events and a final status.
-- Every request passes a middleware that finds its principal by a bearer token, configured or
-- looked up among API keys and user sessions. Jobs and findings live in SQLite or in a relational
-- database behind the same interfaces; identities live in the relational database.
--
-- The files.
--   Prelude       lists, texts, tests and case splits that the parts share
--   Json, Result  stored JSON values; results and the exceptions the repositories raise
--   Core          sources and severities of findings, members of enumerations of shared_llm_core
--   Jobs          jobs and events (src/shared_integration/jobs.py)
--   Jobs/Sqlite   `SQLiteJobRepository`: one function per method, from a store to an answer and a
--                 store. Its children: Events (numbering and paging), Rows and Lookup (what the
--                 statements do to the rows), Invariant (well-formed stores and runs), Claims
--                 (`mark_running`), History (what becomes of a job), Exclusion (who runs a job),
--                 Idempotency (`create`), Tenants (isolation), Growth (the log of events)
--   Jobs/Sql      `SQLAlchemyJobRepository` (src/shared_integration/sql_jobs.py), and its
--                 children Forget and Refinement, which relate it to Jobs/Sqlite
--   Auth/Limiter  `ExchangeRateLimiter` (src/shared_integration/auth.py): Buckets, Sound, Window,
--                 Retry
--   Auth/Access   `TenantRBACMiddleware` of the same file, and its rules
--   Identity      `SQLAlchemyIdentityRepository` (src/shared_integration/identity.py): Values
--                 (checks and formats), Tables (rows of src/shared_integration/db_models.py),
--                 Accounts, ApiKeys, Clients and Sessions, one function per method
--   Findings      findings, their fingerprint and their merge, and Findings/Lifecycle,
--                 `SQLAlchemyTenantFindingRegistry`
--                 (src/shared_integration/finding_lifecycle.py). Its children: Editing
--                 (`update_lifecycle`), Listing (`list_page`, `query`), Linking (correlations),
--                 Pages and Paging (what a client of `list_page` is sent), Rows (what writes keep
--                 of the table), Invariant (the table along any calls), Occurrences and Counted
--                 (how often a finding was seen), Stale (columns that repeat the payload).
--                 Findings/Sqlite is `SQLiteTenantFindingRegistry`
--                 (src/shared_integration/persistence.py), with View (what a tenant is shown),
--                 Pruning and Newest (what a store leaves)
--   Execution     `JobExecutor` (src/shared_integration/execution.py) over Jobs/Sqlite. Its
--                 children: Attempts (the loop), Gentle (what the calls of other processes leave
--                 of a job), Calls and Body (what a call, and the body of an attempt, leave of
--                 it), Ends (how the handlers end it), Settles (how an execution ends),
--                 Redelivery (a job that is already running)
--   Correlations  `SameHostMultiSourceRule` (src/shared_integration/correlations.py), and what it
--                 reports
--   Api           the handlers of src/shared_integration/api_v1.py: Scans (with Slices and Stream,
--                 what a client of the events is sent), Exchange (with Grants, what a granted exchange
--                 tells) and Findings, over Jobs/Sqlite, Auth/Limiter, Identity and
--                 Findings/Lifecycle
--   Tests         runs on concrete inputs
--
-- How state corresponds. A table is the list of its rows, in the order in which they were inserted,
-- and for the findings of the lifecycle registry in the order of their ids, which a sequence hands
-- out and which may be committed in another order. A method runs under a
-- lock or in one transaction, so it is one step from a state to a state, and an exception leaves
-- the state as it was. A query is a search of the list, an update changes the rows that its
-- condition holds of, and an insert fails where a unique constraint would. The clock, `uuid4` and
-- `secrets` are arguments. Times are numbers of microseconds, of nanoseconds in the limiter,
-- where the source has a float of seconds. A call of Jobs/Sqlite between two others may come from
-- any process: runs are lists of calls in the order in which their transactions commit. All
-- functions are total and none needs fuel: a scan is given by the number of polls that it lasts,
-- the loop of attempts by the rounds left, and a stream of events by the rounds that its client
-- stays for.
--
-- Parameters. `hashlib.scrypt` and `hashlib.sha256` are fields of the record `Hashing`, and no
-- theorem asks anything of them; the digest of a fingerprint and Python's case folding are fields
-- of `Digests`, and the texts of cursors are fields of `Cursors`, of which the theorem on paging
-- asks that a cursor be read back as it was written. The dispatcher and the adapters are fields of
-- `Platform`, and what the handlers of the exchange run in is `Setting`. The database authenticator of
-- the middleware is a field of `Middleware`. The finding registry, the scans of the adapters (how
-- many polls they last, how they end, what they raise when they are cancelled), the correlation
-- rules and the calls that other processes make between two calls of the executor are fields of
-- `Executor`; awaiting the registry may also end with the cancellation of the executor's task.
--
-- Not modelled. Adapters, dispatch, migration tools, retention, tracing, scripts and schema
-- migrations are not modelled or are input and output. Of the modelled files: engines,
-- connections, `ping` and `close`, the readers of the environment, the request id, and the
-- context variable of the current tenant. The text of a stored secret is held as its fields,
-- without base64, and the base64 of a cursor with its padding is left to `Cursors`. Foreign keys are
-- not checked. The lengths of text columns are enforced for event kinds, error codes and dispatch
-- ids; an idempotency key, which has the same bound, is checked by the API before it comes to
-- `create`. A transaction that loses the race to insert a tenant is not a step of its own: the flush
-- fails, and `create` answers as where the slug is taken. Where SQLite's methods read a row again after
-- they have released the lock, the row is read in the same step. The limiter reads its clock before it
-- takes the lock; the runs of it are given times that do not decrease.
mod Prelude
pub mod Json
pub mod Result
pub mod Core
pub mod Auth
pub mod Identity
pub mod Correlations
pub mod Findings
pub mod Api
pub mod Execution
pub mod Jobs
pub mod Tests
