-- ===== src/Lib.antt =====
-- Verification library of the Allies Foundry backend (Django services that run agents on Machines).
--
-- The backend keeps all durable state in tables. A service is a transaction: it locks rows, checks
-- them, writes some, and returns a result or raises an exception, which rolls the transaction back.
-- So a service is here a function from the store, the arguments and the clock to a `Result` with
-- the new store. A table is a list of rows, a row is a record, a status is a data type. The row
-- locks serialise the transactions, so a concurrent history is a sequence of them; what other
-- workers do between two transactions of one caller is an arbitrary change of the table.
--
-- Modules, and the code that each is about:
--   Base                the exceptions of backend/runtime/exceptions.py, results, lists, tables
--   Models              rows of backend/runtime/models.py that several services share
--   Delivery            the event outbox, backend/runtime/services/event_delivery.py:
--     Row, Repair, Marking    one row: `save`, repair cycles, claim, mark, deferral
--     Outbox, Redrive         the transactions over the table
--     Publisher               the loop of publish_pending_event_deliveries
--     the other children      proofs, named for what they are about
--   Approvals           approval requests, backend/runtime/services/approvals.py:
--     Requests                the operations on one locked request
--     Creation                the request that an awaiting event asks for
--     Service                 the transactions over the store
--     the other children      proofs
--   Events              the append of an event, backend/runtime/services/events.py:
--     Append                  _append_event_once, append_runtime_event
--     Expiry                  _append_lease_expired_failure
--     the other children      proofs
--   Leases              leases and attempts, backend/runtime/services/leases.py, attempts.py, retry.py:
--     Rows                    the rows that a transaction locks, and its writes
--     Mutation                authorize_attempt_mutation
--     Service, Fence          create, renew, stop; fence after a Machine was replaced
--     Finish                  complete_attempt and fail_attempt, from finish_once on
--     Retry                   run_with_sqlite_lock_retry
--     the other children      proofs
--   Claims              claims of work, backend/runtime/services/claims.py:
--     Ready                   readiness (runtime_readiness.py), admission of routines
--     Expired                 _reconcile_expired_leases
--     Candidate, Granting     one candidate: its attempt, its lease, its acquisition
--     Service                 claim_next_execution
--     the other children      proofs
--   Sessions            sessions of conversations, backend/runtime/services/sessions.py:
--     Bindings                bindings, compare_and_set_session, bind_conversation
--     Service                 update_session_binding, bind_routine_session
--     the other children      proofs
--   Validation          checks of values, backend/runtime/services/validation.py:
--     Json                    the checks of JSON values and receipts
--     the other child         proofs
--   Intents             wishes to wake a workspace, backend/runtime/services/runtime_intents.py:
--     Requests                request_runtime_intent, request_execution_wake_locked
--     the other children      proofs
--   Samples             rows that the examples share
--
-- Conventions. Identifiers, references and digests are compared for equality only and stand as
-- opaque numbers. Times are microseconds. Texts whose characters matter are native strings, or lists
-- of code points where the code measures them. A number that Python keeps non-negative is a natural
-- number; where a subtraction could be negative the comment at the definition says what follows.
-- An `IntegrityError` that a service turns into an exception of its own stands as that exception, and
-- one that nothing catches as `integrity_error`. The wire form of an event is built from the rows that
-- one transaction finds, so that each transaction of the outbox has its own, and a transaction of the
-- other services takes it from its store. A claim and a transaction of a lease read the clock once,
-- where the source reads it anew for each candidate; the result of a routine (routines.py) is a
-- parameter, of which it is assumed that it only moves leases forward.
-- The messages of exceptions, `updated_at` and the columns that no modelled service uses are left
-- out. `ORDER BY` is a parameter, of which it is assumed that it returns selected rows only.
-- No definition takes fuel: every loop is over a list, or counts down the backoffs of the retry.
--
-- Not modelled: HTTP and the provider of Machines, the runtime on the Machine, the web API,
-- settings, logging, and the services that Models does not yet serve (the transactions of routines,
-- publications, workspaces and profiles). The wire form of an event (backend/runtime/contracts.py), Cloud's
-- answers, Python's tests of a character and the random jitter are parameters.
pub mod Base
pub mod Models
pub mod Delivery
pub mod Approvals
pub mod Leases
pub mod Events
pub mod Claims
pub mod Validation
pub mod Sessions
pub mod Intents
pub mod Samples
