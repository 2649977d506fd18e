-- ===== src/Lib.antt =====
-- Verification of the AXCalib runtime (src/axcalib): the stores and state machines that carry a
-- project from its draft to its certificate.
--
-- The parts and their files:
--
-- Workflow (src/axcalib/workflows/two_gate.py): the statuses, roles and triggers of the two gates and
-- the transition table (Workflow/Table), `transition`, `assign_mentor` and
-- `approval_transition_errors` (Workflow). The notification port is an argument. Workflow/Graph,
-- Workflow/Gates and Workflow/Safety hold the theorems.
--
-- Dossier (src/axcalib/dossier/repository.py), Audit (src/axcalib/audit/log.py): the project's record
-- under its revision check and the append-only log. Both act on values in place of files: a
-- directory (Files) is a function from names to contents, and a write replaces one file.
--
-- Plans, Journal, Coordinator (src/axcalib/runtime/transactions.py): the plan of a transaction and its
-- validation, the hash-chained journal, and the coordinator that writes dossier and audit event
-- under it. The failure injector is an argument; SHA-256 is a function of the hashed value, and no
-- property of it is assumed. Each reading of the clock is an argument. Journal/Chain and
-- Journal/Tamper are about a journal that is read back; Coordinator/Steps/Ensure,
-- Coordinator/Commit and Coordinator/Recovery are about executions that are cut short and their
-- reconciliation. A reason code has at most 200 characters when it is read, not when it is written
-- (Journal/Chain/Append/Reason). The plan of the journal stands in its first event, as in the source.
--
-- Pipelines (src/axcalib/pipelines/base.py) and Executor (src/axcalib/runtime/execution.py): the
-- registry of pipelines, and the executor's checkpoints, results and cancellation requests in the
-- files of its root; `aexecute` has a body of its own (Executor/Async). A pipeline is a function on those files that may change any of them. Exceptions
-- are values with a class name; those that a `try` of the source takes end in the record, and the
-- others are the result of the call.
--
-- Jobs (src/axcalib/runtime/worker.py): the queue of jobs over the executor. Jobs/Payload and
-- Jobs/Record hold the payload's rules and the job's record, Jobs the claims and their execution,
-- Jobs/Enqueue the entry. What other processes do to the queue while a pipeline runs is an
-- argument of `execute_claim`. Times are in microseconds.
--
-- Education (src/axcalib/schemas/education.py, src/axcalib/programs/service.py): programs with the
-- validation of their graph (Schema, Program) and a learner's enrollment with its validators
-- (Enrollment). Progress holds `_evaluate_milestone` and `_unlock_dependents`, Actions the candidates
-- that the calls hand to their transactions, Service the calls on a loaded enrollment, a resolved
-- program and looked-up dossiers. History is the step relation of the committed transactions; a
-- call that fails between the two transactions of `_record_requirement` is a history that stops at
-- the first. Points and scores count a fixed fraction of a point. Education/Stores holds the two
-- repositories of src/axcalib/programs/repository.py, with the validation of an enrollment that is
-- loaded (Education/Stores/Content); the transactions that save a candidate
-- (src/axcalib/runtime/enrollment_transactions.py) are not modelled, so a step stands for a save.
--
-- Idempotency (src/axcalib/runtime/idempotency.py): the records that replay a result; Idempotency/Memo
-- is the table of requests and results that they implement. Outbox
-- (src/axcalib/notifications/outbox.py): the files of notifications and the adapter that delivers
-- them. The calls and the adapter work on a world of their own, of any type.
--
-- Maintenance (src/axcalib/runtime/maintenance.py): the moves of stale locks, temporary files and
-- journals in a tree of files. A path is the list of its parts below the workspace's root.
--
-- Policies (src/axcalib/policies/registry.py): review policies with their validators, the built-in
-- policy and the registry by policy ID and version.
--
-- Exec is the state passing that the stores share: the state comes back beside an error too, since a
-- write before a raise stays.
--
-- No definition runs on fuel: every loop goes over a list of lines, requests or rules.
--
-- Not modelled: file locks (each call that holds one is one step, and calls of different holders
-- follow each other), JSON and YAML text and their validation by schema, time zones, and the parts of
-- the package for HTTP, model services, slide parsing, scoring and rendering.
pub mod Prelude
pub mod Exec
pub mod Files
pub mod Failure
pub mod Workflow
pub mod Dossier
pub mod Audit
pub mod Identifiers
pub mod Plans
pub mod Journal
pub mod Coordinator
pub mod Pipelines
pub mod Executor
pub mod Jobs
pub mod Education
pub mod Idempotency
pub mod Outbox
pub mod Maintenance
pub mod Policies
