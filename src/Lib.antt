-- ===== src/Lib.antt =====
-- A model of agpair, the dispatcher that hands tasks of a controller to coding agents and follows
-- them to a receipt that the controller can review. It covers the durable core of the program, the
-- repositories over its SQLite database, the decisions that are functions of their arguments
-- (receipts, completion, scope, manifests, recovery), and the passes of the daemon that work on the
-- database alone.
--
-- Parts and files:
--   * Base: the shared names, and helpers: Boolean tests on numbers, lists of rows, Python's string
--     methods, whole numbers. Base/Members holds the lemmas on rows, Base/Chain the functions that
--     return None early, Base/Append and Base/Sorted lemmas on texts and sorted lists.
--   * Json: the values that `json.loads` returns, and what Python does with them.
--   * Models (agpair/models.py): the phases of a task and the records of the tables. Result: the
--     exceptions, and functions that may raise.
--   * Options (agpair/models.py, completion.py, wait_policy.py, roles.py, executors/policy.py): the
--     functions that validate and normalise the options of a task.
--   * Db (agpair/storage/db.py): the database as a record of tables, and actions on it, which return a
--     result or an error beside the next database. `transaction` is a `with connect(...)` block
--     that ends with a commit: an exception in it loses what it wrote. Db/Rules holds proof rules.
--   * Tasks (agpair/storage/tasks.py, TaskRepository): Select and Queries read; Create, Mark, Fields,
--     Retry and Attempts hold the methods that write, named as in the source; Calls makes every one
--     of them a datum. The other children hold proofs: Consistent and Preserved an invariant of the
--     tables, Moves, Diagram and Steps the state diagram, Atomic failed calls, Frame what a call
--     leaves, Outcome the ends of an attempt, Retried retries, Cleanup the deletion of old tasks,
--     Watch the timeout queries.
--   * Waiters (agpair/storage/waiters.py), Receipts (agpair/storage/receipts.py) and Journal
--     (agpair/storage/journal.py): the other repositories. Waiters/Reach speaks of the calls of
--     WaiterRepository and TaskRepository together, since the cleanup of tasks deletes waiters.
--   * Terminal (agpair/terminal_receipts.py): Status, Payload and Structured read one receipt; Scan
--     finds objects in mixed text, Wrapped and Envelope look into what an executor prints, Protocol
--     composes them to normalize_terminal_receipt, Derived is what callers make of a receipt. Words,
--     Accepted, RoundTrip, Candidates and Checked hold proofs.
--   * Completion (agpair/completion.py): Policy, Evidence and Decision, which holds
--     evaluate_completion; Reviewed and Effective hold proofs.
--   * Scope (agpair/scope_validation.py) and Delivery (agpair/delivery.py): the changed files of an
--     executor, and the header that carries a delivery id.
--   * Manifests (agpair/workflows/schema.py): Limits, Forbidden, Coordination, Node, Validate and
--     Acyclic follow validate_manifest; Bounds, Accepted, Manifest and the children of Acyclic hold
--     proofs.
--   * Workflows: Store and NodeStore (agpair/workflows/store.py and models.py) hold the methods of
--     WorkflowRepository, Control (agpair/workflows/control.py) the cancellation of a workflow, which
--     works on three repositories; Nodes, Cancelled and Settled hold proofs.
--   * Daemon (agpair/daemon/loop.py): Timeouts gives up tasks without progress, Dependencies advances
--     those that wait for others, both through the repositories; Kept, GivenUp, Ends, Due, Stuck and
--     Advance hold proofs.
--   * Executors (agpair/executors/policy.py): the executors, and which of them a controller may hand a
--     task to; Allowed holds proofs.
--   * Recovery (agpair/recovery.py): what the controller is told to do after a task.
--   * Samples: the theorems at concrete inputs.
--
-- How the model stands to the code: a table is the list of its rows in the order of insertion; the
-- keys and unique indexes of the schema are the tests of the INSERT statements. The clock, `uuid4`
-- and what the file system says of an artifact are arguments. A time is a number of seconds; a
-- time before 0 is 0. A time budget is a float: a whole number of thousandths of a second, an
-- infinity or NaN, which SQLite stores as NULL. JSON texts of the tables are kept as texts.
-- `json.loads`, the test for a file with content, the health of the executors, the handing of a
-- task to its executor, and what comes of the cleanup of a session, which may raise, are
-- parameters. A mapping is read with each key once. `str` of a list or a mapping is its bracket
-- only, and the ids in depends_on are texts. Entries that the daemon writes to the journal have
-- fixed texts. A manifest keeps the fields that its checks read or write. Every function ends by
-- structural recursion, but for the search for cycles, whose fuel is one more than the number of
-- nodes: it is enough, since each turn leaves a node fewer to enter.
--
-- Not modelled: the schema's migrations and busy timeouts of SQLite; the scheduler of workflows,
-- their evidence and synthesis; the ingestion of receipts from the message bus and the choice between
-- their sources; external processes, git, files and the command line.
pub mod Base
pub mod Models
pub mod Result
pub mod Options
pub mod Db
pub mod Tasks
pub mod Waiters
pub mod Receipts
pub mod Journal
pub mod Json
pub mod Terminal
pub mod Completion
pub mod Scope
pub mod Delivery
pub mod Manifests
pub mod Workflows
pub mod Daemon
pub mod Executors
pub mod Recovery
pub mod Samples
