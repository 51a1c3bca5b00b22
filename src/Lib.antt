-- ===== src/Lib.antt =====
-- A model of the ASME lifecycle engine (src/asme): the state machine that carries a skill domain
-- from its first seed to its delivery, and the transactions that write its files. `workflow.py`
-- reads a domain, asks `lifecycle.transition` for the next state, plans the files of the operation,
-- and hands both to `transaction.TransactionEngine`, which records its intent, makes the outputs,
-- and publishes the state, so that a process that dies between two steps can be recovered.
--
-- Which file models what:
--   Prelude, Prelude/     Booleans, options, results with an exception's message, Python texts
--                         by code points (`len`, `==`, `bytes.fromhex`, sorted insertion)
--   Float                 Python floats: binary64 values by their bits, with their order
--   Contract              the enumerations of src/asme/contract.py
--   Capability, Approval  its capability reports and its approvals
--   Capture, Capture/     its captured executions, as src/asme/evidence.py makes them
--   Lifecycle/State       `DomainState`, `TransitionInput` and `Operation` of src/asme/lifecycle.py
--   Lifecycle/Manifests   its helpers `_advance_iteration`, `_require_score`, `_consume_manifest`,
--                         `_require_manifest_hash` and `_record_current_manifest`
--   Lifecycle/Branches    the branches of `transition`, one function for each operation
--   Lifecycle/Transition  `transition`, `transition_matrix`
--   Lifecycle/*           the invariants and the runs (`Reach`) of the state machine, by subject
--   Canonical             `require_identifier` and `safe_member_name` of src/asme/canonical.py
--   Json                  JSON values and Python's equality on them
--   Gate2, Gate2/         the comparator of src/asme/gate2.py
--   Dependencies/         the dependency matrix of src/asme/dependencies.py
--   Wiki/                 traces, patches, pages and changes of src/asme/wiki.py
--   Snapshot, Snapshot/   snapshots and the repair of a mirror of src/asme/snapshot.py
--   Proposal/             the decision on a proposal of src/asme/proposal.py
--   Claims, Claims/       the claims policy of src/asme/claims.py
--   Impact, Impact/       the history of impacts of src/asme/impact.py
--   Governance/           the release gates of src/asme/governance.py
--   Transaction/Records   the data classes of src/asme/transaction.py
--   Transaction/Disk      what the engine reads and writes, its exceptions and crash points
--   Transaction/Tree      the tree of directories and files below the governed roots
--   Transaction/Validate  `TransactionRecord.validate` and `from_json`
--   Transaction/Materialize  `_target`, `_ensure_safe_parent`, `_materialize_write`,
--                         `_materialize_deletion`
--   Transaction/Replay    `_replay`, `read_state`, `_read_initialization_intent`
--   Transaction/Recover   `recover`, `_record_intent` and the end of `execute`
--   Transaction/Request   the arguments of `execute`, the hashes and the dependency bindings
--   Transaction/Preconditions  `_validate_plan_preconditions`
--   Transaction/Execute   `execute`
--   Transaction/Laws/     one effect, the loops, a replay, a transaction with a crash
--
-- How the code is modelled. A state is a record with the fields of the data class; a call that may
-- raise returns a result with the message or the exception. `transition` is a pure function, as in
-- the code. A call of the transaction engine takes the disk and returns a result and the disk it
-- leaves, also where it raises. The disk has the state file, the initialization intent, and one tree
-- of directories and files, in which every governed root has its place: a root may lie inside another
-- one, as the named roots of workspace.py lie inside the domain root, so two (root, path) pairs may
-- be one file, and a write can make a directory that another path goes through. The state file stands
-- beside the tree, and its path is one that no write may go through; the intent lies outside every
-- root. SHA-256, base64 and the hashes of canonical JSON are parameters (`Digests`, `PlanDigests`,
-- `FileDigests`), as are `json.loads` and `datetime.fromisoformat`, with no law supposed of them.
-- Each write of a file is atomic, as `os.replace` makes it; a crash happens at one of the engine's
-- crash points. A JSON value that the engine only stores or hashes is its text, and the `txn` of a lifecycle state is one too. `state_schema` is a constant
-- and is left out. `PurePosixPath` is modelled from the documentation of pathlib.
--
-- Bounds and fuel. No definition runs on fuel: every loop of the code that is modelled walks a list.
-- Integers are Python integers that the code keeps from being negative, so they are naturals.
--
-- Not modelled: the checks that the constructor of the engine makes of its roots; JSON decoding,
-- `fsync` and the lock; the other modules of src/asme (packages, delivery, workflow, adapters, the
-- command line), the scripts and the tests.
pub mod Prelude
pub mod Float
pub mod Approval
pub mod Capability
pub mod Capture
pub mod Contract
pub mod Canonical
pub mod Claims
pub mod Dependencies
pub mod Gate2
pub mod Governance
pub mod Impact
pub mod Json
pub mod Lifecycle
pub mod Proposal
pub mod Snapshot
pub mod Transaction
pub mod Wiki
