-- ===== src/Lib.antt =====
-- The kernel of an agentic browser.
--
-- Agents work on tabs, forms and workspaces through a kernel of these parts: a broker of
-- capabilities says who may do what, an object manager holds the browser's state, transactions take
-- snapshots of that state and restore them, an audit log records what happens, versions say which
-- workflows may run, the runtime runs code whose browser interface checks an agent's calls, a
-- renderer fills tabs and forms from pages, a session manager keeps sessions and grants in memory
-- and on disk, and a terminal lets a user review, grant and run. The kernel's parts hold a
-- reference to the log, if there is one, and write to it.
--
-- kernel/capabilities.py: Capability models `Capability` and `CapabilityBroker` (`Broker`);
--   `grant`, `check`, `revoke` and `revoke_all` return the new broker and the new log.
--   Capability/Matching is about patterns, Capability/Invariant, Revocation, RevokeAll and Runs
--   about the two indexes, and Capability/Allowing and Access about what a check answers.
-- kernel/audit.py: Audit/Entry has the rows, Audit/Redact `_redact`, Audit/Log `AuditLog` as the
--   list of its rows with the transaction context, Audit/Query `query`, Audit/Reading `from_dict`.
--   Audit/Secrets and Masks are about redaction, Audit/History about the rows, Audit/Filters and
--   Search about queries.
-- kernel/objects.py: Objects/Heap holds the dicts and lists that objects refer to, Objects/Object
--   models `ManagedObject`, `Tab`, `Form` and `Workspace`, Objects/Snapshot `ObjectState`,
--   Objects/Manager `ObjectManager`. Objects/Copies is about one snapshot, Objects/Apart and
--   Methods about cells that no method writes, Objects/Names and Registry about identities,
--   Objects/Steps about sequences of operations, Objects/Restore and Rollback about restores.
-- kernel/renderer/mock.py: Renderer models forms and pages, Renderer/Sites the registry of pages,
--   Renderer/Calls `MockRenderer` on a Renderer/Screen, which is the renderer with the registry and
--   the log. Renderer/Pages is about navigation, Shown, InStep, Opening, Submission and Runs about
--   what forms show, Rollback about a restore that the renderer is not told of.
-- kernel/sessions.py: Sessions/Records models the records and `SessionManager` with its three dicts
--   and the tables of its database, Sessions the operations on one session or grant;
--   Sessions/Ending has those that revoke many grants, Sessions/Query the lists. Sessions/Tables
--   and Mirrors are about a dict and its table, Invariant and Valid about the invariant, Sweep,
--   Swept, Cleared, Clearing and Ends about the loops over grants, Calls and Runs about sequences
--   of calls and restarts, Restart about what is on disk, Lists about what the lists show; Dicts
--   has `to_dict` and `from_dict`.
-- kernel/transactions.py: Transactions models `TransactionCoordinator`, Transactions/Context
--   `TransactionContext`, on the state of Transactions/State; World holds the coordinator with the
--   registry and the log that it works on. Transactions/Acts has the work on objects between its
--   calls (creations, deletions, methods and snapshots), Undo is about rollbacks, Block and Exit
--   about `with` blocks, States and Runs about sequences of calls, Errors about calls that are
--   refused.
-- kernel/version.py: Version models `SemanticVersion`, Version/Workflow `check_compatibility` and
--   `KernelVersionChecker`, Version/Header `check_workflow_header`, Version/Changelog
--   `get_changelog`; Version/Order, Print, Compatible, HeaderLine, HeaderText and Changes are about
--   them.
-- kernel/runtime.py: Runtime models the tab, form, workspace and approval operations of
--   `BrowserAPI`; Runtime/Gates is about their capability checks. Runtime/Sandbox models
--   `ImportValidator` and `AgentRuntime`, with parsing and execution as parameters; Runtime/Blocked
--   is about what is run. Runtime/Reads has the operations that read, Runtime/Ipc the messages of
--   `IPCServer` and `IPCClient`, Runtime/Serve the server's loop; Runtime/Remote is about a call
--   through client and server.
-- kernel/ui/terminal.py: Terminal models the code buffer of `TerminalUI` and the commands that
--   validate and run code, Terminal/Analysis the analysis of code, Terminal/Editing load, paste and
--   edit, Terminal/Arguments the arguments of audit and grant, Terminal/Undoing tx and rollback.
--   Terminal/Checks and Gate are about what must hold before code runs, Terminal/Commands about
--   sequences of commands.
--
-- Value models the JSON values and Value/Reading the arguments of a dataclass, Dict Python's dict,
-- Result the exceptions, and Base holds shared lists, text and decimal numbers. Times and sizes are
-- natural numbers. Strings are compared by their code points, `lower` is that of ASCII. Platform
-- has what the kernel takes from Python's library: random identities, a digest, and the size of
-- printed JSON; Audit/Query has an interface for SQLite. Tests instantiates both. Loops are over
-- lists; only `show` in Base takes fuel, one more than its number, of which each digit takes one.
--
-- Not modelled: listeners and property getters of objects; the lock and the schema of the audit
-- log; opening and closing sockets, and return values that JSON cannot print; printing, the reading
-- of command lines and the approvals of the terminal; the bridge of the renderer, which passes
-- calls on; the lock of the session manager. A begin may draw an identity twice, since the code
-- keeps 8 digits of it.
pub mod Base
pub mod Dict
pub mod Value
pub mod Platform
pub mod Audit
pub mod Result
pub mod Capability
pub mod Objects
pub mod Transactions
pub mod Version
pub mod Runtime
pub mod Sessions
pub mod Renderer
pub mod Terminal
pub mod Tests
