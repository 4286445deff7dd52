-- ===== src/Lib.antt =====
-- CairnStone V6: the parts that decide who may see and do what, modelled from the JavaScript sources.
--
-- The parts. A connection of a provider acts for an account. The private realm gives each account one
-- Home with inboxes, grants and messages (src/private-realm/store.js), reached only through a verified
-- scope (src/private-realm/scope.js). The guard of the legacy surface (src/realm-guard.js) keeps callers
-- without authentication from naming an address of that realm. Access grants (src/access-grant.js) give
-- an actor sight of an object and live in a database table. The scope policy
-- (src/resource-scope-policy.js) decides which scopes an authorization request is given. The standing
-- policy (src/turnsync-policy.js) says whether a turn may be appended for an account. A task run
-- (src/task-run.js) is work that an actor asks for and may delegate; on a human's commit it is routed to
-- an executor (src/executor-profile.js) and handed over (src/executor-adapters.js).
--
-- Prelude has what the parts share: Boolean tests, lists, JavaScript texts (a String is a sequence of
-- code points; its length and order are those of its UTF-16 units), Map as a list of entries (Dict), the
-- values that reach the code from outside (Value), answers with an error (Result), the forms of ids
-- (Names), words of a text (Words) and a query of the newest rows (Newest).
--
-- PrivateRealm models createInMemoryHomeStore. State has its records; a Check is what an operation does
-- before its first write: it passes, denies with an audit row, or throws. Authority has audit,
-- authorize, requireAdmin and checkCapability; Attach ensureDefaultHome; Connections setConnectionRole,
-- revokeConnection and resolveHome; Inboxes createInbox and listInboxes; Grants grantInbox, revokeGrant
-- and can; Mailbox listInbox, readInbox and ack. Send has send as two calls, begin_send up to the
-- awaited digests and commit_send from them on, since other calls may come between. An operation is
-- settle of its check: the outcome and the store after. Run has the calls and the stores that they
-- reach; Steps and Invariant have what each successful call does to one Home and why that keeps the
-- store well-formed.
--
-- AccessGrant models src/access-grant.js: Rows the table and its columns, Create, Change and Query the
-- operations, Bodies the calls from a request's body with the notice, History the table over time.
-- ScopePolicy models src/resource-scope-policy.js. TurnSync models src/turnsync-policy.js: Policy the
-- policy in effect and its evaluation, Stored the database; a write is begin_set, which reads, and
-- finish_set, which is its one statement, so that writes interleave; Standing has the test that
-- src/turnsync-ingest.js makes on the policy before a turn is appended. Active, Requests and Precedence
-- describe an active connection, what a request spells and which policy goes first. RealmGuard models
-- src/realm-guard.js.
--
-- TaskRun models src/task-run.js: its own file the rows and cancelTaskRun, Proposal the arguments of
-- proposeTaskRun and Propose the rest with the tests of a parent, Routing who may commit a run and the
-- executor that is chosen, Dispatch dispatchTaskRun as what it checks, routes and invokes and the one
-- statement that writes, Query the listing and the status, Bodies the calls from a body. History has the
-- calls and the tables that they reach, one call after another; Stale has a cancellation that comes
-- between a dispatch and its statement. A dispatch goes through Executors: Profiles is the registry of
-- src/executor-profile.js, Hints and Capabilities what a request needs, Policy which profiles are
-- admitted and how they are compared, Route the selection with its receipt (Request), Context how context
-- reaches an executor; Rules and References describe what asks for a capability as tables, with
-- Occurrence and Searches for a word that stands by itself in a text; Pack, Envelope, Digest and
-- Adapters model src/executor-adapters.js.
--
-- Parameters. Times are numbers in the Home store and texts elsewhere, and each operation takes the
-- moment it reads. Ids that are minted are arguments; where it matters that one is new, a theorem
-- assumes it. SHA-256 and JSON.stringify are the record Digest of the Home store, JSON.stringify of a
-- pack the record PackJson of the adapters, parseObjectRef is a function RefParser, the transport of
-- notices and the tool that reads are functions, each of any behaviour. No loop needs fuel: each is a
-- recursion on a list.
--
-- Not modelled: the test hook and the injected store of the Home store; the answers without a database
-- binding and the database's other failures; values of a wrong type where a field of the standing policy
-- is a text; the order of rows of one moment in a listing, which is the table's here; objects whose text
-- would be an id; the lone half that a cut leaves of a surrogate pair; the table of route receipts, which
-- task runs only write; executorHealth, and the fields of a receipt that are passed through. Workspaces,
-- conversations and the rest of the turn ingest, correspondence, tool authorization and the authorization
-- server are not modelled.
pub mod Prelude
pub mod TaskRun
pub mod PrivateRealm
pub mod AccessGrant
pub mod ScopePolicy
pub mod TurnSync
pub mod RealmGuard
pub mod Executors
