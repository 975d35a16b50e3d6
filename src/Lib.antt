-- ===== src/Lib.antt =====
-- A model of the core of the AI kanban board: packages/core, the services that every surface
-- (REST, MCP, Slack, jobs) calls, over the store they share.
--
-- The parts and their files:
-- - Prelude: array methods as list functions, equality tests, membership, fractional positions.
-- - Domain: packages/core/src/domain. Entities are the rows, Commands the parsed inputs, Events the
--   audit log and the hints, Policy the policy document, Errors the typed errors.
-- - Policy: packages/core/src/policy/policy-engine.ts, function by function (Engine); what it means to
--   be permitted (Permitted); its throwing guard and its refusals (Guards).
-- - Db: packages/core/src/testing/in-memory-db.ts, the reference implementation of the ports in
--   packages/core/src/ports. `DbState` holds the tables, a `Tx` is a call over a `World`, `run` and
--   `read` are the unit of work. Cards and Rows are the repositories.
-- - Services: Access is board-access.ts with the guards of internal.ts, Internal its events, hints, tags
--   and retry, and Card is card-service.ts, one file per group of operations. An operation `f` is the
--   public method, and `f_tx` the function it gives to the unit of work. Relation is
--   relation-service.ts, Watch watch-service.ts, Notification notification-service.ts, Comment
--   comment-service.ts, Attachment attachment-service.ts, PolicyService policy-service.ts, and Group,
--   Catalog and Board board-service.ts.
-- - Relations, Watching, Threads, Discussion, Attachments, Policies, Inbox, Boards, WorkTime,
--   Rounding, Overdue, Transactions and Lifecycle hold theorems: which links can be stored; who
--   watches a card; the shape of threads; the caps on attachments; policy versions; who is told of
--   an event; the catalog, removals of boards and names of groups; business time and its rounding;
--   what a unit of work and its retry promise; what each operation commits (Commit, Change, Moves,
--   Edits, Fields, Updates, Creations, Deletions), how they fail (Places), which fields a card may
--   have in which lane (Shape), the valid stores (Valid, Keeps, MoveKeeps, UpdateKeeps), any run of
--   operations (Commands, Outcomes, Reachable), and versions (Locking, Conflicts).
-- - Server: packages/server/src/uploads/upload-quota.ts and packages/server/src/auth/backoff.ts. Quotas
--   and Backoff hold their theorems.
-- - Web: packages/web/src/undo/action-history.ts and packages/web/src/board/move-options.ts. History,
--   Dragging and Drops hold their theorems. A lane of the web board is its key, its label and the ids of its
--   cards; a callback of the history is a function of the board that may fail.
-- - Examples: a small board, and the theorems at it.
--
-- How the model reads the code. An asynchronous call is a function of the world to a result and a
-- world; an exception is an `err`. Units of work are serialised by the store, so interleavings are the
-- orders of whole calls. A UUID is a number, since ids are only compared; an ISO instant is its
-- millisecond count and an ISO date its day number; a position is the list of its code units. Inputs
-- are the commands after their schemas have parsed them. The clock, the id generator, the key
-- generator of the package fractional-indexing (`none` where it throws), the runtime's lower case and
-- the blob store are the fields of `Deps`, and no theorem assumes anything of them. Loops
-- are structural, over lists, save the one over days in dates.ts, whose fuel is the number of days
-- between the instants and two more, and the search for the spacing of the doubles around a number, whose
-- 64 doublings are enough below 2 ^ 49 minutes. Minutes are doubles, rounded as JavaScript rounds them
-- (Domain.Doubles; Rounding says how far); the loop of dates.ts stands for any way to add up, so that
-- Overdue compares its doubles with the exact count of WorkTime.
--
-- Not modelled: the schemas' length and format bounds; the tables of sessions, passwords, OAuth and
-- filter presets, which the server's services own; the
-- query service; packages/db; and, beyond the files above, packages/server and packages/web, which are
-- mostly routes, adapters and React components.
pub mod Prelude
pub mod Domain
pub mod Policy
pub mod Db
pub mod Services
pub mod Transactions
pub mod Lifecycle
pub mod Relations
pub mod Watching
pub mod Threads
pub mod Discussion
pub mod Attachments
pub mod Policies
pub mod Inbox
pub mod Boards
pub mod Rounding
pub mod WorkTime
pub mod Overdue
pub mod Server
pub mod Web
pub mod Quotas
pub mod Backoff
pub mod History
pub mod Dragging
pub mod Drops
pub mod Examples
