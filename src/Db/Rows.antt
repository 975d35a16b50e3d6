-- ===== src/Db/Rows.antt =====
-- The repositories of packages/core/src/testing/in-memory-db.ts other than the cards'.
mod Boards
mod Threads
mod Audit
unfoldable pub use Boards.*
unfoldable pub use Threads.*
unfoldable pub use Audit.*
