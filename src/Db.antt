-- ===== src/Db.antt =====
-- The store behind the services: its tables, transactions over it, and the repositories
-- (packages/core/src/testing/in-memory-db.ts implements packages/core/src/ports/repositories.ts).
pub mod State
pub mod Tx
pub mod Cards
pub mod Rows
