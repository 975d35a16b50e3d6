-- ===== src/Lifecycle.antt =====
-- packages/core/src/services/card-service.ts: what the operations on a card do to the store, and what
-- holds of every card after any run of them.
pub mod Commit
pub mod Change
pub mod Moves
pub mod Shape
pub mod Valid
pub mod Keeps
pub mod MoveKeeps
pub mod Edits
pub mod Fields
pub mod Updates
pub mod UpdateKeeps
pub mod Reachable
pub mod Locking
pub mod Conflicts
pub mod Places
pub mod Creations
pub mod Deletions
pub mod Commands
pub mod Outcomes
