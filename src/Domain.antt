-- ===== src/Domain.antt =====
-- packages/core/src/domain.
pub mod Vocabulary
pub mod Entities
pub mod Events
pub mod Policy
pub mod Errors
pub mod Commands
pub mod Defaults
pub mod Doubles
pub mod Dates
