-- ===== src/Services/Card.antt =====
-- packages/core/src/services/card-service.ts: the lifecycle of a card.
mod Common
mod Create
mod Update
mod Move
mod Finish
mod Flags
mod Jobs
unfoldable pub use Common.*
unfoldable pub use Create.*
unfoldable pub use Update.*
unfoldable pub use Move.*
unfoldable pub use Finish.*
unfoldable pub use Flags.*
unfoldable pub use Jobs.*
