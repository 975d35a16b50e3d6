-- ===== src/Services.antt =====
-- packages/core/src/services.
pub mod Access
pub mod Internal
pub mod Card
pub mod Relation
pub mod Watch
pub mod Notification
pub mod Comment
pub mod Attachment
pub mod PolicyService
pub mod Catalog
pub mod Board
pub mod Group
