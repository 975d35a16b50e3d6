-- ===== src/Server.antt =====
-- packages/server/src: what it keeps in memory, and its administration of locations.
pub mod UploadQuota
pub mod LoginBackoff
