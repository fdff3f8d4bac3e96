-- ===== src/Sync.antt =====
-- server/internal/sync: Work Sync, the mirroring of a project's tree between two machines.
pub mod Manifest
pub mod Diff
pub mod Errors
pub mod Code
pub mod Archive
pub mod Backup
pub mod Service
mod Tests
