-- ===== src/Update.antt =====
-- internal/update: versions, the release manifest and the loop that offers an update.
pub mod Version
pub mod Manifest
pub mod Runner
pub mod Disk
pub mod Lock
pub mod Install
pub mod Cleanup
mod Examples
