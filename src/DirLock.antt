-- ===== src/DirLock.antt =====
-- The directory lock manager of the backend, backend/lib/dirlock/dirlock.go.
pub mod State
pub mod Dirs
pub mod Conflicts
pub mod Sweep
pub mod Acquire
pub mod Release
pub mod Status
pub mod Waits
pub mod Holders
pub mod Apart
pub mod Steps
pub mod Exclusion
pub mod Progress
mod Examples
pub mod Exemptions
pub mod Contracts
pub mod Notices
