-- ===== src/Storage.antt =====
-- The storage layer (src/ai_engineering_os/storage): one transaction over the recorded entities.
pub mod Database
pub mod Session
pub mod Writes
pub mod Keeps
pub mod Closed
pub mod Preserves
pub mod Appends
pub mod Stream
pub mod Mappers
pub mod Repositories
mod Examples
