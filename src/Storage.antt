-- ===== src/Storage.antt =====
-- src/lib/connection-storage.ts: the saved connections and the folders that hold them.
pub mod Types
pub mod Secrets
pub mod Backup
pub mod Guarded
pub mod Folders
pub mod Connections
pub mod Order
pub mod Bundle
pub mod Sessions
pub mod Tree
pub mod Calls
pub mod Kept
pub mod Written
pub mod Guard
pub mod Sealing
pub mod Migration
pub mod Lost
pub mod Moved
pub mod Move
pub mod Depth
pub mod Reached
pub mod Copies
pub mod Cleaned
pub mod Found
pub mod Catalog
pub mod Refines
mod Examples
