-- ===== src/Upload.antt =====
-- src/lib/upload-paths.ts: the paths of an upload, and the plans of directories and files.
pub mod Paths
pub mod Plan
pub mod Cut
pub mod Pieces
pub mod Normal
pub mod Ordered
pub mod Planned
pub mod Dropped
pub mod Mixed
mod Examples
