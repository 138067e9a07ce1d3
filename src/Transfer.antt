-- ===== src/Transfer.antt =====
-- The transfer queue: src/lib/transfer-queue-reducer.ts, transfer-queue-service.ts and
-- transfer-progress.ts.
pub mod Types
pub mod Reducer
pub mod Service
pub mod Events
pub mod Invariant
pub mod Serial
pub mod Drain
mod Examples
pub mod Status
