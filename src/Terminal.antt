-- ===== src/Terminal.antt =====
-- The tabbed terminal area: src/lib/terminal-group-types.ts, terminal-group-reducer.ts and
-- terminal-group-serializer.ts.
pub mod Types
pub mod Grid
pub mod Tabs
pub mod State
pub mod Reducer
pub mod Invariant
pub mod Reach
pub mod Visible
pub mod Store
mod Examples
