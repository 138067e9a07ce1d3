-- ===== src/Connect.antt =====
-- How a connection is opened, and which connections count as alive: src/lib/ssh-connect-request.ts,
-- host-key.ts, connect-guard.ts, restoration-manager.ts, session-health.ts and async-retry.ts.
pub mod Settings
pub mod Request
pub mod Coherence
pub mod Agreement
pub mod Retry
pub mod Backoff
pub mod Stopping
pub mod Restoration
pub mod Waiting
pub mod Guard
pub mod Health
pub mod Exclusive
pub mod Checked
pub mod Downgraded
pub mod Examples
