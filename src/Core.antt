-- ===== src/Core.antt =====
-- src/threshold/core: the shared types and the pure policy decisions.
pub mod Types
pub mod Auth
pub mod Config
pub mod QuietHours
pub mod Timestamp
pub mod LedgerEntry
pub mod Ledger
