-- ===== src/Live.antt =====
-- The live runtime, librae/live.
pub mod Alerts
pub mod Resting
pub mod Audit
pub mod State
pub mod Halts
