-- ===== src/Backtest.antt =====
-- The backtest engine, librae/backtest.
pub mod Envelopes
