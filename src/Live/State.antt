-- ===== src/Live/State.antt =====
-- librae/live/state.py: the parts of a checkpoint that restart a run, as JSON and back.
pub mod Json
pub mod Decisions
pub mod Rebalances
pub mod Restored
pub mod Resumed
mod Tests
