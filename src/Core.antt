-- ===== src/Core.antt =====
-- librae/core: the parts that the backtest and the live runtime share.
pub mod Events
pub mod Intents
pub mod Pending
pub mod Number
pub mod Costs
pub mod Positions
pub mod Fills
pub mod Bars
pub mod Liquidity
pub mod Stops
pub mod Orders
pub mod Rebalance
pub mod Financing
pub mod Exposure
pub mod Readiness
pub mod Decisions
