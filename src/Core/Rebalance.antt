-- ===== src/Core/Rebalance.antt =====
-- librae/core/executor.py: a portfolio target as orders, and its execution as one batch.
pub mod Scaling
pub mod Targets
pub mod Weights
pub mod Funded
pub mod Told
pub mod Cancel
pub mod Split
pub mod Cancelled
mod Tests
use librae.Base.{String, Option, none, List}
use librae.Core.Intents.{OrderIntent, PortfolioWeights, OrderAction}
use librae.Core.Orders.{Run, OrderError}

pub data RebalancePhase : Type 0 where
  reduction addition : RebalancePhase

pub record RebalanceOrderState (R : Type 0) : Type 0 where
  pub intent : OrderIntent R
  pub phase : RebalancePhase
  pub requested_quantity : R
  pub remaining_quantity : R

pub record UnresolvedRebalanceLeg (R : Type 0) : Type 0 where
  pub symbol : String
  pub target_signed_notional : R
  pub reason : String

pub record PortfolioRebalanceState (R : Type 0) : Type 0 where
  pub target : PortfolioWeights R
  pub orders : List (RebalanceOrderState R)
  pub unresolved_legs : List (UnresolvedRebalanceLeg R)

-- The `ValueError`s, of which that of prices names the symbols, and the `KeyError` of a price.
pub data RebalanceError : Type 0 where
  price_unavailable grouped_scale_in : List String → RebalanceError
  no_equity price_missing : RebalanceError
  order_error : OrderError → RebalanceError

-- What a call leaves of the book and gives back.
pub record Rebalanced (R : Type 0) : Type 0 where
  pub run : Run R
  pub pending_rebalance : Option (PortfolioRebalanceState R)

-- The fields that the plan of a target fills of an intent; the others have their defaults.
abbrev pub target_intent : {R : Type 0} → OrderAction → String → Option R → String → OrderIntent R
target_intent action symbol quantity reason = record {
  action = action;
  symbol = symbol;
  quantity = quantity;
  reason = reason;
  limit_price = none;
  stop_price = none;
  take_profit_price = none;
  group_id = none;
  time_in_force = none;
}
