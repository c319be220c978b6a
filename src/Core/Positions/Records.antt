-- ===== src/Core/Positions/Records.antt =====
-- The records of librae/core/strategy.py and librae/core/executor.py for fills, positions and trades.
use librae.Base.{ℕ, String, Option, List}
use librae.Core.Intents.{PositionSide, TimeInForce}
use librae.Core.Events.{RuntimeEvent}
use librae.Core.Costs.{MarginMode}

-- `Fill`, `PositionState` and `Position` of librae/core/strategy.py
pub record Fill (R : Type 0) : Type 0 where
  pub symbol : String
  pub side : PositionSide
  pub price : R
  pub quantity : R
  pub commission : R
  pub slippage : R
  pub tax : R

pub record PositionState (R : Type 0) : Type 0 where
  pub symbol : String
  pub side : PositionSide
  pub entry_price : R
  pub quantity : R
  pub entry_at : ℕ
  pub periods_held : ℕ
  pub entry_commission : R
  pub entry_slippage : R
  pub entry_tax : R
  pub total_entry_cost : R
  pub stop_price : Option R
  pub take_profit_price : Option R
  pub pending_market_exit_reason : Option String
  pub group_id : Option String

pub record Position (R : Type 0) : Type 0 where
  pub symbol : String
  pub side : PositionSide
  pub entry_price : R
  pub quantity : R
  pub entry_at : ℕ
  pub periods_held : ℕ
  pub unrealized_pnl : R
  pub stop_price : Option R
  pub take_profit_price : Option R

pub record TradeResult (R : Type 0) : Type 0 where
  pub symbol : String
  pub entry_at : ℕ
  pub exit_at : ℕ
  pub side : PositionSide
  pub entry_price : R
  pub exit_price : R
  pub quantity : R
  pub gross_pnl : R
  pub commission : R
  pub slippage : R
  pub tax : R
  pub net_pnl : R
  pub gross_return : R
  pub net_return : R
  pub periods_held : ℕ
  pub group_id : Option String

pub record TradePnl (R : Type 0) : Type 0 where
  pub gross_pnl : R
  pub net_pnl : R
  pub commission : R
  pub slippage : R
  pub tax : R
  pub gross_return : R
  pub net_return : R
  pub exit_commission : R
  pub exit_slippage : R
  pub exit_tax : R

pub data PositionEventType : Type 0 where
  open_ add_ reduce_ close_ : PositionEventType

pub record PositionEvent (R : Type 0) : Type 0 where
  pub ts : ℕ
  pub symbol : String
  pub side : PositionSide
  pub event_type : PositionEventType
  pub fill_quantity : R
  pub price : R
  pub entry_price : R
  pub remaining_quantity : R
  pub notional : R
  pub commission : R
  pub slippage : R
  pub tax : R
  pub realized_pnl : Option R
  pub net_return : Option R
  pub entry_at : Option ℕ
  pub periods_held : Option ℕ
  pub reason : String
  pub entry_commission : Option R
  pub entry_slippage : Option R
  pub entry_tax : Option R
  pub group_id : Option String
  pub time_in_force : Option TimeInForce
  pub margin_locked : Option R
  pub leverage : Option R
  pub liquidation_price : Option R
  pub margin_roi : Option R
  pub margin_mode : Option MarginMode
  pub cash_flow : Option R

-- `ExecutionResult` less `pending_rebalance` and `resting_intents`, which a fill leaves empty.
pub record ExecutionResult (R : Type 0) : Type 0 where
  pub trades : List (TradeResult R)
  pub events : List (PositionEvent R)
  pub cash_delta : R
  pub runtime_events : List RuntimeEvent

-- The result of `_margin_fields`.
pub record MarginFields (R : Type 0) : Type 0 where
  pub margin_locked : R
  pub leverage : Option R
  pub liquidation : Option R
  pub mode : MarginMode
