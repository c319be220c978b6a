-- ===== src/Core/Fills.antt =====
-- librae/core/executor.py: `apply_execution_fill`, the one place where a confirmed execution changes
-- the positions and the cash of an account. A changed position replaces the old one in the book.
mod Parts
pub mod Errors
pub mod Book
pub mod Settled
mod Tests
unfoldable pub use Parts.*
use librae.Base.{
  ℕ, String, Bool, true, false, not, ◌&&◌, ◌||◌, Option, none, some, List, [], ◌∷◌, if◌then◌else◌,
  ◌==◌, string_eq, Dict, lookup, insert, erase, Result, ok, err,
}
use librae.Core.Intents.{PositionSide, long, short, TimeInForce}
use librae.Core.Number.{Number, ◌+◌, ◌-◌, ◌*◌, ◌/◌, ◌<◌, ◌≤◌, neg, min, zero, epsilon, all_finite}
use librae.Core.Costs.{CostModel, calc_pnl, margin_rate}
use librae.Core.Positions.{
  Fill, PositionState, TradePnl, PositionEvent, ExecutionResult, PositionEventType, open_, add_,
  reduce_, close_, margin_fields, margin_roi, notional_of, percent_of, side_multiplier,
  scale_into_position, reduce_position, build_trade_result,
}

-- The positions, the cash and the result that a fill leaves.
abbrev pub Applied : Type 0 → Type 0
Applied R = Dict String (PositionState R) × R × ExecutionResult R

module _ {R : Type 0} ⦃num : Number R⦄ where
  unfoldable pub enter :
      Dict String (PositionState R)
      → R
      → PositionEventType
      → PositionState R
      → Fill R
      → PositionSide
      → Context
      → CostModel R
      → Applied R
  unfolding outlay_of
  enter positions cash event_type position fill side c m = (
    insert fill.symbol position positions,
    cash - outlay_of fill side m,
    record {
      trades = [];
      events = entry_event event_type position fill side c m ∷ [];
      cash_delta = neg (outlay_of fill side m);
      runtime_events = [];
    },
  )

  unfoldable pub leave :
      Dict String (PositionState R)
      → R
      → PositionState R
      → Fill R
      → Context
      → CostModel R
      → Applied R
  leave positions cash position fill c m = (
    if is_full position fill
        then erase fill.symbol positions
        else insert fill.symbol (reduce_position position (closed_quantity position fill))
            positions,
    cash + proceeds_of position fill m,
    record {
      trades =
          build_trade_result position c.ts fill.price (closed_quantity position fill)
            (exit_pnl position fill m)
          ∷ [];
      events = exit_event position fill c m ∷ [];
      cash_delta = proceeds_of position fill m;
      runtime_events = [];
    },
  )

  -- What follows the lookup of the position.
  unfoldable pub settle :
      Dict String (PositionState R)
      → R
      → Fill R
      → OrderSide
      → Context
      → CostModel R
      → Option (PositionState R)
      → Result FillError (Applied R)
  unfolding enter leave
  settle positions cash fill order_side c m none =
      let side = entry_side_of order_side in
      ok (enter positions cash open_ (opened_position fill side c m) fill side c m)
  settle positions cash fill order_side c m (some position) =
      let side = entry_side_of order_side in
      if side_eq position.side side
      then ok (enter positions cash add_ (scale_into_position position fill m) fill side c m)
      else if position.quantity + epsilon < fill.quantity
      then err (crosses fill.symbol)
      else ok (leave positions cash position fill c m)

  unfoldable pub apply_execution_fill :
      Dict String (PositionState R)
      → R
      → Fill R
      → OrderSide
      → Context
      → CostModel R
      → Result FillError (Applied R)
  unfolding settle is_valid_fill
  apply_execution_fill positions cash fill order_side c m =
      if is_valid_fill fill
      then settle positions cash fill order_side c m (lookup fill.symbol positions)
      else err invalid_fill
