-- ===== src/Core/Positions/Close.antt =====
-- librae/core/executor.py: the trade and the event of a close at a price, and the value of the book.
use librae.Base.{ℕ, String, Bool, Option, some, [], ◌∷◌, if◌then◌else◌, Dict}
use librae.Core.Intents.{TimeInForce}
use librae.Core.Number.{Number, ◌+◌, ◌-◌, ◌*◌, max, zero}
use librae.Core.Costs.{CostModel, calc_pnl, margin_rate}
use librae.Core.Positions.{
  PositionState, Position, TradeResult, PositionEvent, reduce_, close_, close_quantity,
  close_position, build_trade_result, margin_fields, margin_roi, notional_of, side_multiplier,
}

module _ {R : Type 0} ⦃num : Number R⦄ where
  unfoldable pub build_close_event :
      PositionState R
      → ℕ
      → R
      → CostModel R
      → String
      → Option R
      → Option R
      → Option TimeInForce
      → TradeResult R × PositionEvent R × R × Bool
  build_close_event pos ts exit_price m reason quantity bar_volume time_in_force =
      let close_qty = close_quantity quantity pos in
      let (pnl, proceeds, fully_closed) =
        close_position pos exit_price m (some close_qty) bar_volume in
      let remaining_qty = if fully_closed then zero else max zero (pos.quantity - close_qty) in
      let margin = margin_fields pos.entry_price remaining_qty pos.side m in
      let closed = margin_fields pos.entry_price close_qty pos.side m in
      (
        build_trade_result pos ts exit_price close_qty pnl,
        record {
          ts = ts;
          symbol = pos.symbol;
          side = pos.side;
          event_type = if fully_closed then close_ else reduce_;
          fill_quantity = close_qty;
          price = exit_price;
          entry_price = pos.entry_price;
          remaining_quantity = remaining_qty;
          notional = notional_of m exit_price close_qty;
          commission = pnl.exit_commission;
          slippage = pnl.exit_slippage;
          tax = pnl.exit_tax;
          realized_pnl = some pnl.net_pnl;
          net_return = some pnl.net_return;
          entry_at = some pos.entry_at;
          periods_held = some pos.periods_held;
          reason = reason;
          entry_commission = some (pnl.commission - pnl.exit_commission);
          entry_slippage = some (pnl.slippage - pnl.exit_slippage);
          entry_tax = some (pnl.tax - pnl.exit_tax);
          group_id = pos.group_id;
          time_in_force = time_in_force;
          margin_locked = some margin.margin_locked;
          leverage = margin.leverage;
          liquidation_price = margin.liquidation;
          margin_roi = margin_roi pnl.net_pnl closed.margin_locked;
          margin_mode = some margin.mode;
          cash_flow = some proceeds;
        },
        proceeds,
        fully_closed,
      )

  unfoldable pub unrealized : CostModel R → PositionState R → R → R
  unrealized m ps price = calc_pnl m ps.entry_price price ps.quantity * side_multiplier ps.side

  unfoldable pub snapshot_of : String → PositionState R → R → Position R
  snapshot_of sym ps pnl = record {
    symbol = sym;
    side = ps.side;
    entry_price = ps.entry_price;
    quantity = ps.quantity;
    entry_at = ps.entry_at;
    periods_held = ps.periods_held;
    unrealized_pnl = pnl;
    stop_price = ps.stop_price;
    take_profit_price = ps.take_profit_price;
  }

  -- The cash is the first value of the running sum; a dictionary has each symbol once.
  unfoldable pub calc_equity :
      (String → PositionState R → R)
      → (String → CostModel R)
      → R
      → Dict String (PositionState R)
      → R × Dict String (Position R)
  unfolding unrealized snapshot_of
  calc_equity get_price get_cost_model mtm [] = (mtm, [])
  calc_equity get_price get_cost_model mtm ((sym, ps) ∷ rest) =
      let m = get_cost_model sym in
      let pnl = unrealized m ps (get_price sym ps) in
      let (total, snapshot) =
        calc_equity get_price get_cost_model
          (mtm + (pnl + notional_of m ps.entry_price ps.quantity * margin_rate m ps.side)) rest in
      (total, (sym, snapshot_of sym ps pnl) ∷ snapshot)
