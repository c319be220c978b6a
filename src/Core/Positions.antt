-- ===== src/Core/Positions.antt =====
-- librae/core/executor.py and librae/core/strategy.py: open positions, the results and the events of
-- their fills, and what a close is worth. An instant is a number of microseconds.
mod Records
pub mod Close
unfoldable pub use Records.*
use librae.Base.{
  ℕ, String, Bool, true, false, Option, none, some, List, [], ◌∷◌, if◌then◌else◌, Dict,
}
use librae.Core.Intents.{PositionSide, long, short, TimeInForce}
use librae.Core.Events.{RuntimeEvent}
use librae.Core.Number.{
  Number, ◌+◌, ◌-◌, ◌*◌, ◌/◌, ◌<◌, ◌≤◌, neg, min, max, zero, one, hundred, epsilon,
}
use librae.Core.Costs.{
  CostModel, MarginMode, calc_pnl, calc_commission, calc_slippage, calc_tax, margin_rate,
  margin_mode, liquidation_price,
}

module _ {R : Type 0} ⦃num : Number R⦄ where
  unfoldable pub side_multiplier : PositionSide → R
  side_multiplier short = neg one
  side_multiplier long = one

  abbrev pub notional_of : CostModel R → R → R → R
  notional_of m price quantity = price * quantity * m.multiplier

  unfoldable pub margin_fields : R → R → PositionSide → CostModel R → MarginFields R
  margin_fields entry_price remaining_quantity side m =
      let notional = notional_of m entry_price remaining_quantity in
      let margin_locked = notional * margin_rate m side in
      record {
        margin_locked = margin_locked;
        leverage = if epsilon < margin_locked then some (notional / margin_locked) else none;
        liquidation =
            if zero < remaining_quantity then liquidation_price m entry_price side else none;
        mode = margin_mode m side;
      }

  -- `_margin_roi`
  unfoldable pub margin_roi : R → R → Option R
  margin_roi net_pnl closed_margin =
      if epsilon < closed_margin then some (net_pnl / closed_margin * hundred) else none

  -- `x / entry_notional * 100 if entry_notional > EPSILON else 0.0`
  abbrev pub percent_of : R → R → R
  percent_of x entry_notional =
      if epsilon < entry_notional then x / entry_notional * hundred else zero

  unfoldable pub calc_trade_pnl :
      R → R → R → PositionSide → CostModel R → R → R → R → Option R → TradePnl R
  unfolding side_multiplier
  calc_trade_pnl entry_price exit_price quantity side m entry_commission entry_slippage entry_tax
        exit_bar_volume =
      let gross_pnl = calc_pnl m entry_price exit_price quantity * side_multiplier side in
      let exit_commission = calc_commission m exit_price quantity in
      let exit_slippage = calc_slippage m quantity exit_bar_volume in
      let exit_tax = calc_tax m exit_price quantity in
      let net_pnl =
        gross_pnl
        - (entry_commission + exit_commission)
        - (entry_slippage + exit_slippage)
        - (entry_tax + exit_tax) in
      let entry_notional = notional_of m entry_price quantity in
      record {
        gross_pnl = gross_pnl;
        net_pnl = net_pnl;
        commission = entry_commission + exit_commission;
        slippage = entry_slippage + exit_slippage;
        tax = entry_tax + exit_tax;
        gross_return = percent_of gross_pnl entry_notional;
        net_return = percent_of net_pnl entry_notional;
        exit_commission = exit_commission;
        exit_slippage = exit_slippage;
        exit_tax = exit_tax;
      }

  unfoldable pub scale_into_position : PositionState R → Fill R → CostModel R → PositionState R
  scale_into_position pos fill m =
      let total = pos.total_entry_cost + notional_of m fill.price fill.quantity in
      let quantity = pos.quantity + fill.quantity in
      record pos {
        total_entry_cost = total;
        quantity = quantity;
        entry_price = total / (quantity * m.multiplier);
        entry_commission = pos.entry_commission + fill.commission;
        entry_slippage = pos.entry_slippage + fill.slippage;
        entry_tax = pos.entry_tax + fill.tax;
      }

  unfoldable pub reduce_position : PositionState R → R → PositionState R
  reduce_position pos closed_qty =
      let remaining = pos.quantity - closed_qty in
      let fraction = remaining / pos.quantity in
      if remaining ≤ epsilon then pos else record pos {
        quantity = remaining;
        total_entry_cost = pos.total_entry_cost * fraction;
        entry_commission = pos.entry_commission * fraction;
        entry_slippage = pos.entry_slippage * fraction;
        entry_tax = pos.entry_tax * fraction;
      }

  abbrev pub no_pnl : TradePnl R
  no_pnl = record {
    gross_pnl = zero;
    net_pnl = zero;
    commission = zero;
    slippage = zero;
    tax = zero;
    gross_return = zero;
    net_return = zero;
    exit_commission = zero;
    exit_slippage = zero;
    exit_tax = zero;
  }

  abbrev pub close_quantity : Option R → PositionState R → R
  close_quantity none pos = pos.quantity
  close_quantity (some quantity) pos = min quantity pos.quantity

  unfoldable pub close_position :
      PositionState R → R → CostModel R → Option R → Option R → TradePnl R × R × Bool
  unfolding calc_trade_pnl
  close_position pos exit_price m quantity bar_volume =
      let close_qty = close_quantity quantity pos in
      let fraction = close_qty / pos.quantity in
      let pnl =
        calc_trade_pnl pos.entry_price exit_price close_qty pos.side m
          (pos.entry_commission * fraction) (pos.entry_slippage * fraction)
          (pos.entry_tax * fraction) bar_volume in
      let margin_locked = notional_of m pos.entry_price close_qty * margin_rate m pos.side in
      let exit_costs = pnl.exit_commission + pnl.exit_slippage + pnl.exit_tax in
      if close_qty ≤ zero
      then (no_pnl, zero, false)
      else (pnl, margin_locked + pnl.gross_pnl - exit_costs, pos.quantity - epsilon ≤ close_qty)

  unfoldable pub build_trade_result : PositionState R → ℕ → R → R → TradePnl R → TradeResult R
  build_trade_result pos exit_at exit_price close_qty pnl = record {
    symbol = pos.symbol;
    entry_at = pos.entry_at;
    exit_at = exit_at;
    side = pos.side;
    entry_price = pos.entry_price;
    exit_price = exit_price;
    quantity = close_qty;
    gross_pnl = pnl.gross_pnl;
    commission = pnl.commission;
    slippage = pnl.slippage;
    tax = pnl.tax;
    net_pnl = pnl.net_pnl;
    gross_return = pnl.gross_return;
    net_return = pnl.net_return;
    periods_held = pos.periods_held;
    group_id = pos.group_id;
  }
