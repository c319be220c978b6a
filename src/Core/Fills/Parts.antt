-- ===== src/Core/Fills/Parts.antt =====
-- The position, the event, the costs and the profit of one confirmed execution, by branch.
use librae.Base.{
  ℕ, String, Bool, true, false, not, ◌||◌, Option, none, some, [], ◌∷◌, if◌then◌else◌, string_eq,
}
use librae.Core.Intents.{PositionSide, long, short, TimeInForce}
use librae.Core.Number.{Number, ◌+◌, ◌-◌, ◌*◌, ◌/◌, ◌<◌, ◌≤◌, neg, min, zero, epsilon, all_finite}
use librae.Core.Costs.{CostModel, calc_pnl, margin_rate}
use librae.Core.Positions.{
  Fill, PositionState, TradePnl, PositionEvent, PositionEventType, reduce_, close_, margin_fields,
  margin_roi, notional_of, percent_of, side_multiplier,
}

pub data OrderSide : Type 0 where
  buy sell : OrderSide

-- The `ValueError`s.
pub data FillError : Type 0 where
  invalid_fill : FillError
  crosses : String → FillError

abbrev pub side_eq : PositionSide → PositionSide → Bool
side_eq long long = true
side_eq short short = true
side_eq _ _ = false

abbrev pub entry_side_of : OrderSide → PositionSide
entry_side_of buy = long
entry_side_of sell = short

-- What goes with every fill of an order.
pub record Context : Type 0 where
  pub ts : ℕ
  pub reason : String
  pub group_id : Option String
  pub time_in_force : Option TimeInForce

module _ {R : Type 0} ⦃num : Number R⦄ where
  unfoldable pub is_valid_fill : Fill R → Bool
  is_valid_fill fill = not (
      not
        (all_finite (fill.price ∷ fill.quantity ∷ fill.commission ∷ fill.slippage ∷ fill.tax ∷ []))
      || fill.price ≤ zero
      || fill.quantity ≤ zero
      || min fill.slippage fill.tax < zero)

  abbrev pub costs_of : Fill R → R
  costs_of fill = fill.commission + fill.slippage + fill.tax

  unfoldable pub opened_position : Fill R → PositionSide → Context → CostModel R → PositionState R
  opened_position fill side c m = record {
    symbol = fill.symbol;
    side = side;
    entry_price = fill.price;
    quantity = fill.quantity;
    entry_at = c.ts;
    periods_held = 0;
    entry_commission = fill.commission;
    entry_slippage = fill.slippage;
    entry_tax = fill.tax;
    total_entry_cost = notional_of m fill.price fill.quantity;
    stop_price = none;
    take_profit_price = none;
    pending_market_exit_reason = none;
    group_id = c.group_id;
  }

  unfoldable pub outlay_of : Fill R → PositionSide → CostModel R → R
  outlay_of fill side m =
      notional_of m fill.price fill.quantity * margin_rate m side + costs_of fill

  unfoldable pub entry_event :
      PositionEventType
      → PositionState R
      → Fill R
      → PositionSide
      → Context
      → CostModel R
      → PositionEvent R
  unfolding outlay_of
  entry_event event_type position fill side c m =
      let margin = margin_fields position.entry_price position.quantity side m in
      record {
        ts = c.ts;
        symbol = fill.symbol;
        side = side;
        event_type = event_type;
        fill_quantity = fill.quantity;
        price = fill.price;
        entry_price = position.entry_price;
        remaining_quantity = position.quantity;
        notional = notional_of m fill.price fill.quantity;
        commission = fill.commission;
        slippage = fill.slippage;
        tax = fill.tax;
        realized_pnl = none;
        net_return = none;
        entry_at = some position.entry_at;
        periods_held = none;
        reason = c.reason;
        entry_commission = none;
        entry_slippage = none;
        entry_tax = none;
        group_id = c.group_id;
        time_in_force = c.time_in_force;
        margin_locked = some margin.margin_locked;
        leverage = margin.leverage;
        liquidation_price = margin.liquidation;
        margin_roi = none;
        margin_mode = some margin.mode;
        cash_flow = some (neg (outlay_of fill side m));
      }

  abbrev pub closed_quantity : PositionState R → Fill R → R
  closed_quantity position fill = min fill.quantity position.quantity

  abbrev pub is_full : PositionState R → Fill R → Bool
  is_full position fill = position.quantity - epsilon ≤ closed_quantity position fill

  unfoldable pub exit_pnl : PositionState R → Fill R → CostModel R → TradePnl R
  unfolding side_multiplier
  exit_pnl position fill m =
      let close_quantity = closed_quantity position fill in
      let fraction = close_quantity / position.quantity in
      let gross_pnl =
        calc_pnl m position.entry_price fill.price close_quantity * side_multiplier position.side in
      let total_commission = position.entry_commission * fraction + fill.commission in
      let total_slippage = position.entry_slippage * fraction + fill.slippage in
      let total_tax = position.entry_tax * fraction + fill.tax in
      let net_pnl = gross_pnl - total_commission - total_slippage - total_tax in
      let entry_notional = notional_of m position.entry_price close_quantity in
      record {
        gross_pnl = gross_pnl;
        net_pnl = net_pnl;
        commission = total_commission;
        slippage = total_slippage;
        tax = total_tax;
        gross_return = percent_of gross_pnl entry_notional;
        net_return = percent_of net_pnl entry_notional;
        exit_commission = fill.commission;
        exit_slippage = fill.slippage;
        exit_tax = fill.tax;
      }

  abbrev pub closed_margin : PositionState R → Fill R → CostModel R → R
  closed_margin position fill m =
      notional_of m position.entry_price (closed_quantity position fill)
      * margin_rate m position.side

  unfoldable pub proceeds_of : PositionState R → Fill R → CostModel R → R
  unfolding exit_pnl
  proceeds_of position fill m =
      closed_margin position fill m + (exit_pnl position fill m).gross_pnl - costs_of fill

  unfoldable pub exit_event : PositionState R → Fill R → Context → CostModel R → PositionEvent R
  unfolding proceeds_of
  exit_event position fill c m =
      let pnl = exit_pnl position fill m in
      let close_quantity = closed_quantity position fill in
      let fraction = close_quantity / position.quantity in
      let fully_closed = is_full position fill in
      let remaining_quantity = if fully_closed then zero else position.quantity - close_quantity in
      let margin = margin_fields position.entry_price remaining_quantity position.side m in
      record {
        ts = c.ts;
        symbol = fill.symbol;
        side = position.side;
        event_type = if fully_closed then close_ else reduce_;
        fill_quantity = close_quantity;
        price = fill.price;
        entry_price = position.entry_price;
        remaining_quantity = remaining_quantity;
        notional = notional_of m fill.price fill.quantity;
        commission = fill.commission;
        slippage = fill.slippage;
        tax = fill.tax;
        realized_pnl = some pnl.net_pnl;
        net_return = some pnl.net_return;
        entry_at = some position.entry_at;
        periods_held = some position.periods_held;
        reason = c.reason;
        entry_commission = some (position.entry_commission * fraction);
        entry_slippage = some (position.entry_slippage * fraction);
        entry_tax = some (position.entry_tax * fraction);
        group_id = position.group_id;
        time_in_force = c.time_in_force;
        margin_locked = some margin.margin_locked;
        leverage = margin.leverage;
        liquidation_price = margin.liquidation;
        margin_roi = margin_roi pnl.net_pnl (closed_margin position fill m);
        margin_mode = some margin.mode;
        cash_flow = some (proceeds_of position fill m);
      }
