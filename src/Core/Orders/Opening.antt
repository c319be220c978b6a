-- ===== src/Core/Orders/Opening.antt =====
-- The entries and the adds of the loop of `execute_order_intents`, librae/core/executor.py.
use librae.Base.{
  String, Option, none, some, [], ◌∷◌, ◌++◌, if◌then◌else◌, Dict, lookup, insert, Result, ok, err,
  string_eq,
}
use librae.Core.Intents.{OrderIntent, PositionSide}
use librae.Core.Events.{skipped}
use librae.Core.Number.{Number, ◌+◌, ◌-◌, neg, zero}
use librae.Core.Positions.{
  Fill, PositionState, PositionEvent, PositionEventType, open_, add_, margin_fields, notional_of,
  scale_into_position,
}
use librae.Core.Fills.{side_eq}
use librae.Core.Liquidity.{volume_fill_limit}
use librae.Core.Stops.{asked, or_else}
use librae.Core.Orders.{Plan, Run, Outcome, order_too_large}
use librae.Core.Orders.Entry.{try_fill, ioc_remainder_event, order_is_too_large}

abbrev pub given_or : {A : Type 0} → Option A → Option A → Option A
given_or none kept = kept
given_or (some a) kept = some a

module _ {R : Type 0} ⦃num : Number R⦄ where
  abbrev pub skip : Plan R → String → String → Run R → Run R
  skip plan reason symbol run = record run {
    runtime_events = run.runtime_events ++ skipped plan.ts reason (some symbol) ∷ [];
  }

  -- `used[sym] = used.get(sym, 0.0) + quantity`
  abbrev pub charged : String → R → Dict String R → Dict String R
  charged symbol quantity used = insert symbol (or_else (lookup symbol used) zero + quantity) used

  abbrev pub volume_limit : Plan R → Run R → String → Option R
  volume_limit plan run symbol =
      volume_fill_limit plan.bar_rate (asked plan.get_volume symbol) plan.adv_rate
        (asked plan.get_lagged_adv symbol) (or_else (lookup symbol run.volume_consumed) zero)
        (or_else (lookup symbol run.adv_consumed) zero)

  abbrev pub resolver : Option (String → R → R) → String → Option (R → R)
  resolver none symbol = none
  resolver (some resolve) symbol = some (resolve symbol)

  unfoldable pub attempt :
      Plan R → R → OrderIntent R → String → R → R → Run R → Result String (Fill R × R)
  attempt plan cash intent symbol price existing run =
      try_fill intent price (cash + run.cash_delta) (plan.get_cost_model symbol)
        plan.max_position_notional existing (volume_limit plan run symbol)
        (asked plan.get_volume symbol) (resolver plan.get_executable_quantity symbol)
        (asked plan.get_min_notional symbol)

  unfoldable pub opened : Plan R → OrderIntent R → String → R → Fill R → PositionState R
  opened plan intent symbol price fill = record {
    symbol = symbol;
    side = fill.side;
    entry_price = price;
    quantity = fill.quantity;
    entry_at = plan.ts;
    periods_held = 0;
    entry_commission = fill.commission;
    entry_slippage = fill.slippage;
    entry_tax = fill.tax;
    total_entry_cost = notional_of (plan.get_cost_model symbol) price fill.quantity;
    stop_price = intent.stop_price;
    take_profit_price = intent.take_profit_price;
    pending_market_exit_reason = none;
    group_id = intent.group_id;
  }

  -- The position after an add, whose stop and target follow those that the intent gives.
  unfoldable pub scaled :
      Plan R → OrderIntent R → String → Fill R → PositionState R → PositionState R
  unfolding scale_into_position
  scaled plan intent symbol fill position =
      let grown = scale_into_position position fill (plan.get_cost_model symbol) in
      record grown {
        stop_price = given_or intent.stop_price grown.stop_price;
        take_profit_price = given_or intent.take_profit_price grown.take_profit_price;
      }

  -- The event of an entry or of an add, for the position after it.
  unfoldable pub entry_event_of :
      Plan R
      → PositionEventType
      → OrderIntent R
      → String
      → R
      → Fill R
      → R
      → PositionState R
      → PositionEvent R
  entry_event_of plan event_type intent symbol price fill outlay position =
      let m = plan.get_cost_model symbol in
      let margin = margin_fields position.entry_price position.quantity position.side m in
      record {
        ts = plan.ts;
        symbol = symbol;
        side = position.side;
        event_type = event_type;
        fill_quantity = fill.quantity;
        price = price;
        entry_price = position.entry_price;
        remaining_quantity = position.quantity;
        notional = notional_of m price fill.quantity;
        commission = fill.commission;
        slippage = fill.slippage;
        tax = fill.tax;
        realized_pnl = none;
        net_return = none;
        entry_at = some position.entry_at;
        periods_held = none;
        reason = intent.reason;
        entry_commission = none;
        entry_slippage = none;
        entry_tax = none;
        group_id = intent.group_id;
        time_in_force = intent.time_in_force;
        margin_locked = some margin.margin_locked;
        leverage = margin.leverage;
        liquidation_price = margin.liquidation;
        margin_roi = none;
        margin_mode = some margin.mode;
        cash_flow = some (neg outlay);
      }

  abbrev pub with_remainder : Plan R → OrderIntent R → String → R → Run R → Run R
  with_remainder plan intent symbol filled run = record run {
    runtime_events =
        run.runtime_events
        ++ ioc_remainder_event plan.as_value plan.ts symbol intent.time_in_force intent.quantity
            filled;
  }

  -- What an accepted fill books, with the position after it.
  unfoldable pub booked :
      Plan R
      → PositionEventType
      → OrderIntent R
      → String
      → R
      → Fill R
      → R
      → PositionState R
      → Run R
      → Run R
  unfolding entry_event_of
  booked plan event_type intent symbol price fill outlay position run = record run {
    positions = insert symbol position run.positions;
    cash_delta = run.cash_delta - outlay;
    events =
        run.events ++ entry_event_of plan event_type intent symbol price fill outlay position ∷ [];
    volume_consumed = charged symbol fill.quantity run.volume_consumed;
    adv_consumed = charged symbol fill.quantity run.adv_consumed;
  }

  -- The refusal of an order that is too large comes after the event of the remainder.
  unfoldable pub book_fill :
      Plan R
      → PositionEventType
      → OrderIntent R
      → String
      → R
      → (Fill R → PositionState R)
      → Run R
      → Result String (Fill R × R)
      → Outcome R
  unfolding booked
  book_fill plan event_type intent symbol price position_after run (err reason) =
      (skip plan reason symbol run, none)
  book_fill plan event_type intent symbol price position_after run (ok (fill, outlay)) =
      let noted = with_remainder plan intent symbol fill.quantity run in
      if order_is_too_large fill (plan.get_cost_model symbol) plan.max_order_notional
      then (noted, some (order_too_large symbol))
      else (
        booked plan event_type intent symbol price fill outlay (position_after fill) noted,
        none,
      )

  abbrev pub add_to :
      Plan R → R → OrderIntent R → String → R → PositionState R → Run R → Option R → Outcome R
  add_to plan cash intent symbol price position run none =
      (skip plan "missing_quantity" symbol run, none)
  add_to plan cash intent symbol price position run (some quantity) =
      book_fill plan add_ intent symbol price (λ fill. scaled plan intent symbol fill position) run
        (attempt plan cash intent symbol price position.quantity run)

  -- A step for an entry: open, add, or the refusal of the opposite side.
  unfoldable pub enter_step :
      Plan R
      → R
      → OrderIntent R
      → String
      → R
      → PositionSide
      → Run R
      → Option (PositionState R)
      → Outcome R
  unfolding book_fill scaled opened
  enter_step plan cash intent symbol price side run none =
      book_fill plan open_ intent symbol price (opened plan intent symbol price) run
        (attempt plan cash intent symbol price zero run)
  enter_step plan cash intent symbol price side run (some position) =
      if side_eq position.side side
      then add_to plan cash intent symbol price position run intent.quantity
      else (skip plan "opposite_side" symbol run, none)
