-- ===== src/Core/Bars/Tests.antt =====
-- A long position under a stop at 40, and a bar that opens below it; a limit order on that bar.
use librae.Base.{true, ◌≡◌, refl, ◌⊎◌, none, some, ok}
use librae.Core.Intents.{PositionSide, OrderIntent, OrderAction}
use librae.Core.Number.Int.{ℤ, pos, int_number, irrefl_int, asym_int, self_int}
use librae.Core.Costs.{CostModel, unlevered, liquidation_price}
use librae.Core.Positions.{PositionState}
use librae.Core.Fills.{buy}
use librae.Core.Bars.Limits.{Honours, resolve_fill_price-Honours}
use librae.Core.Bars.{
  order_side_is_tradable, intent_order_side, reached, Bar, resolve_stop_exit, resolve_fill_price,
}
use librae.Core.Bars.Exits.{IsOrder, AtLevel, AtTarget, resolve_stop_exit-cases}

abbrev plain : CostModel ℤ
plain = record {
  multiplier = pos 1;
  commission_rate = pos 0;
  min_commission = pos 3;
  slippage_ticks = pos 0;
  tick_size = pos 1;
  tax_rate = pos 0;
  long_margin_rate = pos 1;
  short_margin_rate = pos 1;
  volume_impact_ticks = pos 0;
  maintenance_margin_rate = pos 0;
  long_margin_mode = unlevered;
  short_margin_mode = unlevered;
  commission_per_contract = pos 0;
}

abbrev stopped_long : PositionState ℤ
stopped_long = record {
  symbol = "BTC";
  side = PositionSide.long;
  entry_price = pos 50;
  quantity = pos 2;
  entry_at = 7;
  periods_held = 4;
  entry_commission = pos 3;
  entry_slippage = pos 0;
  entry_tax = pos 0;
  total_entry_cost = pos 100;
  stop_price = some (pos 40);
  take_profit_price = none;
  pending_market_exit_reason = none;
  group_id = none;
}

abbrev gap : Bar ℤ
gap = record {
  high = some (pos 39);
  low = some (pos 30);
  open_ = some (pos 35);
  close_ = some (pos 33);
  volume = some (pos 10);
  can_buy = none;
  can_sell = none;
}

abbrev order : IsOrder int_number
order = record { irrefl = irrefl_int; asym = asym_int; self = self_int }

stops_below : resolve_stop_exit stopped_long gap plain ≡ some (pos 35, "stop_loss")
unfolding resolve_stop_exit liquidation_price
stops_below = refl

resolve_stop_exit-cases_example :
    AtTarget stopped_long (pos 35, "stop_loss")
    ⊎ AtLevel stopped_long plain (pos 39) (pos 30) (pos 35) (pos 35, "stop_loss")
resolve_stop_exit-cases_example =
    resolve_stop_exit-cases order stopped_long gap plain (pos 39) (pos 30) (pos 35)
      (pos 35, "stop_loss") refl refl refl refl stops_below

abbrev buy_at_38 : OrderIntent ℤ
buy_at_38 = record {
  action = OrderAction.long;
  symbol = "BTC";
  quantity = none;
  reason = "";
  limit_price = some (pos 38);
  stop_price = none;
  take_profit_price = none;
  group_id = none;
  time_in_force = none;
}

-- A limit that the open is already through fills at the open.
fills_at_open : resolve_fill_price gap buy_at_38 none ≡ ok (some (pos 35))
unfolding resolve_fill_price
fills_at_open = refl

side_is_buy : intent_order_side OrderAction.long none ≡ some buy
unfolding intent_order_side
side_is_buy = refl

resolve_fill_price-Honours_example :
    (order_side_is_tradable gap buy ≡ ok true)
    × Honours buy (pos 35) (pos 38)
    × ((high : ℤ) × (low : ℤ) × (gap.high ≡ some high)
        × (gap.low ≡ some low)
        × (reached buy low high (pos 38) ≡ true))
resolve_fill_price-Honours_example =
    resolve_fill_price-Honours order gap buy_at_38 none buy (pos 38) (pos 35) refl side_is_buy
      fills_at_open
