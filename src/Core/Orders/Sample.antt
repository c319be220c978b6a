-- ===== src/Core/Orders/Sample.antt =====
-- A book of six units of SOL, half of which is closed beside a pair that opens as one and an order for
-- ETH that rests.
use librae.Base.{
  refl, String, refl, inl, inr, true, Option, none, some, List, [], ◌∷◌, map, if◌then◌else◌,
  Bool-cases, ◌==◌, nat_eq, string_eq, Dict, lookup,
}
use librae.Core.Intents.{OrderIntent, OrderAction, PositionSide, day}
use librae.Core.Events.{Value}
use librae.Core.Number.Int.{
  ℤ, sum_int, pos, int_number, apart_int, tiny_int, irrefl_int, over_int, sub-neg_int, le_int,
  sub_int, abs_int,
}
use librae.Core.Costs.{CostModel, unlevered}
use librae.Core.Positions.{PositionState}
use librae.Core.Stops.Steps.{IsBook}
use librae.Core.Orders.{Plan}
use librae.Core.Orders.Normalize.{Normal}
use librae.Core.Orders.Told.{IsMachine}

abbrev pub spot : CostModel ℤ
spot = record {
  multiplier = pos 1;
  commission_rate = pos 0;
  min_commission = pos 3;
  slippage_ticks = pos 0;
  tick_size = pos 1;
  tax_rate = pos 0;
  long_margin_rate = pos 1;
  short_margin_rate = pos 1;
  volume_impact_ticks = pos 0;
  maintenance_margin_rate = pos 0;
  long_margin_mode = unlevered;
  short_margin_mode = unlevered;
  commission_per_contract = pos 0;
}

abbrev pub six_units : PositionState ℤ
six_units = record {
  symbol = "SOL";
  side = PositionSide.long;
  entry_price = pos 50;
  quantity = pos 6;
  entry_at = 7;
  periods_held = 4;
  entry_commission = pos 3;
  entry_slippage = pos 0;
  entry_tax = pos 0;
  total_entry_cost = pos 300;
  stop_price = none;
  take_profit_price = none;
  pending_market_exit_reason = none;
  group_id = none;
}

abbrev pub book : Dict String (PositionState ℤ)
book = ("SOL", six_units) ∷ []

abbrev pub price_of : String → Option ℤ
price_of symbol =
    if symbol == "SOL"
    then some (pos 60)
    else if symbol == "BTC"
    then some (pos 50)
    else if symbol == "ADA"
    then some (pos 5)
    else none

abbrev pub plan : Plan ℤ
plan = record {
  ts = 9;
  primary_symbol = "BTC";
  get_price = λ symbol intent. price_of symbol;
  get_cost_model = λ _. spot;
  max_position_notional = none;
  max_order_notional = none;
  bar_rate = none;
  adv_rate = none;
  get_volume = none;
  get_lagged_adv = none;
  get_executable_quantity = none;
  validate_intent_prices = none;
  get_min_notional = none;
  as_value = λ _. Value.number 0;
  isclose = λ rtol atol a b. le_int (abs_int (sub_int a b)) atol;
}

abbrev pub order : OrderAction → String → ℤ → Option String → OrderIntent ℤ
order action symbol quantity group = record {
  action = action;
  symbol = symbol;
  quantity = some quantity;
  reason = "";
  limit_price = none;
  stop_price = none;
  take_profit_price = none;
  group_id = group;
  time_in_force = some day;
}

abbrev pub buy_btc : OrderIntent ℤ
buy_btc = order OrderAction.long "" (pos 3) (some "pair")

abbrev pub sell_ada : OrderIntent ℤ
sell_ada = order OrderAction.short "ADA" (pos 2) (some "pair")

abbrev pub buy_eth : OrderIntent ℤ
buy_eth = order OrderAction.long "ETH" (pos 4) none

abbrev pub batch : List (OrderIntent ℤ)
batch = order OrderAction.close "SOL" (pos 3) none ∷ buy_btc ∷ sell_ada ∷ buy_eth ∷ []

abbrev pub kept : List (Normal ℤ)
kept = map (λ intent. record { intent = intent; same = true }) batch

abbrev pub exact : IsMachine int_number
exact = record {
  float = record { sub_neg = sub-neg_int; apart = apart_int };
  tolerance = record {
    apart = apart_int;
    irrefl = irrefl_int (pos 0);
    over = over_int;
    tiny = tiny_int;
  };
  sum = sum_int;
}

pub book-IsBook : IsBook book
unfolding lookup
book-IsBook k = elim (Bool-cases ("SOL" == k)) [
  | inl h ↦ rw h ((string_eq.beq_iff "SOL" k).0 h, refl)
  | inr h ↦ rw h tt
]
