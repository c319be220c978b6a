-- ===== src/Core/Fills/Tests.antt =====
-- A long position of six units that is opened and sold by half.
use librae.Base.{
  ℕ, String, ◌≡◌, refl, ◌↔◌, ◌⊎◌, true, false, none, some, [], ◌∷◌, map, Dict, lookup, err, ok,
  insert, ◌++◌, string_eq,
}
use librae.Core.Intents.{long}
use librae.Core.Number.Int.{
  int_number, ℤ, pos, add_int, sub_int, mul_int, neg_int, abs_int, sub-neg_int, apart_int,
}
use librae.Core.Costs.{
  CostModel, unlevered, calc_commission, calc_slippage, calc_tax, margin_rate, calc_pnl,
}
use librae.Core.Positions.{Fill, PositionState, PositionEvent, open_}
use librae.Core.Positions.Close.{build_close_event}
use librae.Core.Fills.{
  buy, sell, invalid_fill, crosses, Context, Applied, is_valid_fill, apply_execution_fill, enter,
  leave, opened_position, proceeds_of,
}
use librae.Core.Fills.Errors.{apply-err_iff, Crosses}
use librae.Core.Fills.Settled.{ChargedBy, settled_alike}
use librae.Core.Fills.Book.{
  IsFloat, Accepts, done, next, held, replay_held, replay_cash, Accepts-replay,
}

abbrev spot : CostModel ℤ
spot = record {
  multiplier = pos 1;
  commission_rate = pos 0;
  min_commission = pos 3;
  slippage_ticks = pos 0;
  tick_size = pos 1;
  tax_rate = pos 0;
  long_margin_rate = pos 1;
  short_margin_rate = pos 1;
  volume_impact_ticks = pos 0;
  maintenance_margin_rate = pos 0;
  long_margin_mode = unlevered;
  short_margin_mode = unlevered;
  commission_per_contract = pos 0;
}

abbrev fill_of : ℕ → ℕ → Fill ℤ
fill_of price quantity = record {
  symbol = "BTC";
  side = long;
  price = pos price;
  quantity = pos quantity;
  commission = pos 3;
  slippage = pos 0;
  tax = pos 0;
}

abbrev now : Context
now = record { ts = 7; reason = "entry"; group_id = none; time_in_force = none }

abbrev whole : IsFloat int_number
whole = record { sub_neg = sub-neg_int; apart = apart_int }

abbrev six_units : PositionState ℤ
six_units = record {
  symbol = "BTC";
  side = long;
  entry_price = pos 50;
  quantity = pos 6;
  entry_at = 7;
  periods_held = 4;
  entry_commission = pos 3;
  entry_slippage = pos 0;
  entry_tax = pos 0;
  total_entry_cost = pos 300;
  stop_price = none;
  take_profit_price = none;
  pending_market_exit_reason = none;
  group_id = none;
}

abbrev held_six : Dict String (PositionState ℤ)
held_six = ("BTC", six_units) ∷ []

-- A sale of eight units of which six are open.
apply-err_iff_example :
    (apply_execution_fill held_six (pos 900) (fill_of 60 8) sell now spot ≡ err (crosses "BTC")) ↔ (
      ((is_valid_fill (fill_of 60 8) ≡ false) × (crosses "BTC" ≡ invalid_fill))
      ⊎ ((is_valid_fill (fill_of 60 8) ≡ true)
          × Crosses (fill_of 60 8) sell (lookup "BTC" held_six)
          × (crosses "BTC" ≡ crosses "BTC")))
apply-err_iff_example =
    apply-err_iff held_six (pos 900) (fill_of 60 8) sell now spot (crosses "BTC")

sell_eight :
    apply_execution_fill held_six (pos 900) (fill_of 60 8) sell now spot ≡ err (crosses "BTC")
unfolding apply_execution_fill add_int lookup
sell_eight = refl

charged : ChargedBy spot none six_units (fill_of 60 3)
unfolding calc_commission calc_slippage calc_tax mul_int add_int abs_int
charged = record { commission = refl; slippage = refl; tax = refl }

settled_alike_example :
    let (trade, event, proceeds, fully_closed) =
      build_close_event six_units 7 (pos 60) spot "entry" (some (pos 3)) none none in
    let result = (leave held_six (pos 900) six_units (fill_of 60 3) now spot).2 in
    (result.trades ≡ trade ∷ [])
    × (result.cash_delta ≡ proceeds)
    × (map (λ (e : PositionEvent ℤ). e.event_type) result.events ≡ event.event_type ∷ [])
settled_alike_example =
    settled_alike spot none held_six (pos 900) six_units (fill_of 60 3) now charged refl

-- What the account is after it has bought six units, and after it has sold three of them.
abbrev bought : Applied ℤ
bought =
    enter [] (pos 1000) open_ (opened_position (fill_of 50 6) long now spot) (fill_of 50 6) long now
      spot

abbrev sold : Applied ℤ
sold =
    leave bought.0 bought.1 (opened_position (fill_of 50 6) long now spot) (fill_of 60 3) now spot

buys : apply_execution_fill [] (pos 1000) (fill_of 50 6) buy now spot ≡ ok bought
unfolding apply_execution_fill add_int lookup
buys = refl

sells : apply_execution_fill bought.0 bought.1 (fill_of 60 3) sell now spot ≡ ok sold
unfolding apply_execution_fill add_int lookup enter insert opened_position
sells = refl

trip : Accepts (λ _. spot) [] (pos 1000) (bought.2.events ++ (sold.2.events ++ [])) sold.0 sold.1
unfolding enter leave
trip =
    next bought.2 (fill_of 50 6) buy now buys
      (next sold.2 (fill_of 60 3) sell now sells (done sold.0 sold.1))

Accepts-replay_example :
    ((k : String) → held k sold.0 ≡ replay_held k none (bought.2.events ++ (sold.2.events ++ [])))
    × (sold.1 ≡ replay_cash (pos 1000) (bought.2.events ++ (sold.2.events ++ [])))
unfolding lookup
Accepts-replay_example = Accepts-replay whole (λ _. spot) trip

cash_left : sold.1 ≡ pos 874
unfolding enter leave proceeds_of opened_position add_int sub_int mul_int neg_int margin_rate
    calc_pnl
cash_left = refl
