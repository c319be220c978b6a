-- ===== src/Core/Stops/Tests.antt =====
-- A long position of six units under a stop at 40, and a bar that gaps through it, of which four units can
-- be closed.
use librae.Base.{
  String, ◌≡◌, refl, inl, inr, none, some, List, [], ◌∷◌, map, Bool-cases, ◌==◌, nat_eq, string_eq,
  Dict, lookup, insert, Result, ok, err,
}
use librae.Core.Intents.{PositionSide}
use librae.Core.Number.{zero}
use librae.Core.Number.Int.{ℤ, pos, int_number, apart_int, tiny_int, irrefl_int, over_int, sub_int}
use librae.Core.Costs.{CostModel, unlevered, liquidation_price}
use librae.Core.Positions.{PositionState, reduce_position, close_position}
use librae.Core.Positions.Close.{build_close_event}
use librae.Core.Fills.Book.{replay_held, replay_cash}
use librae.Core.Bars.{Bar, order_side_is_tradable, resolve_stop_exit}
use librae.Core.Stops.Forced.{Residual, liquidate_all}
use librae.Core.Liquidity.{impact_volume_unavailable, volume_fill_limit}
use librae.Core.Stops.{market_exit_reason_of, Market, Exits, check_stop_targets, started}
use librae.Core.Stops.Steps.{IsTolerance, IsBook, size}
use librae.Core.Stops.Told.{check_stop_targets-Explains}
use librae.Core.Stops.Residuals.{left_of, open_of, liquidate_all-Explains}

abbrev spot : CostModel ℤ
spot = record {
  multiplier = pos 1;
  commission_rate = pos 0;
  min_commission = pos 3;
  slippage_ticks = pos 0;
  tick_size = pos 1;
  tax_rate = pos 0;
  long_margin_rate = pos 1;
  short_margin_rate = pos 1;
  volume_impact_ticks = pos 0;
  maintenance_margin_rate = pos 0;
  long_margin_mode = unlevered;
  short_margin_mode = unlevered;
  commission_per_contract = pos 0;
}

abbrev six_units : PositionState ℤ
six_units = record {
  symbol = "BTC";
  side = PositionSide.long;
  entry_price = pos 50;
  quantity = pos 6;
  entry_at = 7;
  periods_held = 4;
  entry_commission = pos 3;
  entry_slippage = pos 0;
  entry_tax = pos 0;
  total_entry_cost = pos 300;
  stop_price = some (pos 40);
  take_profit_price = none;
  pending_market_exit_reason = none;
  group_id = none;
}

abbrev gap : Bar ℤ
gap = record {
  high = some (pos 39);
  low = some (pos 30);
  open_ = some (pos 35);
  close_ = some (pos 33);
  volume = some (pos 10);
  can_buy = none;
  can_sell = none;
}

abbrev market : Market ℤ
market = record {
  bars = ("BTC", gap) ∷ [];
  ts = 9;
  get_cost_model = λ _. spot;
  bar_rate = none;
  adv_rate = none;
  get_volume = none;
  get_lagged_adv = none;
  eligible_symbols = none;
  get_executable_quantity = some (λ _ _. pos 4);
}

abbrev book : Dict String (PositionState ℤ)
book = ("BTC", six_units) ∷ []

abbrev whole : IsTolerance int_number
whole = record { apart = apart_int; irrefl = irrefl_int (pos 0); over = over_int; tiny = tiny_int }

stops_at_open : resolve_stop_exit six_units gap spot ≡ some (pos 35, "stop_loss")
unfolding resolve_stop_exit liquidation_price
stops_at_open = refl

book-IsBook : IsBook book
unfolding lookup
book-IsBook k = elim (Bool-cases ("BTC" == k)) [
  | inl h ↦ rw h ((string_eq.beq_iff "BTC" k).0 h, refl)
  | inr h ↦ rw h tt
]

-- What is left of a run, for runs that no bar's `ValueError` ends.
abbrev left : {E A : Type 0} → Result E A → A → A
left (ok a) fallback = a
left (err e) fallback = fallback

abbrev stopped : Exits ℤ
stopped = left (check_stop_targets market book none none) (started book none none)

stops : check_stop_targets market book none none ≡ ok stopped
unfolding check_stop_targets lookup resolve_stop_exit liquidation_price order_side_is_tradable
stops = refl

leaves_two : size "BTC" stopped.positions ≡ some (pos 2)
unfolding check_stop_targets lookup insert resolve_stop_exit liquidation_price
    order_side_is_tradable reduce_position sub_int build_close_event close_position
    impact_volume_unavailable volume_fill_limit market_exit_reason_of
leaves_two = refl

check_stop_targets-Explains_example :
    IsBook stopped.positions
    × ((k : String) → size k stopped.positions ≡ replay_held k (size k book) stopped.events)
    × (stopped.cash_delta ≡ replay_cash zero stopped.events)
check_stop_targets-Explains_example =
    check_stop_targets-Explains whole market book none none stopped book-IsBook stops

abbrev forced : Exits ℤ × List (Residual ℤ)
forced = left (liquidate_all market "force_close" book none none) (started book none none, [])

forces : liquidate_all market "force_close" book none none ≡ ok (forced.0, forced.1)
unfolding liquidate_all lookup order_side_is_tradable
forces = refl

liquidate_all-Explains_example :
    IsBook forced.0.positions
    × ((k : String) → size k forced.0.positions ≡ replay_held k (size k book) forced.0.events)
    × (forced.0.cash_delta ≡ replay_cash zero forced.0.events)
    × (map left_of forced.1 ≡ map open_of forced.0.positions)
liquidate_all-Explains_example =
    liquidate_all-Explains whole market "force_close" book none none forced.0 forced.1 book-IsBook
      forces
