-- ===== src/Core/Orders/Tests.antt =====
-- Runs of the sample: closes, a pair, and an order that rests.
use librae.Base.{
  refl, String, ◌≡◌, refl, true, false, none, some, List, [], ◌∷◌, nat_eq, string_eq, lookup, ok,
  select, insert, erase,
}
use librae.Core.Intents.{symbol_or, PositionSide, day}
use librae.Core.Number.{◌-◌, ◌<◌, ◌≤◌, neg, zero, epsilon}
use librae.Core.Number.Int.{ℤ, add_int, mul_int, neg_int, pos, int_number, sub_int, abs_int}
use librae.Core.Costs.{calc_pnl, estimate_entry_outlay}
use librae.Core.Positions.{reduce_position, Fill, close_position}
use librae.Core.Positions.Close.{build_close_event}
use librae.Core.Liquidity.{volume_fill_limit, simulate_fill, impact_volume_unavailable}
use librae.Core.Fills.Book.{replay_cash}
use librae.Core.Stops.Steps.{IsBook, size}
use librae.Core.Orders.{Run, Outcome, started_run}
use librae.Core.Orders.Opening.{attempt}
use librae.Core.Orders.Entry.{order_is_too_large, try_fill, fok_falls_short, is_below_minimum}
use librae.Core.Orders.Execute.{prepare}
use librae.Core.Orders.Groups.{Leg, intents_in, run_unit, execute_order_intents}
use librae.Core.Orders.Accepted.{try_fill-Accepted}
use librae.Core.Orders.Ledger.{replay_size}
use librae.Core.Orders.Whole.{execute_order_intents-Accounts, execute_order_intents-Tells}
use librae.Core.Orders.Atomic.{AllOrNothing, run_unit-AllOrNothing}
use librae.Core.Orders.Lost.{
  awaits, execute_order_intents-resting, execute_order_intents-rests_none,
}
use librae.Core.Orders.Sample.{
  spot, book, plan, buy_btc, sell_ada, buy_eth, batch, kept, exact, book-IsBook,
}

abbrev bought : Fill ℤ
bought = record {
  symbol = "";
  side = PositionSide.long;
  price = pos 50;
  quantity = pos 3;
  commission = pos 3;
  slippage = pos 0;
  tax = pos 0;
}

fills :
    try_fill buy_btc (pos 50) (pos 1000) spot none (pos 0) none none none none
    ≡ ok (bought, pos 153)
unfolding try_fill simulate_fill fok_falls_short impact_volume_unavailable sub_int
    estimate_entry_outlay add_int mul_int abs_int neg_int
fills = refl

try_fill-Accepted_example :
    ((bought.quantity ≤ zero) ≡ false)
    × (bought.side ≡ PositionSide.long)
    × (pos 153 ≡ estimate_entry_outlay spot (pos 50) bought.quantity bought.side none)
    × ((pos 1000 - pos 153 < neg epsilon) ≡ false)
    × (fok_falls_short (some day) (some (pos 3)) bought.quantity ≡ false)
    × (is_below_minimum none (pos 50) spot bought.quantity ≡ false)
    × (impact_volume_unavailable spot none ≡ false)
try_fill-Accepted_example =
    try_fill-Accepted exact.tolerance.tiny PositionSide.long buy_btc (pos 50) (pos 1000) spot none
      (pos 0) none none none none bought (pos 153) refl fills

abbrev ungrouped : Outcome ℤ
ungrouped = execute_order_intents plan false (pos 1000) batch book [] []

abbrev grouped : Outcome ℤ
grouped = execute_order_intents plan true (pos 1000) batch book [] []

prepares : prepare plan book batch ≡ ok (kept, [])
unfolding prepare lookup symbol_or
prepares = refl

returns : ungrouped ≡ (ungrouped.0, none)
unfolding execute_order_intents try_fill simulate_fill fok_falls_short lookup build_close_event
    close_position symbol_or impact_volume_unavailable sub_int estimate_entry_outlay add_int mul_int
    abs_int neg_int insert erase reduce_position volume_fill_limit attempt calc_pnl
    order_is_too_large
returns = refl

returns_grouped : grouped ≡ (grouped.0, none)
unfolding execute_order_intents try_fill simulate_fill fok_falls_short lookup build_close_event
    close_position symbol_or impact_volume_unavailable sub_int estimate_entry_outlay add_int mul_int
    abs_int neg_int insert erase reduce_position volume_fill_limit attempt calc_pnl
    order_is_too_large
returns_grouped = refl

execute_order_intents-Accounts_example :
    IsBook ungrouped.0.positions
    × ((k : String) → size k ungrouped.0.positions ≡ replay_size k (size k book) ungrouped.0.events)
    × (ungrouped.0.cash_delta ≡ replay_cash zero ungrouped.0.events)
execute_order_intents-Accounts_example =
    execute_order_intents-Accounts exact plan (pos 1000) batch book [] [] book-IsBook

execute_order_intents-Tells_example :
    IsBook grouped.0.positions
    × ((k : String) → size k grouped.0.positions ≡ replay_size k (size k book) grouped.0.events)
execute_order_intents-Tells_example =
    execute_order_intents-Tells exact plan true (pos 1000) batch book [] [] grouped.0 book-IsBook
      returns_grouped

abbrev pair : List (Leg ℤ)
pair = ("BTC", pos 3) ∷ ("ADA", pos 2) ∷ []

abbrev begun : Run ℤ
begun = started_run book [] [] []

run_unit-AllOrNothing_example :
    AllOrNothing plan pair begun
      (run_unit plan (pos 1000) ((some "pair", buy_btc ∷ sell_ada ∷ []), pair) begun)
run_unit-AllOrNothing_example =
    run_unit-AllOrNothing plan (pos 1000) "pair" (buy_btc ∷ sell_ada ∷ []) pair begun

execute_order_intents-resting_example :
    ungrouped.0.resting_intents ≡ select (awaits plan) (intents_in kept)
execute_order_intents-resting_example =
    execute_order_intents-resting plan (pos 1000) batch book [] [] kept [] ungrouped.0 prepares
      returns

execute_order_intents-rests_none_example : grouped.0.resting_intents ≡ []
execute_order_intents-rests_none_example =
    execute_order_intents-rests_none plan (pos 1000) batch book [] [] kept [] prepares refl

-- The order for ETH rests without groups.
rests_eth : ungrouped.0.resting_intents ≡ buy_eth ∷ []
unfolding execute_order_intents try_fill simulate_fill fok_falls_short lookup build_close_event
    close_position symbol_or impact_volume_unavailable sub_int estimate_entry_outlay add_int mul_int
    abs_int neg_int insert erase reduce_position volume_fill_limit attempt calc_pnl
    order_is_too_large
rests_eth = refl
