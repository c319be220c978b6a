-- ===== src/Core/Rebalance/Tests.antt =====
-- A target that sells half of SOL and buys BTC, with cash for a part of it.
use librae.Base.{
  refl, String, ◌≡◌, refl, false, Option, none, List, [], ◌∷◌, Dict, lookup, insert, erase, All,
  mem, map, select, contains, not, ◌||◌, ◌&&◌, string_eq,
}
use librae.Core.Intents.{OrderIntent, OrderAction, PortfolioWeights, symbol_or}
use librae.Core.Number.Int.{
  ℤ, pos, int_number, add_int, mul_int, neg_int, sub_int, div_int, abs_int,
}
use librae.Core.Costs.{estimate_entry_outlay, calc_pnl, margin_rate}
use librae.Core.Positions.{reduce_position, close_position, side_multiplier}
use librae.Core.Positions.Close.{build_close_event, calc_equity}
use librae.Core.Liquidity.{simulate_fill, volume_fill_limit, impact_volume_unavailable}
use librae.Core.Stops.Steps.{IsBook, size}
use librae.Core.Orders.Entry.{try_fill, fok_falls_short, order_is_too_large}
use librae.Core.Orders.Opening.{attempt}
use librae.Core.Orders.Ledger.{replay_size}
use librae.Core.Orders.Sample.{plan, book, book-IsBook, exact, order}
use librae.Core.Rebalance.{
  RebalanceError, Rebalanced, reduction, addition, RebalanceOrderState, PortfolioRebalanceState,
}
use librae.Core.Rebalance.Cancel.{
  Cancellation, order_symbol, leg_symbol, retained_state, cancel_rebalance_symbols,
}
use librae.Core.Rebalance.Cancelled.{Reports, cancel_rebalance_symbols-Exact}
use librae.Core.Rebalance.Weights.{execute_portfolio_weights}
use librae.Core.Rebalance.Funded.{Funded}
use librae.Core.Rebalance.Told.{execute_portfolio_weights-Tells}

abbrev halves : PortfolioWeights ℤ
halves = record { weights = ("BTC", pos 1) ∷ []; reason = "rotate" }

abbrev rotated : Rebalanced ℤ × Option RebalanceError
rotated = execute_portfolio_weights plan halves none false (pos 1000) book [] []

rotates : rotated ≡ (rotated.0, none)
unfolding execute_portfolio_weights try_fill simulate_fill fok_falls_short lookup build_close_event
    close_position symbol_or impact_volume_unavailable sub_int estimate_entry_outlay add_int mul_int
    abs_int neg_int insert erase reduce_position volume_fill_limit attempt calc_pnl
    order_is_too_large div_int calc_equity side_multiplier margin_rate mem
rotates = refl

execute_portfolio_weights-Tells_example :
    IsBook rotated.0.run.positions
    × ((k : String)
        → size k rotated.0.run.positions ≡ replay_size k (size k book) rotated.0.run.events)
execute_portfolio_weights-Tells_example =
    execute_portfolio_weights-Tells exact plan halves none false (pos 1000) book [] [] rotated.0
      book-IsBook rotates

abbrev prices : Dict String ℤ
prices = ("BTC", pos 50) ∷ ("ADA", pos 5) ∷ []

abbrev wanted : List (OrderIntent ℤ)
wanted = order OrderAction.long "BTC" (pos 3) none ∷ order OrderAction.short "ADA" (pos 2) none ∷ []

abbrev reduction_of_sol : RebalanceOrderState ℤ
reduction_of_sol = record {
  intent = order OrderAction.close "SOL" (pos 2) none;
  phase = reduction;
  requested_quantity = pos 2;
  remaining_quantity = pos 1;
}

abbrev addition_of_btc : RebalanceOrderState ℤ
addition_of_btc = record {
  intent = order OrderAction.long "BTC" (pos 3) none;
  phase = addition;
  requested_quantity = pos 3;
  remaining_quantity = pos 3;
}

abbrev residual : PortfolioRebalanceState ℤ
residual = record {
  target = halves;
  orders = reduction_of_sol ∷ addition_of_btc ∷ [];
  unresolved_legs =
      record { symbol = "ADA"; target_signed_notional = neg_int (pos 50); reason = "rotate" } ∷ [];
}

abbrev exits : Dict String String
exits = ("SOL", "stop_loss") ∷ ("ADA", "liquidation") ∷ []

cancelled_symbols :
    map (λ (e : Cancellation ℤ). e.symbol) (cancel_rebalance_symbols residual exits 7).1
    ≡ "ADA" ∷ "SOL" ∷ []
unfolding cancel_rebalance_symbols contains lookup insert
cancelled_symbols = refl

cancel_rebalance_symbols-Exact_example :
    ((cancel_rebalance_symbols residual exits 7).0
      ≡ retained_state residual
          (select (λ o. not (contains (order_symbol o) exits)) residual.orders)
          (select (λ leg. not (contains (leg_symbol leg) exits)) residual.unresolved_legs))
    × ((s : String)
        → mem s
            (map (λ (e : Cancellation ℤ). e.symbol) (cancel_rebalance_symbols residual exits 7).1)
          ≡ (contains s exits
              && (mem s (map order_symbol residual.orders)
                  || mem s (map leg_symbol residual.unresolved_legs))))
    × All (Reports exits 7 residual) (cancel_rebalance_symbols residual exits 7).1
cancel_rebalance_symbols-Exact_example = cancel_rebalance_symbols-Exact exits 7 residual
