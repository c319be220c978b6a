-- ===== src/Core/Orders/Closing.antt =====
-- The closes of the loop of `execute_order_intents`, librae/core/executor.py.
use librae.Base.{
  String, Bool, false, Option, none, some, [], ◌∷◌, ◌++◌, if◌then◌else◌, insert, erase, string_eq,
}
use librae.Core.Intents.{OrderIntent}
use librae.Core.Events.{skipped_with, field, end}
use librae.Core.Number.{Number, ◌+◌, ◌≤◌, zero, epsilon}
use librae.Core.Positions.{PositionState, reduce_position, close_quantity}
use librae.Core.Positions.Close.{build_close_event}
use librae.Core.Liquidity.{impact_volume_unavailable}
use librae.Core.Stops.{asked, capped, executable}
use librae.Core.Orders.{Plan, Run}
use librae.Core.Orders.Entry.{ioc_remainder_event, fok_falls_short}
use librae.Core.Orders.Opening.{skip, charged, volume_limit}

module _ {R : Type 0} ⦃num : Number R⦄ where
  abbrev pub is_zero_close : Option R → Bool
  is_zero_close none = false
  is_zero_close (some quantity) = quantity ≤ zero

  abbrev pub nothing_reason : Option R → String
  nothing_reason none = "quantity_not_executable"
  nothing_reason (some _) = "volume_capped"

  -- `requested_qty`
  abbrev pub fillable : Plan R → Run R → String → R → R
  fillable plan run symbol intended =
      executable plan.get_executable_quantity symbol
        (capped intended (volume_limit plan run symbol))

  -- The close of a quantity.
  unfoldable pub closed_now :
      Plan R → OrderIntent R → String → R → R → PositionState R → Run R → Run R
  closed_now plan intent symbol price quantity position run =
      let (trade, event, proceeds, fully_closed) =
        build_close_event position plan.ts price (plan.get_cost_model symbol) intent.reason
          (some quantity) (asked plan.get_volume symbol) intent.time_in_force in
      record run {
        trades = run.trades ++ trade ∷ [];
        events = run.events ++ event ∷ [];
        volume_consumed = charged symbol quantity run.volume_consumed;
        adv_consumed = charged symbol quantity run.adv_consumed;
        cash_delta = run.cash_delta + proceeds;
        positions =
            if fully_closed
            then erase symbol run.positions
            else insert symbol (reduce_position position trade.quantity) run.positions;
      }

  -- What follows the rounding of a close.
  unfoldable pub close_sized :
      Plan R → OrderIntent R → String → R → PositionState R → R → R → Run R → Run R
  unfolding closed_now
  close_sized plan intent symbol price position intended requested run =
      if requested ≤ epsilon
      then skip plan (nothing_reason (volume_limit plan run symbol)) symbol run
      else if fok_falls_short intent.time_in_force (some intended) requested
      then record run {
        runtime_events =
            run.runtime_events
            ++ skipped_with plan.ts "fok_not_fully_fillable" symbol (
                field "requested_quantity" (plan.as_value intended)
                  (field "fillable_quantity" (plan.as_value requested) end))
              ∷ [];
      }
      else closed_now plan intent symbol price requested position (record run {
        runtime_events =
            run.runtime_events
            ++ ioc_remainder_event plan.as_value plan.ts symbol intent.time_in_force (some intended)
                requested;
      })

  unfoldable pub close_step :
      Plan R → OrderIntent R → String → R → Run R → Option (PositionState R) → Run R
  unfolding close_sized
  close_step plan intent symbol price run none = run
  close_step plan intent symbol price run (some position) =
      let intended = close_quantity intent.quantity position in
      if is_zero_close intent.quantity
      then run
      else if impact_volume_unavailable (plan.get_cost_model symbol) (asked plan.get_volume symbol)
      then skip plan "volume_unavailable" symbol run
      else close_sized plan intent symbol price position intended
          (fillable plan run symbol intended) run
