-- ===== src/Core/Rebalance/Scaling.antt =====
-- `_scale_additions_to_cash` of librae/core/executor.py.
use librae.Base.{
  ℕ, suc, Option, sorted_set, String, none, some, List, [], ◌∷◌, map, if◌then◌else◌, Dict, lookup,
  string_eq,
}
use librae.Core.Intents.{OrderIntent, OrderAction, PositionSide}
use librae.Core.Events.{RuntimeEvent, text, entries, field, end, decision_skipped}
use librae.Core.Number.{Number, ◌+◌, ◌*◌, ◌/◌, ◌≤◌, zero, one, epsilon}
use librae.Core.Costs.{estimate_entry_outlay}
use librae.Core.Stops.{asked, or_else, executable}
use librae.Core.Orders.{Plan}
use librae.Core.Orders.Groups.{texts}

abbrev pub side_of_addition : OrderAction → PositionSide
side_of_addition OrderAction.short = PositionSide.short
side_of_addition _ = PositionSide.long

module _ {R : Type 0} ⦃num : Number R⦄ where
  -- A total with the cost of one more addition; `none` is the `KeyError` of `prices[action.symbol]`.
  abbrev pub with_cost : Option R → Option R → (R → R) → Option R
  with_cost (some total) (some price) cost = some (total + cost price)
  with_cost _ _ cost = none

  -- The half of the interval that goes on, by the outlay at its middle.
  abbrev pub halved : R → Option R → Option R → Option R → Option R
  halved cash none up down = none
  halved cash (some outlay) up down = if outlay ≤ cash then up else down

  -- The binary search of the scale.
  unfoldable pub search_scale : (R → Option R) → R → ℕ → R → R → Option R
  search_scale outlay cash (suc n) low high =
      let middle = (low + high) / (one + one) in
      let up = search_scale outlay cash n middle high in
      let down = search_scale outlay cash n low middle in halved cash (outlay middle) up down
  search_scale outlay cash _ low high = some low

module _ {R : Type 0} ⦃num : Number R⦄ (plan : Plan R) (prices : Dict String R) where
  -- The cost of an addition at a price.
  abbrev pub cost_at : R → OrderIntent R → R → R
  cost_at price action quantity =
      estimate_entry_outlay (plan.get_cost_model action.symbol) price quantity
        (side_of_addition action.action) (asked plan.get_volume action.symbol)

  abbrev pub scaled_quantity : OrderIntent R → R → R
  scaled_quantity action scale =
      executable plan.get_executable_quantity action.symbol (or_else action.quantity zero * scale)

  unfoldable pub outlay_from : Option R → R → List (OrderIntent R) → Option R
  outlay_from total scale [] = total
  outlay_from total scale (action ∷ rest) =
      let quantity = scaled_quantity action scale in
      let skipped = outlay_from total scale rest in
      let counted =
        outlay_from
          (with_cost total (lookup action.symbol prices) (λ price. cost_at price action quantity))
          scale rest in
      if quantity ≤ epsilon then skipped else counted

  abbrev pub total_outlay : List (OrderIntent R) → R → Option R
  total_outlay actions scale = outlay_from (some zero) scale actions

  unfoldable pub scaled_by : R → List (OrderIntent R) → List (OrderIntent R)
  scaled_by scale [] = []
  scaled_by scale (action ∷ rest) =
      let quantity = scaled_quantity action scale in
      let later = scaled_by scale rest in
      if quantity ≤ epsilon then later else record action { quantity = some quantity } ∷ later

  abbrev pub insufficient_cash : List (OrderIntent R) → R → RuntimeEvent
  insufficient_cash actions available_cash = record {
    ts = plan.ts;
    event_type = decision_skipped;
    symbol = none;
    detail = field "reason" (text "insufficient_cash") (
        field "symbols"
          (entries (texts (sorted_set (map (λ (a : OrderIntent R). a.symbol) actions))))
          (field "available_cash" (plan.as_value available_cash) end));
  }

  abbrev pub Scaled : Type 0
  Scaled = List (OrderIntent R) × List RuntimeEvent

  abbrev pub with_scale : List (OrderIntent R) → R → Option R → Option Scaled
  with_scale actions available_cash none = none
  with_scale actions available_cash (some low) =
      if low ≤ epsilon
      then some ([], insufficient_cash actions available_cash ∷ [])
      else some (scaled_by low actions, [])

  -- What the outlay at the full scale and the search decide.
  abbrev pub after_outlay : List (OrderIntent R) → R → Option R → Option R → Option Scaled
  after_outlay actions available_cash none found = none
  after_outlay actions available_cash (some outlay) found =
      if outlay ≤ available_cash + epsilon
      then some (actions, [])
      else with_scale actions available_cash found

  abbrev pub scaled_within : List (OrderIntent R) → R → Option R → Option R → Option Scaled
  scaled_within actions available_cash outlay found =
      if available_cash ≤ epsilon
      then some ([], insufficient_cash actions available_cash ∷ [])
      else after_outlay actions available_cash outlay found

  unfoldable pub scale_additions : List (OrderIntent R) → R → Option Scaled
  unfolding outlay_from scaled_by search_scale
  scale_additions [] available_cash = some ([], [])
  scale_additions (action ∷ rest) available_cash =
      let actions = action ∷ rest in
      scaled_within actions available_cash (total_outlay actions one)
        (search_scale (total_outlay actions) available_cash 60 zero one)
