-- ===== src/Core/Rebalance/Targets.antt =====
-- `_orders_for_target_notional` and `_plan_portfolio_weights` of librae/core/executor.py.
use librae.Base.{
  sorted_set, String, Bool, true, false, not, ◌||◌, Option, none, some, List, [], ◌∷◌, ◌++◌,
  if◌then◌else◌, nat_eq, string_eq, Dict, lookup, insert, Result, ok, err,
}
use librae.Core.Intents.{OrderAction, PortfolioWeights, is_some}
use librae.Core.Number.{Number, ◌-◌, ◌*◌, ◌/◌, ◌<◌, ◌≤◌, neg, abs, zero, epsilon, is_finite}
use librae.Core.Positions.{PositionState, side_multiplier}
use librae.Core.Positions.Close.{calc_equity}
use librae.Core.Stops.{or_else, keys}
use librae.Core.Orders.{Plan}
use librae.Core.Rebalance.{
  RebalancePhase, reduction, addition, RebalanceOrderState, UnresolvedRebalanceLeg,
  PortfolioRebalanceState, RebalanceError, price_unavailable, no_equity, target_intent,
}

-- The orders, the legs that wait for a price, and the fresh prices, as the loop fills them.
abbrev pub Planned : Type 0 → Type 0
Planned R = List (RebalanceOrderState R) × List (UnresolvedRebalanceLeg R) × Dict String R

-- `(a > 0) == (b > 0)`
abbrev pub same_sign : Bool → Bool → Bool
same_sign true b = b
same_sign false b = not b

module _ {R : Type 0} ⦃num : Number R⦄ where
  abbrev pub signed_quantity : Option (PositionState R) → R
  signed_quantity none = zero
  signed_quantity (some position) = position.quantity * side_multiplier position.side

  abbrev pub held_quantity : Option (PositionState R) → R
  held_quantity none = zero
  held_quantity (some position) = position.quantity

  -- `executable` inside
  abbrev pub rounded : Option (String → R → R) → String → R → R
  rounded none symbol quantity = if quantity ≤ epsilon then zero else quantity
  rounded (some resolve) symbol quantity =
      if quantity ≤ epsilon then zero else resolve symbol quantity

  abbrev pub order_of :
      RebalancePhase → OrderAction → String → R → String → List (RebalanceOrderState R)
  order_of phase action symbol quantity reason =
      if epsilon < quantity
      then record {
        intent = target_intent action symbol (some quantity) reason;
        phase = phase;
        requested_quantity = quantity;
        remaining_quantity = quantity;
      }
        ∷ []
      else []

  abbrev pub entry_action : R → OrderAction
  entry_action target = if zero < target then OrderAction.long else OrderAction.short

  abbrev pub is_flat : R → Bool
  is_flat quantity = abs quantity ≤ epsilon

  abbrev pub same_direction : R → R → Bool
  same_direction current target =
      is_flat current || is_flat target || same_sign (zero < current) (zero < target)

  abbrev pub resized : Plan R → String → String → R → R → List (RebalanceOrderState R)
  resized plan symbol reason target delta =
      if delta < neg epsilon
      then order_of reduction OrderAction.close symbol
          (rounded plan.get_executable_quantity symbol (neg delta)) reason
      else if epsilon < delta
      then order_of addition (entry_action target) symbol
          (rounded plan.get_executable_quantity symbol delta) reason
      else []

  abbrev pub flipped_orders :
      Plan R → String → String → Option (PositionState R) → R → List (RebalanceOrderState R)
  flipped_orders plan symbol reason position target =
      order_of reduction OrderAction.close symbol
        (rounded plan.get_executable_quantity symbol (held_quantity position)) reason
      ++ order_of addition (entry_action target) symbol
          (rounded plan.get_executable_quantity symbol (abs target)) reason

  unfoldable pub orders_for_target_notional :
      Plan R
      → String
      → R
      → String
      → Dict String (PositionState R)
      → R
      → List (RebalanceOrderState R)
  orders_for_target_notional plan symbol target_signed_notional reason positions price =
      let position = lookup symbol positions in
      let current = signed_quantity position in
      let target = target_signed_notional / (price * (plan.get_cost_model symbol).multiplier) in
      if same_direction current target
      then resized plan symbol reason target (abs target - abs current)
      else flipped_orders plan symbol reason position target

  -- A price that is given, finite and positive.
  abbrev pub valid_price : Option R → Option R
  valid_price none = none
  valid_price (some price) = if not (is_finite price) || price ≤ zero then none else some price

  abbrev pub without_price : (String → Option R) → List String → List String
  without_price get_price [] = []
  without_price get_price (symbol ∷ rest) =
      let later = without_price get_price rest in
      if is_some (valid_price (get_price symbol)) then later else symbol ∷ later

  abbrev pub targets_of : Dict String R → List String
  targets_of [] = []
  targets_of ((symbol, weight) ∷ rest) =
      let later = targets_of rest in if epsilon < abs weight then symbol ∷ later else later

  -- A symbol without a fresh price: a flat target closes at the entry price, another one waits.
  abbrev pub plan_unpriced :
      Plan R
      → PortfolioWeights R
      → Dict String (PositionState R)
      → String
      → R
      → Option (PositionState R)
      → Planned R
      → Planned R
  plan_unpriced plan targets positions symbol notional none (orders, legs, prices) =
      if abs notional ≤ epsilon then (orders, legs, prices) else (
        orders,
        legs
            ++ record {
              symbol = symbol;
              target_signed_notional = notional;
              reason = targets.reason;
            }
              ∷ [],
        prices,
      )
  plan_unpriced plan targets positions symbol notional (some position) (orders, legs, prices) =
      if abs notional ≤ epsilon
      then (
        orders
            ++ orders_for_target_notional plan symbol notional targets.reason positions
                position.entry_price,
        legs,
        prices,
      )
      else (
        orders,
        legs
            ++ record {
              symbol = symbol;
              target_signed_notional = notional;
              reason = targets.reason;
            }
              ∷ [],
        prices,
      )

  abbrev pub plan_symbol :
      Plan R
      → PortfolioWeights R
      → Dict String (PositionState R)
      → String
      → R
      → Option R
      → Planned R
      → Planned R
  plan_symbol plan targets positions symbol notional none planned =
      plan_unpriced plan targets positions symbol notional (lookup symbol positions) planned
  plan_symbol plan targets positions symbol notional (some price) (orders, legs, prices) = (
    orders ++ orders_for_target_notional plan symbol notional targets.reason positions price,
    legs,
    insert symbol price prices,
  )

  unfoldable pub plan_walk :
      Plan R
      → PortfolioWeights R
      → Dict String (PositionState R)
      → (String → Option R)
      → R
      → List String
      → Planned R
      → Planned R
  unfolding orders_for_target_notional
  plan_walk plan targets positions fresh equity [] planned = planned
  plan_walk plan targets positions fresh equity (symbol ∷ rest) planned =
      plan_walk plan targets positions fresh equity rest (
        plan_symbol plan targets positions symbol
          (or_else (lookup symbol targets.weights) zero * equity) (valid_price (fresh symbol))
          planned)

  abbrev pub equity_of : Plan R → (String → Option R) → R → Dict String (PositionState R) → R
  equity_of plan reference cash positions =
      (calc_equity (λ symbol _. or_else (valid_price (reference symbol)) zero) plan.get_cost_model
        cash positions).0

  abbrev pub state_of : PortfolioWeights R → Planned R → PortfolioRebalanceState R × Dict String R
  state_of targets (orders, legs, prices) =
      (record { target = targets; orders = orders; unresolved_legs = legs }, prices)

  abbrev pub plan_valued :
      Plan R
      → PortfolioWeights R
      → Dict String (PositionState R)
      → R
      → (String → Option R)
      → (String → Option R)
      → List String
      → List String
      → Result RebalanceError (PortfolioRebalanceState R × Dict String R)
  plan_valued plan targets positions cash reference fresh [] unavailable =
      ok (state_of targets ([], [], []))
  plan_valued plan targets positions cash reference fresh (first ∷ relevant)
        (missing ∷ unavailable) =
      err (price_unavailable (sorted_set (missing ∷ unavailable)))
  plan_valued plan targets positions cash reference fresh (first ∷ relevant) [] =
      let equity = equity_of plan reference cash positions in
      if equity ≤ epsilon
      then err no_equity
      else ok (
          state_of targets
            (plan_walk plan targets positions fresh equity (first ∷ relevant) ([], [], [])))

  unfoldable pub plan_portfolio_weights :
      Plan R
      → PortfolioWeights R
      → Dict String (PositionState R)
      → R
      → (String → Option R)
      → (String → Option R)
      → Result RebalanceError (PortfolioRebalanceState R × Dict String R)
  unfolding plan_walk
  plan_portfolio_weights plan targets positions cash reference fresh =
      plan_valued plan targets positions cash reference fresh
        (sorted_set (keys positions ++ targets_of targets.weights))
        (without_price reference (keys positions))
