-- ===== src/Core/Rebalance/Weights.antt =====
-- `execute_portfolio_weights` of librae/core/executor.py.
use librae.Base.{
  sorted_set, String, Bool, true, false, not, ◌&&◌, ◌||◌, Option, none, some, List, [], ◌∷◌, ◌++◌,
  map, if◌then◌else◌, Dict, lookup, Result, ok, err, is_nil, select, mem, string_eq,
}
use librae.Core.Intents.{OrderIntent, OrderAction, PortfolioWeights, is_some}
use librae.Core.Events.{RuntimeEvent}
use librae.Core.Number.{Number, ◌+◌, ◌<◌, neg, zero, epsilon}
use librae.Core.Positions.{PositionState}
use librae.Core.Stops.{or_else}
use librae.Core.Orders.{Plan, Run, Outcome, started_run}
use librae.Core.Orders.Execute.{execute_plain, priced_by}
use librae.Core.Orders.Groups.{commit}
use librae.Core.Rebalance.{
  RebalancePhase, reduction, addition, RebalanceOrderState, PortfolioRebalanceState, RebalanceError,
  price_unavailable, grouped_scale_in, price_missing, order_error, Rebalanced, target_intent,
}
use librae.Core.Rebalance.Scaling.{scale_additions}
use librae.Core.Rebalance.Targets.{plan_portfolio_weights, valid_price}

abbrev pub is_addition : RebalancePhase → Bool
is_addition addition = true
is_addition reduction = false

module _ {R : Type 0} ⦃num : Number R⦄ where
  abbrev pub target_action : R → OrderAction
  target_action weight =
      if epsilon < weight
      then OrderAction.long
      else if weight < neg epsilon
      then OrderAction.short
      else OrderAction.close

  -- `reference_price`
  abbrev pub reference_of :
      Plan R → PortfolioWeights R → Option (String → Option R) → String → Option R
  reference_of plan targets (some reference) symbol = reference symbol
  reference_of plan targets none symbol = plan.get_price symbol (
      target_intent (target_action (or_else (lookup symbol targets.weights) zero)) symbol none
        targets.reason)

  abbrev pub orders_in : Bool → List (RebalanceOrderState R) → List (RebalanceOrderState R)
  orders_in additions = select (λ (o : RebalanceOrderState R).
      if additions then is_addition o.phase else not (is_addition o.phase))

  abbrev pub intents_in_phase : Bool → List (RebalanceOrderState R) → List (OrderIntent R)
  intents_in_phase additions orders =
      map (λ (o : RebalanceOrderState R). o.intent) (orders_in additions orders)

  abbrev pub symbols_in : List (OrderIntent R) → List String
  symbols_in = map (λ (intent : OrderIntent R). intent.symbol)

  abbrev pub is_grouped : Option (PositionState R) → Bool
  is_grouped none = false
  is_grouped (some position) = is_some position.group_id

  -- The symbols of additions that are not flips, of which a position has a group.
  abbrev pub grouped_additions :
      Dict String (PositionState R) → List (OrderIntent R) → List (OrderIntent R) → List String
  grouped_additions positions reductions [] = []
  grouped_additions positions reductions (intent ∷ rest) =
      let later = grouped_additions positions reductions rest in
      if not (mem intent.symbol (symbols_in reductions))
        && is_grouped (lookup intent.symbol positions)
      then intent.symbol ∷ later
      else later

  abbrev pub unpriced_symbols : Plan R → List (OrderIntent R) → List String
  unpriced_symbols plan [] = []
  unpriced_symbols plan (intent ∷ rest) =
      let later = unpriced_symbols plan rest in
      if is_some (valid_price (plan.get_price intent.symbol intent))
      then later
      else intent.symbol ∷ later

  abbrev pub withheld_of : PortfolioRebalanceState R → Option (PortfolioRebalanceState R)
  withheld_of state =
      if is_nil (orders_in true state.orders) && is_nil state.unresolved_legs
      then none
      else some (record state { orders = orders_in true state.orders })

  -- The plan of the reductions, which no limit of entries binds.
  abbrev pub unlimited : Plan R → Plan R
  unlimited plan = record plan { max_position_notional = none; max_order_notional = none }

  -- The call for the reductions, and the one for the additions on what they leave.
  abbrev pub reduced : Plan R → R → List (OrderIntent R) → Run R → Outcome R
  reduced plan cash reductions run =
      execute_plain (unlimited plan) (priced_by plan) cash reductions run.positions
        run.volume_consumed run.adv_consumed

  abbrev pub added : Plan R → R → List (OrderIntent R) → Run R → Outcome R
  added plan cash additions run =
      execute_plain plan (priced_by plan) (cash + run.cash_delta) additions run.positions
        run.volume_consumed run.adv_consumed

  abbrev pub raised_in : Rebalanced R → Option RebalanceError → Rebalanced R × Option RebalanceError
  raised_in result raised = (result, raised)

  abbrev pub only : Run R → Rebalanced R
  only run = record { run = run; pending_rebalance = none }

  abbrev pub after_additions : Run R → Outcome R → Rebalanced R × Option RebalanceError
  after_additions run (result, none) =
      (only (record (commit run result) { resting_intents = [] }), none)
  after_additions run (result, some e) = (
    only (record run {
      positions = result.positions;
      volume_consumed = result.volume_consumed;
      adv_consumed = result.adv_consumed;
    }),
    some (order_error e),
  )

  abbrev pub with_cash_events :
      Plan R
      → R
      → Run R
      → Option (List (OrderIntent R) × List RuntimeEvent)
      → Rebalanced R × Option RebalanceError
  with_cash_events plan cash run none = (only run, some price_missing)
  with_cash_events plan cash run (some (additions, events)) =
      after_additions (record run { runtime_events = run.runtime_events ++ events })
        (added plan cash additions run)

  abbrev pub after_reductions :
      Plan R
      → R
      → Bool
      → Option (PortfolioRebalanceState R)
      → Dict String R
      → List (OrderIntent R)
      → Outcome R
      → Rebalanced R × Option RebalanceError
  after_reductions plan cash reductions_only withheld prices additions (run, some e) =
      (only run, some (order_error e))
  after_reductions plan cash true withheld prices additions (run, none) =
      (record { run = run; pending_rebalance = withheld }, none)
  after_reductions plan cash false withheld prices additions (run, none) =
      with_cash_events plan cash run (scale_additions plan prices additions (cash + run.cash_delta))

  -- The batch, once the plan and the positions allow it.
  abbrev pub run_batch :
      Plan R
      → R
      → Bool
      → Option (PortfolioRebalanceState R)
      → Dict String R
      → List (OrderIntent R)
      → List (OrderIntent R)
      → Run R
      → Rebalanced R × Option RebalanceError
  run_batch plan cash reductions_only withheld prices reductions additions run =
      let missing = unpriced_symbols plan (reductions ++ additions) in
      if is_nil missing
      then after_reductions plan cash reductions_only withheld prices additions
          (reduced plan cash reductions run)
      else (only run, some (price_unavailable (sorted_set missing)))

  abbrev pub checked_batch :
      Plan R
      → R
      → Bool
      → Run R
      → PortfolioRebalanceState R
      → Dict String R
      → Rebalanced R × Option RebalanceError
  checked_batch plan cash reductions_only run state prices =
      let reductions = intents_in_phase false state.orders in
      let additions = intents_in_phase true state.orders in
      let grouped = grouped_additions run.positions reductions additions in
      if is_nil grouped
      then (if reductions_only
          then run_batch plan cash true (withheld_of state) prices reductions [] run
          else run_batch plan cash false none prices reductions additions run)
      else (only run, some (grouped_scale_in (sorted_set grouped)))

  abbrev pub planned_batch :
      Plan R
      → R
      → Bool
      → Run R
      → Result RebalanceError (PortfolioRebalanceState R × Dict String R)
      → Rebalanced R × Option RebalanceError
  planned_batch plan cash reductions_only run (err e) = (only run, some e)
  planned_batch plan cash reductions_only run (ok (state, prices)) =
      if is_nil state.unresolved_legs || reductions_only
      then checked_batch plan cash reductions_only run state prices
      else (
        only run,
        some (price_unavailable (sorted_set (map (λ leg. leg.symbol) state.unresolved_legs))),
      )

  unfoldable pub execute_portfolio_weights :
      Plan R
      → PortfolioWeights R
      → Option (String → Option R)
      → Bool
      → R
      → Dict String (PositionState R)
      → Dict String R
      → Dict String R
      → Rebalanced R × Option RebalanceError
  unfolding plan_portfolio_weights scale_additions execute_plain commit
  execute_portfolio_weights plan targets reference reductions_only cash positions volume adv =
      let get_reference = reference_of plan targets reference in
      planned_batch plan cash reductions_only (started_run positions volume adv [])
        (plan_portfolio_weights plan targets positions cash get_reference get_reference)
