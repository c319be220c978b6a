-- ===== src/Core/Rebalance/Told.antt =====
-- The events of a rebalance tell the book that it leaves.
use librae.Base.{
  some-none, String, ◌≡◌, ap, inl, inr, Bool, true, false, ◌||◌, Option, none, some, List, [], ◌++◌,
  if◌then◌else◌, Bool-cases, Dict, Result, ok, err, is_nil,
}
use mathlib.Core.Path.{subst}
use librae.Core.Intents.{OrderIntent, PortfolioWeights}
use librae.Core.Events.{RuntimeEvent}
use librae.Core.Number.{Number, ◌+◌}
use librae.Core.Positions.{PositionState}
use librae.Core.Stops.Steps.{IsBook, size}
use librae.Core.Orders.{Plan, Run, Outcome, started_run}
use librae.Core.Orders.Execute.{priced_by}
use librae.Core.Orders.Ledger.{Tells, replay_size}
use librae.Core.Orders.Told.{IsMachine}
use librae.Core.Orders.Whole.{plain-Accounts, commit-Tells}
use librae.Core.Rebalance.{PortfolioRebalanceState, RebalanceError, Rebalanced}
use librae.Core.Rebalance.Scaling.{scale_additions}
use librae.Core.Rebalance.Targets.{plan_portfolio_weights}
use librae.Core.Rebalance.Weights.{
  reference_of, intents_in_phase, grouped_additions, unpriced_symbols, withheld_of, unlimited,
  added, after_additions, with_cash_events, after_reductions, run_batch, checked_batch,
  planned_batch, execute_portfolio_weights,
}

module _ {R : Type 0} ⦃num : Number R⦄ (exact : IsMachine num) (plan : Plan R)
    (before : Dict String (PositionState R)) (cash : R) where
  -- A call that returns leaves a book that its events tell.
  abbrev Ends : Rebalanced R × Option RebalanceError → Type 0
  Ends o = (after : Rebalanced R) → o ≡ (after, none) → Tells before after.run

  raises : (r : Rebalanced R) (e : RebalanceError) → Ends (r, some e)
  raises r e after h = absurd (some-none (ap (λ (p : Rebalanced R × Option RebalanceError). p.1) h))

  returns : (r : Rebalanced R) → Tells before r.run → Ends (r, none)
  returns r told after h =
      subst (λ (p : Rebalanced R × Option RebalanceError). Tells before p.0.run) h told

  additions-Ends :
      (run : Run R) (o : Outcome R)
      → Tells before run
      → Tells run.positions o.0
      → Ends (after_additions run o)
  additions-Ends run (result, some e) told later = raises _ _
  additions-Ends run (result, none) told later =
      returns _ (commit-Tells exact plan before run result told later)

  cash_events-Ends :
      (run : Run R) (scaled : Option (List (OrderIntent R) × List RuntimeEvent))
      → Tells before run
      → Ends (with_cash_events plan cash run scaled)
  cash_events-Ends run none told = raises _ _
  cash_events-Ends run (some (additions, events)) told =
      additions-Ends (record run { runtime_events = run.runtime_events ++ events })
        (added plan cash additions run) told
        (plain-Accounts exact plan (priced_by plan) (cash + run.cash_delta) additions run.positions
          run.volume_consumed run.adv_consumed told.0).0

  reductions-Ends :
      (reductions_only : Bool) (withheld : Option (PortfolioRebalanceState R))
      (prices : Dict String R) (additions : List (OrderIntent R)) (o : Outcome R)
      → Tells before o.0
      → Ends (after_reductions plan cash reductions_only withheld prices additions o)
  reductions-Ends reductions_only withheld prices additions (run, some e) told = raises _ _
  reductions-Ends true withheld prices additions (run, none) told = returns _ told
  reductions-Ends false withheld prices additions (run, none) told =
      cash_events-Ends run (scale_additions plan prices additions (cash + run.cash_delta)) told

  batch-Ends :
      (reductions_only : Bool) (withheld : Option (PortfolioRebalanceState R))
      (prices : Dict String R) (reductions additions : List (OrderIntent R))
      (volume adv : Dict String R)
      → IsBook before
      → Ends (
          run_batch plan cash reductions_only withheld prices reductions additions
            (started_run before volume adv []))
  batch-Ends reductions_only withheld prices reductions additions volume adv book =
      elim (Bool-cases (is_nil (unpriced_symbols plan (reductions ++ additions)))) [
        | inl priced ↦ rw priced (
            reductions-Ends reductions_only withheld prices additions _
              (plain-Accounts exact (unlimited plan) (priced_by plan) cash reductions before volume
                adv book).0)
        | inr missing ↦ rw missing (raises _ _)
      ]

  checked-Ends :
      (reductions_only : Bool) (state : PortfolioRebalanceState R)
      (prices volume adv : Dict String R)
      → IsBook before
      → Ends
          (checked_batch plan cash reductions_only (started_run before volume adv []) state prices)
  checked-Ends reductions_only state prices volume adv book =
      let reductions = intents_in_phase false state.orders in
      let additions = intents_in_phase true state.orders in
      elim (Bool-cases (is_nil (grouped_additions before reductions additions))) [
        | inl fine ↦ rw fine (phases reductions_only)
        | inr grouped ↦ rw grouped (raises _ _)
      ]
    where
      phases :
          (only_reductions : Bool)
          → Ends (
              if only_reductions
              then run_batch plan cash true
                  (withheld_of state)
                  prices
                  (intents_in_phase false state.orders)
                  []
                  (started_run before volume adv [])
              else run_batch plan cash false none prices
                  (intents_in_phase false state.orders)
                  (intents_in_phase true state.orders)
                  (started_run before volume adv []))
      phases true =
          batch-Ends true (withheld_of state) prices (intents_in_phase false state.orders) [] volume
            adv book
      phases false =
          batch-Ends false none prices (intents_in_phase false state.orders)
            (intents_in_phase true state.orders) volume adv book

  planned-Ends :
      (reductions_only : Bool) (volume adv : Dict String R)
      (planned : Result RebalanceError (PortfolioRebalanceState R × Dict String R))
      → IsBook before
      → Ends (planned_batch plan cash reductions_only (started_run before volume adv []) planned)
  planned-Ends reductions_only volume adv (err e) book = raises _ _
  planned-Ends reductions_only volume adv (ok (state, prices)) book =
      elim (Bool-cases (is_nil state.unresolved_legs || reductions_only)) [
        | inl fine ↦ rw fine (checked-Ends reductions_only state prices volume adv book)
        | inr waits ↦ rw waits (raises _ _)
      ]

-- A rebalance that returns, over a book whose positions stand under their symbols with positive
-- quantities, where the arithmetic has the facts of `IsMachine`: the book that it leaves is such a
-- book again, and the events of its reductions and additions, replayed over the book before, where a
-- reduction to a positive quantity within the tolerance changes nothing, give every open quantity,
-- counted not below zero.
pub execute_portfolio_weights-Tells :
    {R : Type 0} ⦃num : Number R⦄ (exact : IsMachine num) (plan : Plan R)
    (targets : PortfolioWeights R) (reference : Option (String → Option R)) (reductions_only : Bool)
    (cash : R) (positions : Dict String (PositionState R)) (volume adv : Dict String R)
    (after : Rebalanced R)
    → IsBook positions
    → execute_portfolio_weights plan targets reference reductions_only cash positions volume adv
      ≡ (after, none)
    → IsBook after.run.positions
      × ((k : String)
          → size k after.run.positions ≡ replay_size k (size k positions) after.run.events)
unfolding execute_portfolio_weights
execute_portfolio_weights-Tells exact plan targets reference reductions_only cash positions volume
      adv after book h =
    planned-Ends exact plan positions cash reductions_only volume adv
      (plan_portfolio_weights plan targets positions cash (reference_of plan targets reference)
        (reference_of plan targets reference))
      book after h
