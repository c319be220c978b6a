-- ===== src/Core/Rebalance/Cancel.antt =====
-- `_cancel_rebalance_symbols` of librae/core/executor.py: the legs of a target whose symbols a protective
-- exit takes.
use librae.Base.{
  sorted_set, ℕ, String, ◌&&◌, Option, none, some, List, [], ◌∷◌, ◌++◌, map, if◌then◌else◌,
  string_eq, Dict, lookup, contains, insert, is_nil,
}
use librae.Base.{
  ℕ, String, ◌&&◌, Option, none, some, List, [], ◌∷◌, ◌++◌, map, if◌then◌else◌, string_eq, Dict,
  lookup, insert, contains, is_nil, sorted_set,
}
use librae.Core.Intents.{OrderAction}
use librae.Core.Number.{Number, ◌-◌, abs}
use librae.Core.Rebalance.{
  RebalancePhase, RebalanceOrderState, UnresolvedRebalanceLeg, PortfolioRebalanceState,
}

-- An entry of `phases`.
pub record CancelledPhase (R : Type 0) : Type 0 where
  pub phase : RebalancePhase
  pub action : OrderAction
  pub requested_quantity : R
  pub filled_quantity : R
  pub cancelled_quantity : R

-- The event "rebalance_cancelled_by_protective_exit" with its detail, whose `sizing_state` goes with the
-- target notional.
pub record Cancellation (R : Type 0) : Type 0 where
  pub ts : ℕ
  pub symbol : String
  pub exit_reason : Option String
  pub phases : List (CancelledPhase R)
  pub target_notional : Option R

-- The two results of a loop over the orders or over the legs: the cancelled by symbol, and the retained.
module _ {A B : Type 0} (symbol_of : A → String) (added : A → Option B → B)
    (exit_reasons : Dict String String) where
  abbrev pub split_step : Dict String B × List A → A → Dict String B × List A
  split_step (cancelled, retained) item =
      if contains (symbol_of item) exit_reasons
      then (
        insert (symbol_of item) (added item (lookup (symbol_of item) cancelled)) cancelled,
        retained,
      )
      else (cancelled, retained ++ item ∷ [])

  unfoldable pub split_walk : Dict String B × List A → List A → Dict String B × List A
  split_walk state [] = state
  split_walk state (item ∷ rest) = split_walk (split_step state item) rest

abbrev pub names : {B : Type 0} → Dict String B → List String
names [] = []
names ((symbol, _) ∷ rest) = symbol ∷ names rest

abbrev pub listed : {A : Type 0} → Option (List A) → List A
listed none = []
listed (some l) = l

module _ {R : Type 0} where
  abbrev pub order_symbol : RebalanceOrderState R → String
  order_symbol order = order.intent.symbol

  abbrev pub leg_symbol : UnresolvedRebalanceLeg R → String
  leg_symbol leg = leg.symbol

  -- `setdefault(symbol, []).append(order)`
  abbrev pub with_order :
      RebalanceOrderState R → Option (List (RebalanceOrderState R)) → List (RebalanceOrderState R)
  with_order order cancelled = listed cancelled ++ order ∷ []

  -- `cancelled_legs[leg.symbol] = leg`
  abbrev pub with_leg :
      UnresolvedRebalanceLeg R → Option (UnresolvedRebalanceLeg R) → UnresolvedRebalanceLeg R
  with_leg leg _ = leg

  abbrev pub split_orders :
      Dict String String
      → List (RebalanceOrderState R)
      → Dict String (List (RebalanceOrderState R)) × List (RebalanceOrderState R)
  split_orders exit_reasons = split_walk order_symbol with_order exit_reasons ([], [])

  abbrev pub split_legs :
      Dict String String
      → List (UnresolvedRebalanceLeg R)
      → Dict String (UnresolvedRebalanceLeg R) × List (UnresolvedRebalanceLeg R)
  split_legs exit_reasons = split_walk leg_symbol with_leg exit_reasons ([], [])

  abbrev pub retained_state :
      PortfolioRebalanceState R
      → List (RebalanceOrderState R)
      → List (UnresolvedRebalanceLeg R)
      → Option (PortfolioRebalanceState R)
  retained_state state orders legs =
      if is_nil orders && is_nil legs
      then none
      else some (record { target = state.target; orders = orders; unresolved_legs = legs })

module _ {R : Type 0} ⦃num : Number R⦄ where
  abbrev pub cancelled_phase : RebalanceOrderState R → CancelledPhase R
  cancelled_phase order = record {
    phase = order.phase;
    action = order.intent.action;
    requested_quantity = order.requested_quantity;
    filled_quantity = order.requested_quantity - order.remaining_quantity;
    cancelled_quantity = order.remaining_quantity;
  }

  abbrev pub notional_of : Option (UnresolvedRebalanceLeg R) → Option R
  notional_of none = none
  notional_of (some leg) = some (abs leg.target_signed_notional)

  abbrev pub cancellation :
      Dict String String
      → ℕ
      → Dict String (List (RebalanceOrderState R))
      → Dict String (UnresolvedRebalanceLeg R)
      → String
      → Cancellation R
  cancellation exit_reasons ts orders legs symbol = record {
    ts = ts;
    symbol = symbol;
    exit_reason = lookup symbol exit_reasons;
    phases = map cancelled_phase (listed (lookup symbol orders));
    target_notional = notional_of (lookup symbol legs);
  }

  unfoldable pub cancel_rebalance_symbols :
      PortfolioRebalanceState R
      → Dict String String
      → ℕ
      → Option (PortfolioRebalanceState R) × List (Cancellation R)
  unfolding split_walk
  cancel_rebalance_symbols state exit_reasons ts =
      let (cancelled_orders, retained_orders) = split_orders exit_reasons state.orders in
      let (cancelled_legs, retained_legs) = split_legs exit_reasons state.unresolved_legs in
      (
        retained_state state retained_orders retained_legs,
        map (cancellation exit_reasons ts cancelled_orders cancelled_legs)
            (sorted_set (names cancelled_orders ++ names cancelled_legs)),
      )
