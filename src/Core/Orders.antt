-- ===== src/Core/Orders.antt =====
-- librae/core/executor.py: the execution of symbol-level intents on one event. The dicts and lists
-- that the loops change are the fields of one record, which a raise leaves as they stand then.
pub mod Entry
pub mod Normalize
pub mod Opening
pub mod Closing
pub mod Execute
pub mod Groups
pub mod Whole
pub mod Atomic
pub mod Rests
pub mod Lost
pub mod Sample
mod Tests
pub mod Told
pub mod Ledger
pub mod Accepted
use librae.Base.{◌≡◌, refl, ap, some-none, ℕ, String, Bool, not, Option, none, some, List, [], Dict}
use librae.Core.Intents.{OrderIntent}
use librae.Core.Events.{RuntimeEvent, Value}
use librae.Core.Number.{Number, zero}
use librae.Core.Costs.{CostModel}
use librae.Core.Positions.{PositionState, TradeResult, PositionEvent}

-- The arguments of `execute_order_intents` that one call does not change. `as_value` is a float as a
-- plain value of an event's detail, and `isclose` is numpy's, of rtol, atol and the two numbers.
-- `validate_intent_prices` returns the message of the error that it raises.
pub record Plan (R : Type 0) : Type 0 where
  pub ts : ℕ
  pub primary_symbol : String
  pub get_price : String → OrderIntent R → Option R
  pub get_cost_model : String → CostModel R
  pub max_position_notional : Option R
  pub max_order_notional : Option R
  pub bar_rate : Option R
  pub adv_rate : Option R
  pub get_volume : Option (String → Option R)
  pub get_lagged_adv : Option (String → Option R)
  pub get_executable_quantity : Option (String → R → R)
  pub validate_intent_prices : Option (String → OrderIntent R → Option String)
  pub get_min_notional : Option (String → Option R)
  pub as_value : R → Value
  pub isclose : R → R → R → R → Bool

-- The `ValueError`s, and the `KeyError` of a price by an identity that is gone.
pub data OrderError : Type 0 where
  invalid_price invalid_quantity order_too_large mixed_identity : String → OrderError
  group_below_minimum group_ratio group_pricing group_quantity : String → OrderError
  group_no_position group_over_close : String → String → OrderError
  identity_lost : OrderError

pub record Run (R : Type 0) : Type 0 where
  pub positions : Dict String (PositionState R)
  pub volume_consumed : Dict String R
  pub adv_consumed : Dict String R
  pub trades : List (TradeResult R)
  pub events : List (PositionEvent R)
  pub runtime_events : List RuntimeEvent
  pub cash_delta : R
  pub resting_intents : List (OrderIntent R)

-- What a step leaves, and what it raised.
abbrev pub Outcome : Type 0 → Type 0
Outcome R = Run R × Option OrderError

abbrev pub started_run :
    {R : Type 0} ⦃num : Number R⦄
    → Dict String (PositionState R)
    → Dict String R
    → Dict String R
    → List RuntimeEvent
    → Run R
started_run positions volume adv runtime_events = record {
  positions = positions;
  volume_consumed = volume;
  adv_consumed = adv;
  trades = [];
  events = [];
  runtime_events = runtime_events;
  cash_delta = zero;
  resting_intents = [];
}

-- The next step runs unless the last one raised.
abbrev pub then_run : {R : Type 0} → Outcome R → (Run R → Outcome R) → Outcome R
then_run (run, none) next = next run
then_run (run, some e) next = (run, some e)

-- A chain that returns has a first step that returns.
pub then_run-returns :
    {R : Type 0} (o : Outcome R) (next : Run R → Outcome R) {after : Run R}
    → then_run o next ≡ (after, none)
    → (run : Run R) × (o ≡ (run, none)) × (next run ≡ (after, none))
then_run-returns (run, none) next h = (run, refl, h)
then_run-returns {R = R} (run, some e) next h = absurd (some-none (ap (λ (p : Outcome R). p.1) h))
