-- ===== src/Core/Orders/Groups.antt =====
-- `_preflight_intent_group` and `_execute_order_intent_groups_atomically` of librae/core/executor.py, and
-- `execute_order_intents` as a whole.
use librae.Base.{
  String, Bool, true, false, ◌&&◌, ◌||◌, Option, none, some, List, [], ◌∷◌, ◌++◌, map,
  if◌then◌else◌, ◌==◌, nat_eq, string_eq, Dict, lookup, Result, ok, err, ◌>>=◌, add_sorted,
}
use librae.Core.Intents.{OrderIntent, OrderAction, symbol_of, is_some}
use librae.Core.Events.{
  RuntimeEvent, Value, Items, nil, item, text, entries, field, end, get, decision_skipped,
}
use librae.Core.Number.{Number, ◌+◌, ◌<◌, zero, epsilon}
use librae.Core.Positions.{PositionState, PositionEvent}
use librae.Core.Orders.{
  Plan, OrderError, Run, Outcome, started_run, then_run, group_pricing, group_quantity,
  group_no_position, group_over_close, identity_lost, invalid_price,
}
use librae.Core.Orders.Normalize.{Normal}
use librae.Core.Orders.Execute.{
  Pricing, unpriced, priced_by, prepare, execute_normalized, execute_plain, first_of,
}

abbrev pub failed_reason : Option Value → String
failed_reason (some (text reason)) = reason
failed_reason _ = "unfilled"

abbrev pub reasons_of : List RuntimeEvent → List String
reasons_of [] = []
reasons_of (e ∷ rest) = add_sorted (failed_reason (get "reason" e.detail)) (reasons_of rest)

abbrev pub or_partial : List String → List String
or_partial [] = "partial_fill" ∷ []
or_partial (reason ∷ rest) = reason ∷ rest

abbrev pub texts : List String → Items
texts [] = nil
texts (s ∷ rest) = item (text s) (texts rest)

-- A unit is an ungrouped intent or the members of a group.
abbrev pub OrderUnit : Type 0 → Type 0
OrderUnit R = Option String × List (OrderIntent R)

abbrev pub joins : Option String → String → Bool
joins none g = false
joins (some h) g = h == g

-- What one leg must fill, with its symbol.
abbrev pub Leg : Type 0 → Type 0
Leg R = String × R

unfoldable pub add_to_group :
    {R : Type 0} → String → OrderIntent R → List (OrderUnit R) → List (OrderUnit R)
add_to_group g intent [] = (some g, intent ∷ []) ∷ []
add_to_group g intent ((h, members) ∷ rest) =
    if joins h g
    then (h, members ++ intent ∷ []) ∷ rest
    else (h, members) ∷ add_to_group g intent rest

abbrev pub add_to_units :
    {R : Type 0} → OrderIntent R → Option String → List (OrderUnit R) → List (OrderUnit R)
add_to_units intent none units = units ++ (none, intent ∷ []) ∷ []
add_to_units intent (some g) units = add_to_group g intent units

unfoldable pub units_from :
    {R : Type 0} → List (OrderIntent R) → List (OrderUnit R) → List (OrderUnit R)
unfolding add_to_group
units_from [] units = units
units_from (intent ∷ rest) units = units_from rest (add_to_units intent intent.group_id units)

abbrev pub any_grouped : {R : Type 0} → List (Normal R) → Bool
any_grouped [] = false
any_grouped (n ∷ rest) = is_some n.intent.group_id || any_grouped rest

abbrev pub invalid_price_of : Option String → Option OrderError
invalid_price_of none = none
invalid_price_of (some message) = some (invalid_price message)

module _ {R : Type 0} ⦃num : Number R⦄ where
  abbrev pub any_unpriced : Plan R → List (OrderIntent R) → Bool
  any_unpriced plan [] = false
  any_unpriced plan (intent ∷ rest) =
      unpriced (plan.get_price (symbol_of plan.primary_symbol intent) intent)
      || any_unpriced plan rest

  abbrev pub entry_leg : String → String → Option R → Result OrderError (Leg R)
  entry_leg g symbol none = err (group_quantity g)
  entry_leg g symbol (some quantity) = ok (symbol, quantity)

  abbrev pub close_leg :
      String → String → Option R → Option (PositionState R) → Result OrderError (Leg R)
  close_leg g symbol quantity none = err (group_no_position g symbol)
  close_leg g symbol none (some position) = ok (symbol, position.quantity)
  close_leg g symbol (some quantity) (some position) =
      if position.quantity + epsilon < quantity
      then err (group_over_close g symbol)
      else ok (symbol, quantity)

  abbrev pub leg_of :
      String
      → String
      → Option R
      → Dict String (PositionState R)
      → OrderAction
      → Result OrderError (Leg R)
  leg_of g symbol quantity positions OrderAction.close =
      close_leg g symbol quantity (lookup symbol positions)
  leg_of g symbol quantity positions _ = entry_leg g symbol quantity

  unfoldable pub legs_of :
      String
      → String
      → Dict String (PositionState R)
      → List (OrderIntent R)
      → Result OrderError (List (Leg R))
  legs_of g primary positions [] = ok []
  legs_of g primary positions (intent ∷ rest) =
      leg_of g (symbol_of primary intent) intent.quantity positions intent.action >>= λ leg.
      legs_of g primary positions rest >>= λ legs. ok (leg ∷ legs)

  -- `_preflight_intent_group`, whose prices the staged call asks for again.
  unfoldable pub preflight_intent_group :
      Plan R
      → String
      → List (OrderIntent R)
      → Dict String (PositionState R)
      → Result OrderError (List (Leg R))
  unfolding legs_of
  preflight_intent_group plan g members positions =
      if any_unpriced plan members
      then err (group_pricing g)
      else legs_of g plan.primary_symbol positions members

  abbrev pub preflight_unit :
      Plan R → Dict String (PositionState R) → OrderUnit R → Result OrderError (List (Leg R))
  preflight_unit plan positions (none, members) = ok []
  preflight_unit plan positions (some g, members) = preflight_intent_group plan g members positions

  -- Every unit with what its legs must fill.
  unfoldable pub preflight :
      Plan R
      → Dict String (PositionState R)
      → List (OrderUnit R)
      → Result OrderError (List (OrderUnit R × List (Leg R)))
  unfolding preflight_intent_group
  preflight plan positions [] = ok []
  preflight plan positions (u ∷ rest) = preflight_unit plan positions u >>= λ legs.
      preflight plan positions rest >>= λ later. ok ((u, legs) ∷ later)

  -- `_prices[id(intent)]`, which knows only the members themselves.
  abbrev pub priced_by_identity : Plan R → Pricing R
  priced_by_identity plan n = if n.same then priced_by plan n else err identity_lost

  -- Each leg has its event, which fills it in full.
  unfoldable pub fully_filled : Plan R → List (Leg R) → List (PositionEvent R) → Bool
  fully_filled plan [] [] = true
  fully_filled plan ((symbol, expected) ∷ legs) (e ∷ events) =
      (e.symbol == symbol)
      && plan.isclose zero epsilon e.fill_quantity expected
      && fully_filled plan legs events
  fully_filled plan _ _ = false

  -- What the caller takes over of a unit's result, and what stays if nothing is taken.
  unfoldable pub commit : Run R → Run R → Run R
  commit run result = record run {
    positions = result.positions;
    volume_consumed = result.volume_consumed;
    adv_consumed = result.adv_consumed;
    trades = run.trades ++ result.trades;
    events = run.events ++ result.events;
    runtime_events = run.runtime_events ++ result.runtime_events;
    cash_delta = run.cash_delta + result.cash_delta;
  }

  abbrev pub symbols_of_legs : List (Leg R) → List String
  symbols_of_legs = map (λ leg. leg.0)

  unfoldable pub unfillable : Plan R → String → List (Leg R) → Run R → List RuntimeEvent → Run R
  unfillable plan g legs run events = record run {
    runtime_events =
        run.runtime_events
        ++ (record {
          ts = plan.ts;
          event_type = decision_skipped;
          symbol = none;
          detail = field "reason" (text "group_unfillable") (
              field "group_id" (text g) (
                field "symbols" (entries (texts (symbols_of_legs legs)))
                  (field "failed_reasons" (entries (texts (or_partial (reasons_of events)))) end)));
        })
          ∷ [];
  }

  -- An ungrouped unit changes the caller's dicts as it runs, a raise included.
  abbrev pub committed : Run R → Outcome R → Outcome R
  committed run (result, none) = (commit run result, none)
  committed run (result, some e) = (
    record run {
      positions = result.positions;
      volume_consumed = result.volume_consumed;
      adv_consumed = result.adv_consumed;
    },
    some e,
  )

  abbrev pub committed_group : Plan R → String → List (Leg R) → Run R → Outcome R → Outcome R
  committed_group plan g legs run (result, some e) = (run, some e)
  committed_group plan g legs run (result, none) =
      if fully_filled plan legs result.events
      then (commit run result, none)
      else (unfillable plan g legs run result.runtime_events, none)

  -- The call for an ungrouped unit, and the call for a group over staged copies.
  abbrev pub alone : Plan R → R → List (OrderIntent R) → Run R → Outcome R
  alone plan cash members run =
      execute_plain plan (priced_by plan) (cash + run.cash_delta) members run.positions
        run.volume_consumed run.adv_consumed

  abbrev pub staged : Plan R → R → List (OrderIntent R) → Run R → Outcome R
  staged plan cash members run =
      execute_plain plan (priced_by_identity plan) (cash + run.cash_delta) members run.positions
        run.volume_consumed run.adv_consumed

  unfoldable pub run_unit : Plan R → R → OrderUnit R × List (Leg R) → Run R → Outcome R
  unfolding execute_plain commit unfillable fully_filled
  run_unit plan cash ((none, members), legs) run = committed run (alone plan cash members run)
  run_unit plan cash ((some g, members), legs) run =
      committed_group plan g legs run (staged plan cash members run)

  unfoldable pub run_units : Plan R → R → List (OrderUnit R × List (Leg R)) → Run R → Outcome R
  unfolding run_unit
  run_units plan cash [] run = (run, none)
  run_units plan cash (u ∷ rest) run =
      then_run (run_unit plan cash u run) (run_units plan cash rest)

  abbrev pub run_preflighted :
      Plan R → R → Run R → Result OrderError (List (OrderUnit R × List (Leg R))) → Outcome R
  run_preflighted plan cash run (err e) = (run, some e)
  run_preflighted plan cash run (ok units) = run_units plan cash units run

  -- `_execute_order_intent_groups_atomically`
  unfoldable pub execute_groups : Plan R → R → List (OrderIntent R) → Run R → Outcome R
  unfolding preflight units_from run_units
  execute_groups plan cash intents run =
      run_preflighted plan cash run (preflight plan run.positions (units_from intents []))

  abbrev pub validate_prices :
      Option (String → OrderIntent R → Option String)
      → String
      → List (OrderIntent R)
      → Option OrderError
  validate_prices none primary intents = none
  validate_prices (some check) primary [] = none
  validate_prices (some check) primary (intent ∷ rest) =
      first_of (invalid_price_of (check (symbol_of primary intent) intent))
        (validate_prices (some check) primary rest)

  abbrev pub intents_in : List (Normal R) → List (OrderIntent R)
  intents_in = map (λ n. n.intent)

  abbrev pub run_prepared :
      Plan R
      → Bool
      → R
      → Run R
      → Result OrderError (List (Normal R) × List RuntimeEvent)
      → Outcome R
  run_prepared plan atomic_groups cash run (err e) = (run, some e)
  run_prepared plan atomic_groups cash run (ok (normals, notes)) =
      let noted = record run { runtime_events = notes } in
      if atomic_groups && any_grouped normals
      then execute_groups plan cash (intents_in normals) noted
      else execute_normalized plan (priced_by plan) cash normals noted

  abbrev pub run_validated :
      Plan R → Bool → R → List (OrderIntent R) → Run R → Option OrderError → Outcome R
  run_validated plan atomic_groups cash intents run (some e) = (run, some e)
  run_validated plan atomic_groups cash intents run none =
      run_prepared plan atomic_groups cash run (prepare plan run.positions intents)

  unfoldable pub execute_order_intents :
      Plan R
      → Bool
      → R
      → List (OrderIntent R)
      → Dict String (PositionState R)
      → Dict String R
      → Dict String R
      → Outcome R
  unfolding prepare execute_groups execute_normalized
  execute_order_intents plan atomic_groups cash intents positions volume adv =
      run_validated plan atomic_groups cash intents (started_run positions volume adv [])
        (validate_prices plan.validate_intent_prices plan.primary_symbol intents)
