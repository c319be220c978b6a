-- ===== src/Core/Orders/Execute.antt =====
-- `execute_order_intents` of librae/core/executor.py without the groups that fill as one: the pricing
-- and the loop.
use librae.Base.{
  String, Bool, true, false, Option, none, some, List, [], ◌∷◌, ◌++◌, if◌then◌else◌, Dict, lookup,
  Result, ok, err, string_eq, ◌==◌, ◌&&◌, ◌||◌, ◌>>=◌,
}
use librae.Core.Intents.{OrderIntent, PositionSide, OrderAction, is_resting, symbol_of}
use librae.Core.Events.{RuntimeEvent}
use librae.Core.Number.{Number, ◌≤◌, zero}
use librae.Core.Positions.{PositionState}
use librae.Core.Orders.{Plan, Run, Outcome, then_run, OrderError, started_run, group_pricing}
use librae.Core.Orders.Normalize.{
  Normal, refused_or, normalize_order_intents, validate_scale_in_group_identity,
}
use librae.Core.Orders.Opening.{enter_step}
use librae.Core.Orders.Closing.{close_step}

abbrev pub in_group : String → Option String → Bool
in_group g none = false
in_group g (some h) = h == g

abbrev pub first_of : Option OrderError → Option OrderError → Option OrderError
first_of none later = later
first_of (some e) later = some e

-- `price_raw` of an intent, which a staged group looks up by identity.
abbrev pub Pricing : Type 0 → Type 0
Pricing R = Normal R → Result OrderError (Option R)

module _ {R : Type 0} ⦃num : Number R⦄ where
  -- `price_raw is None or price_raw <= 0`
  abbrev pub unpriced : Option R → Bool
  unpriced none = true
  unpriced (some price) = price ≤ zero

  abbrev pub act : Plan R → R → OrderIntent R → String → R → Run R → OrderAction → Outcome R
  act plan cash intent symbol price run OrderAction.long =
      enter_step plan cash intent symbol price PositionSide.long run (lookup symbol run.positions)
  act plan cash intent symbol price run OrderAction.short =
      enter_step plan cash intent symbol price PositionSide.short run (lookup symbol run.positions)
  act plan cash intent symbol price run OrderAction.close =
      (close_step plan intent symbol price run (lookup symbol run.positions), none)

  abbrev pub rested : OrderIntent R → Run R → Run R
  rested intent run =
      if is_resting intent.time_in_force
      then record run { resting_intents = run.resting_intents ++ intent ∷ [] }
      else run

  abbrev pub act_at : Plan R → R → OrderIntent R → Run R → Option R → Outcome R
  act_at plan cash intent run none = (rested intent run, none)
  act_at plan cash intent run (some price) =
      if price ≤ zero
      then (rested intent run, none)
      else act plan cash intent (symbol_of plan.primary_symbol intent) price run intent.action

  -- The loop over the priced actions.
  unfoldable pub execute_priced : Plan R → R → List (OrderIntent R × Option R) → Run R → Outcome R
  unfolding enter_step close_step
  execute_priced plan cash [] run = (run, none)
  execute_priced plan cash ((intent, price) ∷ rest) run =
      then_run (act_at plan cash intent run price) (execute_priced plan cash rest)

  abbrev pub price_all :
      Pricing R → List (Normal R) → Result OrderError (List (OrderIntent R × Option R))
  price_all pricing [] = ok []
  price_all pricing (n ∷ rest) =
      pricing n >>= λ price. price_all pricing rest >>= λ priced. ok ((n.intent, price) ∷ priced)

  abbrev pub loses_price : String → List (OrderIntent R × Option R) → Bool
  loses_price g [] = false
  loses_price g ((intent, price) ∷ rest) =
      in_group g intent.group_id && unpriced price || loses_price g rest

  abbrev pub lost_of : List (OrderIntent R × Option R) → Option String → Option OrderError
  lost_of priced none = none
  lost_of priced (some g) = if loses_price g priced then some (group_pricing g) else none

  -- The groups, in the order of their first members.
  unfoldable pub check_pricing :
      List (OrderIntent R × Option R) → List (OrderIntent R × Option R) → Option OrderError
  check_pricing priced [] = none
  check_pricing priced ((intent, price) ∷ rest) =
      first_of (lost_of priced intent.group_id) (check_pricing priced rest)

  abbrev pub when_clear : Run R → Option OrderError → Outcome R → Outcome R
  when_clear run none next = next
  when_clear run (some e) next = (run, some e)

  abbrev pub executed :
      Plan R → R → Run R → Result OrderError (List (OrderIntent R × Option R)) → Outcome R
  executed plan cash run (err e) = (run, some e)
  executed plan cash run (ok priced) =
      when_clear run (check_pricing priced priced) (execute_priced plan cash priced run)

  -- What follows the checks of the intents, where no group fills as one.
  unfoldable pub execute_normalized : Plan R → Pricing R → R → List (Normal R) → Run R → Outcome R
  unfolding check_pricing execute_priced
  execute_normalized plan pricing cash normals run =
      executed plan cash run (price_all pricing normals)

  abbrev pub priced_by : Plan R → Pricing R
  priced_by plan n = ok (plan.get_price (symbol_of plan.primary_symbol n.intent) n.intent)

  abbrev pub identified :
      Plan R
      → Dict String (PositionState R)
      → List (Normal R) × List RuntimeEvent
      → Result OrderError (List (Normal R) × List RuntimeEvent)
  identified plan positions (normals, notes) =
      refused_or (validate_scale_in_group_identity plan.primary_symbol positions normals)
        (normals, notes)

  -- The normalization and the check of the groups' identities.
  unfoldable pub prepare :
      Plan R
      → Dict String (PositionState R)
      → List (OrderIntent R)
      → Result OrderError (List (Normal R) × List RuntimeEvent)
  unfolding normalize_order_intents validate_scale_in_group_identity
  prepare plan positions intents =
      normalize_order_intents plan intents >>= identified plan positions

  abbrev pub execute_prepared :
      Plan R
      → Pricing R
      → R
      → Run R
      → Result OrderError (List (Normal R) × List RuntimeEvent)
      → Outcome R
  execute_prepared plan pricing cash run (err e) = (run, some e)
  execute_prepared plan pricing cash run (ok (normals, notes)) =
      execute_normalized plan pricing cash normals (record run { runtime_events = notes })

  -- A call without the validation of prices and without `atomic_groups`, over the three dicts.
  unfoldable pub execute_plain :
      Plan R
      → Pricing R
      → R
      → List (OrderIntent R)
      → Dict String (PositionState R)
      → Dict String R
      → Dict String R
      → Outcome R
  unfolding prepare execute_normalized
  execute_plain plan pricing cash intents positions volume adv =
      execute_prepared plan pricing cash (started_run positions volume adv [])
        (prepare plan positions intents)
