-- ===== src/Core/Orders/Normalize.antt =====
-- `normalize_order_intents` and `_validate_scale_in_group_identity` of librae/core/executor.py.
use librae.Base.{
  String, Bool, true, false, not, ◌&&◌, ◌||◌, Option, none, some, List, [], ◌∷◌, ◌++◌, map,
  if◌then◌else◌, ◌==◌, nat_eq, string_eq, Dict, lookup, insert, Result, ok, err, ◌>>=◌,
}
use librae.Core.Intents.{OrderIntent, PositionSide, symbol_of}
use librae.Core.Positions.{PositionState}
use librae.Core.Fills.{side_eq}
use librae.Core.Liquidity.{fill_side_of}
use librae.Core.Events.{RuntimeEvent, skipped_with, field, end}
use librae.Core.Number.{Number, ◌+◌, ◌/◌, ◌<◌, ◌≤◌, zero, epsilon, is_finite}
use librae.Core.Orders.{
  Plan, OrderError, invalid_quantity, group_below_minimum, group_ratio, mixed_identity,
}

-- An intent after normalization, and whether it is the object that was given.
pub record Normal (R : Type 0) : Type 0 where
  pub intent : OrderIntent R
  pub same : Bool

-- The lists and dicts that the loop fills.
pub record Normalized (R : Type 0) : Type 0 where
  pub normalized : List (Normal R)
  pub runtime_events : List RuntimeEvent
  pub group_scales : Dict String (List R)

abbrev pub scales_at : {R : Type 0} → Option (List R) → List R
scales_at none = []
scales_at (some l) = l

abbrev pub add_scale :
    {R : Type 0} → Option String → R → Dict String (List R) → Dict String (List R)
add_scale none scale scales = scales
add_scale (some g) scale scales = insert g (scales_at (lookup g scales) ++ scale ∷ []) scales

abbrev pub refused_or : {A : Type 0} → Option OrderError → A → Result OrderError A
refused_or none a = ok a
refused_or (some e) a = err e

abbrev pub kept_same : {R : Type 0} → OrderIntent R → Normal R
kept_same intent = record { intent = intent; same = true }

-- `intent.group_id != position.group_id`
abbrev pub same_group : Option String → Option String → Bool
same_group none none = true
same_group (some g) (some h) = g == h
same_group _ _ = false

module _ {R : Type 0} ⦃num : Number R⦄ where
  abbrev pub group_error : Option String → R → Option OrderError
  group_error none quantity = none
  group_error (some g) quantity = if quantity ≤ epsilon then some (group_below_minimum g) else none

  -- An intent with a quantity, after the resolver has returned.
  unfoldable pub normalize_to :
      Plan R → OrderIntent R → String → R → R → Normalized R → Result OrderError (Normalized R)
  normalize_to plan intent symbol requested quantity acc =
      let scales = add_scale intent.group_id (quantity / requested) acc.group_scales in
      if not (is_finite quantity) || quantity < zero || requested + epsilon < quantity
      then err (invalid_quantity symbol)
      else refused_or (group_error intent.group_id quantity) (
          if quantity ≤ epsilon
          then record acc {
            group_scales = scales;
            runtime_events =
                acc.runtime_events
                ++ skipped_with plan.ts "quantity_not_executable" symbol (
                    field "requested_quantity" (plan.as_value requested)
                      (field "executable_quantity" (plan.as_value zero) end))
                  ∷ [];
          }
          else record acc {
            group_scales = scales;
            normalized =
                acc.normalized
                ++ (if plan.isclose zero epsilon quantity requested
                    then kept_same intent
                    else record {
                      intent = record intent { quantity = some quantity };
                      same = false;
                    })
                  ∷ [];
          })

  abbrev pub normalize_quantity :
      Plan R
      → (String → R → R)
      → OrderIntent R
      → Option R
      → Normalized R
      → Result OrderError (Normalized R)
  normalize_quantity plan resolve intent none acc =
      ok (record acc { normalized = acc.normalized ++ kept_same intent ∷ [] })
  normalize_quantity plan resolve intent (some requested) acc =
      let symbol = symbol_of plan.primary_symbol intent in
      normalize_to plan intent symbol requested (resolve symbol requested) acc

  -- The loop over the intents.
  unfoldable pub normalize_walk :
      Plan R
      → (String → R → R)
      → List (OrderIntent R)
      → Normalized R
      → Result OrderError (Normalized R)
  unfolding normalize_to
  normalize_walk plan resolve [] acc = ok acc
  normalize_walk plan resolve (intent ∷ rest) acc =
      normalize_quantity plan resolve intent intent.quantity acc >>= λ next.
      normalize_walk plan resolve rest next

  -- `any(not np.isclose(scale, first, rtol=EPSILON, atol=EPSILON) for scale in scales[1:])`
  abbrev pub some_differs : Plan R → R → List R → Bool
  some_differs plan first [] = false
  some_differs plan first (scale ∷ rest) =
      not (plan.isclose epsilon epsilon scale first) || some_differs plan first rest

  abbrev pub ratios_change : Plan R → List R → Bool
  ratios_change plan [] = false
  ratios_change plan (first ∷ rest) = some_differs plan first rest

  unfoldable pub check_scales : Plan R → Dict String (List R) → Option OrderError
  check_scales plan [] = none
  check_scales plan ((g, scales) ∷ rest) =
      if ratios_change plan scales then some (group_ratio g) else check_scales plan rest

  abbrev pub scales_checked :
      Plan R → Normalized R → Result OrderError (List (Normal R) × List RuntimeEvent)
  scales_checked plan acc =
      refused_or (check_scales plan acc.group_scales) (acc.normalized, acc.runtime_events)

  abbrev pub normalize_by :
      Plan R
      → List (OrderIntent R)
      → Option (String → R → R)
      → Result OrderError (List (Normal R) × List RuntimeEvent)
  normalize_by plan intents none = ok (map kept_same intents, [])
  normalize_by plan intents (some resolve) =
      normalize_walk plan resolve intents
        (record { normalized = []; runtime_events = []; group_scales = [] })
      >>= scales_checked plan

  unfoldable pub normalize_order_intents :
      Plan R → List (OrderIntent R) → Result OrderError (List (Normal R) × List RuntimeEvent)
  unfolding normalize_walk check_scales
  normalize_order_intents plan intents = normalize_by plan intents plan.get_executable_quantity

  abbrev pub crosses_group : OrderIntent R → Option (PositionState R) → Option PositionSide → Bool
  crosses_group intent (some position) (some side) =
      side_eq position.side side && not (same_group intent.group_id position.group_id)
  crosses_group intent _ _ = false

  -- `_validate_scale_in_group_identity`
  unfoldable pub validate_scale_in_group_identity :
      String → Dict String (PositionState R) → List (Normal R) → Option OrderError
  validate_scale_in_group_identity primary positions [] = none
  validate_scale_in_group_identity primary positions (n ∷ rest) =
      let symbol = symbol_of primary n.intent in
      if crosses_group n.intent (lookup symbol positions) (fill_side_of n.intent.action)
      then some (mixed_identity symbol)
      else validate_scale_in_group_identity primary positions rest
