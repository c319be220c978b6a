-- ===== src/Core/Orders/Lost.antt =====
-- The resting intents of `execute_order_intents` as a whole. Where some intent has a group and groups
-- fill as one, the result has none, though an intent without a group may ask to rest.
use librae.Base.{
  refl, some-none, String, ◌≡◌, refl, ap, ◌∙◌, inl, inr, Bool, true, false, ◌&&◌, Option, none,
  some, List, [], ◌∷◌, ◌++◌, map, Bool-cases, Dict, Result, ok, err, select,
}
use librae.Core.Intents.{OrderIntent, is_resting, symbol_of}
use librae.Core.Events.{RuntimeEvent}
use librae.Core.Number.{Number}
use librae.Core.Positions.{PositionState}
use librae.Core.Orders.{Plan, Run, Outcome, OrderError, started_run, then_run}
use librae.Core.Orders.Normalize.{Normal}
use librae.Core.Orders.Execute.{
  unpriced, priced_by, price_all, check_pricing, execute_normalized, prepare, when_clear,
}
use librae.Core.Orders.Groups.{
  OrderUnit, Leg, any_grouped, units_from, preflight, intents_in, fully_filled, commit, committed,
  committed_group, unfillable, alone, staged, run_unit, run_units, run_preflighted, execute_groups,
  validate_prices, run_validated, execute_order_intents,
}
use librae.Core.Orders.Rests.{resting_of, execute_priced-resting}

module _ {R : Type 0} ⦃num : Number R⦄ (plan : Plan R) where
  -- An intent of a lifetime beyond one event, which has no price on this one.
  abbrev pub awaits : OrderIntent R → Bool
  awaits intent =
      unpriced (plan.get_price (symbol_of plan.primary_symbol intent) intent)
      && is_resting intent.time_in_force

  abbrev paired : Normal R → OrderIntent R × Option R
  paired n = (n.intent, plan.get_price (symbol_of plan.primary_symbol n.intent) n.intent)

  price_all-paired :
      (normals : List (Normal R)) → price_all (priced_by plan) normals ≡ ok (map paired normals)
  price_all-paired [] = refl
  price_all-paired (n ∷ rest) = rw (price_all-paired rest) refl

  resting_of-paired :
      (normals : List (Normal R))
      → resting_of plan (map paired normals) ≡ select awaits (intents_in normals)
  resting_of-paired [] = refl
  resting_of-paired (n ∷ rest) = elim (Bool-cases (awaits n.intent)) [
    | inl h ↦ rw (h, resting_of-paired rest) refl
    | inr h ↦ rw (h, resting_of-paired rest) refl
  ]

  clear-returns :
      (run after : Run R) (lost : Option OrderError) (next : Outcome R)
      → when_clear run lost next ≡ (after, none)
      → next ≡ (after, none)
  clear-returns run after none next h = h
  clear-returns run after (some e) next h = absurd (some-none (ap (λ (p : Outcome R). p.1) h))

  normalized-resting :
      (cash : R) (normals : List (Normal R)) (run after : Run R)
      → execute_normalized plan (priced_by plan) cash normals run ≡ (after, none)
      → after.resting_intents ≡ run.resting_intents ++ select awaits (intents_in normals)
  unfolding execute_normalized
  normalized-resting cash normals run after h =
      execute_priced-resting plan cash (map paired normals) run after (
        clear-returns run after (check_pricing (map paired normals) (map paired normals)) _
          (rw (price_all-paired normals) at h))
      ∙ ap (λ l. run.resting_intents ++ l) (resting_of-paired normals)

  -- No unit adds a resting intent to what the caller has.
  abbrev Same : Run R → Outcome R → Type 0
  Same run o = o.0.resting_intents ≡ run.resting_intents

  committed-Same : (run : Run R) (o : Outcome R) → Same run (committed run o)
  unfolding commit
  committed-Same run (result, none) = refl
  committed-Same run (result, some e) = refl

  committed_group-Same :
      (g : String) (legs : List (Leg R)) (run : Run R) (o : Outcome R)
      → Same run (committed_group plan g legs run o)
  unfolding commit unfillable
  committed_group-Same g legs run (result, some e) = refl
  committed_group-Same g legs run (result, none) =
      elim (Bool-cases (fully_filled plan legs result.events)) [
        | inl full ↦ rw full refl
        | inr partial_ ↦ rw partial_ refl
      ]

  unit-Same :
      (cash : R) (u : OrderUnit R × List (Leg R)) (run : Run R)
      → Same run (run_unit plan cash u run)
  unfolding run_unit
  unit-Same cash ((none, members), legs) run = committed-Same run (alone plan cash members run)
  unit-Same cash ((some g, members), legs) run =
      committed_group-Same g legs run (staged plan cash members run)

  then_run-Same :
      (run : Run R) (o : Outcome R) (next : Run R → Outcome R)
      → Same run o
      → ((r : Run R) → Same r (next r))
      → Same run (then_run o next)
  then_run-Same run (r, none) next first later = later r ∙ first
  then_run-Same run (r, some e) next first later = first

  units-Same :
      (cash : R) (units : List (OrderUnit R × List (Leg R))) (run : Run R)
      → Same run (run_units plan cash units run)
  unfolding run_units
  units-Same cash [] run = refl
  units-Same cash (u ∷ rest) run =
      then_run-Same run (run_unit plan cash u run) (run_units plan cash rest) (unit-Same cash u run)
        (λ r. units-Same cash rest r)

  groups-Same :
      (cash : R) (intents : List (OrderIntent R)) (run : Run R)
      → Same run (execute_groups plan cash intents run)
  unfolding execute_groups
  groups-Same cash intents run = preflighted (preflight plan run.positions (units_from intents []))
    where
      preflighted :
          (p : Result OrderError (List (OrderUnit R × List (Leg R))))
          → Same run (run_preflighted plan cash run p)
      preflighted (err e) = refl
      preflighted (ok units) = units-Same cash units run

-- A call that returns and has no groups that fill as one: it leaves resting, in order, the intents
-- that normalization keeps, that have no price on this event and that have a lifetime beyond it.
pub execute_order_intents-resting :
    {R : Type 0} ⦃num : Number R⦄ (plan : Plan R) (cash : R) (intents : List (OrderIntent R))
    (positions : Dict String (PositionState R)) (volume adv : Dict String R)
    (normals : List (Normal R)) (notes : List RuntimeEvent) (run : Run R)
    → prepare plan positions intents ≡ ok (normals, notes)
    → execute_order_intents plan false cash intents positions volume adv ≡ (run, none)
    → run.resting_intents ≡ select (awaits plan) (intents_in normals)
unfolding execute_order_intents
execute_order_intents-resting {R = R} plan cash intents positions volume adv normals notes run
      prepared h =
    validated (validate_prices plan.validate_intent_prices plan.primary_symbol intents) h
  where
    validated :
        (invalid : Option OrderError)
        → run_validated plan false cash intents (started_run positions volume adv []) invalid
          ≡ (run, none)
        → run.resting_intents ≡ select (awaits plan) (intents_in normals)
    validated (some e) g = absurd (some-none (ap (λ (p : Outcome R). p.1) g))
    validated none g = normalized-resting plan cash normals _ run (rw prepared at g)

-- A call where groups fill as one and an intent that normalization keeps has a group leaves no intent
-- resting, whatever the lifetimes of the intents without a group are, and whether it returns or raises.
pub execute_order_intents-rests_none :
    {R : Type 0} ⦃num : Number R⦄ (plan : Plan R) (cash : R) (intents : List (OrderIntent R))
    (positions : Dict String (PositionState R)) (volume adv : Dict String R)
    (normals : List (Normal R)) (notes : List RuntimeEvent)
    → prepare plan positions intents ≡ ok (normals, notes)
    → any_grouped normals ≡ true
    → (execute_order_intents plan true cash intents positions volume adv).0.resting_intents ≡ []
unfolding execute_order_intents
execute_order_intents-rests_none plan cash intents positions volume adv normals notes prepared
      grouped =
    validated (validate_prices plan.validate_intent_prices plan.primary_symbol intents)
  where
    validated :
        (invalid : Option OrderError)
        → (run_validated plan true cash intents
            (started_run positions volume adv [])
            invalid).0.resting_intents
          ≡ []
    validated (some e) = refl
    validated none = rw (prepared, grouped) (groups-Same plan cash (intents_in normals) _)
